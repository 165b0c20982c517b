-- ===== src/Oms/Links/Chain.antt =====
-- order_manager.hpp, the list of working orders: a list that is linked both ways, read from its links.
use opti_trade_engine.Prelude.{
  ℕ, ◌<◌, ◌≡◌, ◌≢◌, ◌⊎◌, refl, List, [], ◌∷◌, ◌==◌, if◌then◌else◌, arith, Bool-cases, inl, inr, All,
}
use opti_trade_engine.Oms.Slots.Ring.{occurs}

-- The list read forwards from `c`, and read backwards: `p` stands before it and `t` is its last. The
-- number `z` is no slot.
abbrev pub Forwards : ℕ → (ℕ → ℕ) → ℕ → List ℕ → Type 0
Forwards z next c [] = c ≡ z
Forwards z next c (i ∷ is) = (c ≡ i) × Forwards z next (next i) is

abbrev pub Backwards : (ℕ → ℕ) → ℕ → ℕ → List ℕ → Type 0
Backwards prev p t [] = t ≡ p
Backwards prev p t (i ∷ is) = (prev i ≡ p) × Backwards prev i t is

-- The list without a slot.
unfoldable pub without : ℕ → List ℕ → List ℕ
without s [] = []
without s (i ∷ is) = if i == s then without s is else i ∷ without s is

abbrev pub Distinct : List ℕ → Type 0
Distinct is = (i : ℕ) → occurs i is < 2

pub tail-Distinct : (i : ℕ) (is : List ℕ) → Distinct (i ∷ is) → Distinct is
unfolding occurs
tail-Distinct i is d j = omega (arith, d j)

pub head_once : (i : ℕ) (is : List ℕ) → Distinct (i ∷ is) → occurs i is ≡ 0
unfolding occurs
head_once i is d = ground (arith, d i)

module _ (z : ℕ) (next prev : ℕ → ℕ) where
  -- The last slot is in the list, or it is what stands before it.
  pub last_in : (p t : ℕ) (is : List ℕ) → Backwards prev p t is → (t ≡ p) ⊎ (0 < occurs t is)
  unfolding occurs
  last_in p t [] b = inl b
  last_in p t (i ∷ is) b = elim (last_in i t is b.1) [
    | inl here ↦ inr (ground (arith, here))
    | inr later ↦ inr (omega (arith, later))
  ]

  pub next-prev :
      (j s c p t : ℕ) (is : List ℕ)
      → Forwards z next c is
      → Backwards prev p t is
      → 0 < occurs j is
      → s ≢ z
      → next j ≡ s
      → prev s ≡ j
  unfolding occurs
  next-prev j s c p t [] f b m real e = elim m [ ]
  next-prev j s c p t (i ∷ []) f b m real e = ground arith
  next-prev j s c p t (i ∷ k ∷ is) f b m real e = elim (Bool-cases (j == i)) [
    | inl here ↦ ground arith
    | inr there ↦ next-prev j s (next i) i t (k ∷ is) f.1 b.1 (ground arith) real e
  ]

  prev_in :
      (s j c p t : ℕ) (is : List ℕ)
      → Forwards z next c is
      → Backwards prev p t is
      → (p ≡ z) ⊎ (next p ≡ c)
      → 0 < occurs s is
      → j ≢ z
      → prev s ≡ j
      → next j ≡ s
  unfolding occurs
  prev_in s j c p t [] f b before m real e = elim m [ ]
  prev_in s j c p t (i ∷ is) f b before m real e = elim (Bool-cases (s == i)) [
    | inl here ↦ ground arith
    | inr there ↦ prev_in s j (next i) i t is f.1 b.1 (inr refl) (ground arith) real e
  ]

  pub prev-next :
      (s j c t : ℕ) (is : List ℕ)
      → Forwards z next c is
      → Backwards prev z t is
      → 0 < occurs s is
      → j ≢ z
      → prev s ≡ j
      → next j ≡ s
  prev-next s j c t is f b m real e = prev_in s j c z t is f b (inl refl) m real e

  pub first-prev :
      (s c t : ℕ) (is : List ℕ)
      → Forwards z next c is
      → Backwards prev z t is
      → 0 < occurs s is
      → c ≡ s
      → prev s ≡ z
  unfolding occurs
  first-prev s c t [] f b m e = elim m [ ]
  first-prev s c t (i ∷ is) f b m e = ground arith

  none_before :
      (s p t : ℕ) (is : List ℕ)
      → All (λ i. i ≢ z) is
      → Backwards prev p t is
      → 0 < occurs s is
      → p ≢ z
      → prev s ≢ z
  unfolding occurs
  none_before s p t [] a b m real = elim m [ ]
  none_before s p t (i ∷ is) a b m real = elim (Bool-cases (s == i)) [
    | inl here ↦ ground arith
    | inr there ↦ none_before s i t is a.1 b.1 (ground arith) a.0
  ]

  pub prev-first :
      (s c t : ℕ) (is : List ℕ)
      → All (λ i. i ≢ z) is
      → Forwards z next c is
      → Backwards prev z t is
      → 0 < occurs s is
      → prev s ≡ z
      → c ≡ s
  unfolding occurs
  prev-first s c t [] a f b m e = elim m [ ]
  prev-first s c t (i ∷ is) a f b m e = elim (Bool-cases (s == i)) [
    | inl here ↦ ground arith
    | inr there ↦ absurd (none_before s i t is a.1 b.1 (ground arith) a.0 e)
  ]

  pub next-last :
      (s c p t : ℕ) (is : List ℕ)
      → All (λ i. i ≢ z) is
      → Forwards z next c is
      → Backwards prev p t is
      → 0 < occurs s is
      → next s ≡ z
      → t ≡ s
  unfolding occurs
  next-last s c p t [] a f b m e = elim m [ ]
  next-last s c p t (i ∷ []) a f b m e = ground arith
  next-last s c p t (i ∷ k ∷ is) a f b m e = elim (Bool-cases (s == i)) [
    | inl here ↦ absurd (a.1.0 (ground arith))
    | inr there ↦ next-last s (next i) i t (k ∷ is) a.1 f.1 b.1 (ground arith) e
  ]

  pub last-next :
      (s c p t : ℕ) (is : List ℕ)
      → Distinct is
      → Forwards z next c is
      → Backwards prev p t is
      → 0 < occurs s is
      → t ≡ s
      → next s ≡ z
  unfolding occurs
  last-next s c p t [] d f b m e = elim m [ ]
  last-next s c p t (i ∷ []) d f b m e = ground arith
  last-next s c p t (i ∷ k ∷ is) d f b m e = elim (Bool-cases (s == i)) [
    | inl here ↦
        let once = head_once i (k ∷ is) d in
        elim (last_in k t is b.1.1) [
          | inl same ↦ absurd (ground (arith, once, same))
          | inr later ↦ absurd (ground (arith, once, later))
        ]
    | inr there ↦
        last-next s (next i) i t (k ∷ is) (tail-Distinct i (k ∷ is) d) f.1 b.1 (ground arith) e
  ]

  pub next-apart :
      (s c : ℕ) (is : List ℕ)
      → Distinct is
      → Forwards z next c is
      → 0 < occurs s is
      → s ≢ z
      → next s ≢ s
  unfolding occurs
  next-apart s c [] d f m real e = elim m [ ]
  next-apart s c (i ∷ []) d f m real e = ground arith
  next-apart s c (i ∷ k ∷ is) d f m real e = elim (Bool-cases (s == i)) [
    | inl here ↦ absurd (ground (arith, head_once i (k ∷ is) d))
    | inr there ↦
        next-apart s (next i) (k ∷ is) (tail-Distinct i (k ∷ is) d) f.1 (ground arith) real e
  ]
