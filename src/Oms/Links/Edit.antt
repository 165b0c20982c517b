-- ===== src/Oms/Links/Edit.antt =====
-- order_manager.hpp, the list of working orders: a slot is taken out of the list, or put at its end.
use opti_trade_engine.Prelude.{
  ℕ, ◌<◌, ◌≡◌, ◌≢◌, refl, ◌∙◌, ap, List, [], ◌∷◌, ◌++◌, ◌==◌, if◌then◌else◌, arith, Bool-cases, inl,
  inr, All,
}
use opti_trade_engine.Oms.Slots.Ring.{occurs}
use opti_trade_engine.Oms.Links.Chain.{Forwards, Backwards, without}

pub occurs-without :
    (i s : ℕ) (is : List ℕ) → occurs i (without s is) ≡ (if i == s then 0 else occurs i is)
unfolding occurs without
occurs-without i s [] = ground arith
occurs-without i s (j ∷ is) = elim (Bool-cases (j == s)) [
  | inl here ↦ rw here (ground (arith, here, occurs-without i s is))
  | inr there ↦ rw there (ground (arith, there, occurs-without i s is))
]

pub All-without {ℓ} : (P : ℕ → Type ℓ) (s : ℕ) (is : List ℕ) → All P is → All P (without s is)
unfolding without
All-without P s [] a = tt
All-without P s (j ∷ is) a = elim (Bool-cases (j == s)) [
  | inl here ↦ rw here (All-without P s is a.1)
  | inr there ↦ rw there (a.0, All-without P s is a.1)
]

-- A slot that stands for `s` once it is gone.
abbrev pub past : ℕ → ℕ → ℕ → ℕ
past s to x = if x == s then to else x

pub Forwards-without :
    (z : ℕ) (next next' : ℕ → ℕ) (s c : ℕ) (is : List ℕ)
    → s ≢ z
    → next s ≢ s
    → ((i : ℕ) → 0 < occurs i is → i ≢ s → next' i ≡ past s (next s) (next i))
    → Forwards z next c is
    → Forwards z next' (past s (next s) c) (without s is)
unfolding without occurs
Forwards-without z next next' s c [] real free same f = ground arith
Forwards-without z next next' s c (i ∷ is) real free same f =
    let rest =
      Forwards-without z next next' s (next i) is real free
        (λ j m other. same j (omega (arith, m)) other) f.1 in
    elim (Bool-cases (i == s)) [
      | inl here ↦
          let is_s : i ≡ s = ground arith in
          let gone : past s (next s) c ≡ next s = ground arith in
          let kept : past s (next s) (next i) ≡ next s = ground (arith, ap next is_s) in
          rw here (rw gone (rw kept at rest))
      | inr there ↦ rw there (ground arith, rw (same i (ground arith) (ground arith)) rest)
    ]

pub Backwards-without :
    (prev prev' : ℕ → ℕ) (s p t : ℕ) (is : List ℕ)
    → prev s ≢ s
    → ((i : ℕ) → 0 < occurs i is → i ≢ s → prev' i ≡ past s (prev s) (prev i))
    → Backwards prev p t is
    → Backwards prev' (past s (prev s) p) (past s (prev s) t) (without s is)
unfolding without occurs
Backwards-without prev prev' s p t [] free same b = ground arith
Backwards-without prev prev' s p t (i ∷ is) free same b =
    let rest =
      Backwards-without prev prev' s i t is free (λ j m other. same j (omega (arith, m)) other)
        b.1 in
    elim (Bool-cases (i == s)) [
      | inl here ↦
          let is_s : i ≡ s = ground arith in
          let kept : past s (prev s) i ≡ past s (prev s) p = ground (arith, ap prev is_s, b.0) in
          rw here (rw kept at rest)
      | inr there ↦
          let kept : past s (prev s) i ≡ i = ground arith in
          rw there
            (same i (ground arith) (ground arith) ∙ ap (past s (prev s)) b.0, rw kept at rest)
    ]

-- A slot at the end.
pub Forwards-push :
    (z : ℕ) (next next' : ℕ → ℕ) (s c : ℕ) (is : List ℕ)
    → ((i : ℕ) → 0 < occurs i is → next' i ≡ past z s (next i))
    → next' s ≡ z
    → All (λ i. i ≢ z) is
    → Forwards z next c is
    → Forwards z next' (past z s c) (is ++ s ∷ [])
unfolding occurs
Forwards-push z next next' s c [] same last real f = (ground arith, last)
Forwards-push z next next' s c (i ∷ is) same last real f =
    let rest =
      Forwards-push z next next' s (next i) is (λ j m. same j (omega (arith, m))) last real.1 f.1 in
    (ground arith, rw (same i (ground arith)) rest)

pub Backwards-push :
    (prev prev' : ℕ → ℕ) (s p t : ℕ) (is : List ℕ)
    → ((i : ℕ) → 0 < occurs i is → prev' i ≡ prev i)
    → prev' s ≡ t
    → Backwards prev p t is
    → Backwards prev' p s (is ++ s ∷ [])
unfolding occurs
Backwards-push prev prev' s p t [] same last b = (last ∙ b, refl)
Backwards-push prev prev' s p t (i ∷ is) same last b = (
  same i (ground arith) ∙ b.0,
  Backwards-push prev prev' s i t is (λ j m. same j (omega (arith, m))) last b.1,
)
