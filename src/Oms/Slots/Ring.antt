-- ===== src/Oms/Slots/Ring.antt =====
-- order_manager.hpp, the ring of finished slots: `finished_[(head + count) % size]` is a queue.
use native.Mathlib.Nat.{mod-eq_of_lt, mod-eq-sub-mod}
use opti_trade_engine.Prelude.{
  ℕ, zero, suc, ◌+◌, ◌-◌, ◌%◌, ◌≤◌, ◌<◌, ◌≡◌, ◌≢◌, sym, ◌∙◌, ap, List, [], ◌∷◌, ◌++◌, ◌==◌,
  if◌then◌else◌, arith, length, get_or, set, All, ltb, Bool-cases, inl, inr, get_or-set_self,
  get_or-set_ne,
}

-- The cells of a ring of `size` from `h` on, `n` of them.
unfoldable pub window : ℕ → List ℕ → ℕ → ℕ → List ℕ
window size ring h zero = []
window size ring h (suc n) = get_or ring h 0 ∷ window size ring ((h + 1) % size) n

-- How often a number occurs.
unfoldable pub occurs : ℕ → List ℕ → ℕ
occurs i [] = 0
occurs i (x ∷ xs) = (if i == x then 1 else 0) + occurs i xs

-- A turn of the ring, past its end or not.
turn_low : (k size : ℕ) → k < size → k % size ≡ k
turn_low k size h = mod-eq_of_lt h

turn_high : (k size : ℕ) → size ≤ k → k - size < size → k % size ≡ k - size
turn_high k size a b = mod-eq-sub-mod a ∙ mod-eq_of_lt b

turn :
    (h n size : ℕ)
    → h < size
    → n < size
    → (h + n) % size ≡ (if ltb (h + n) size then h + n else h + n - size)
turn h n size a b = elim (Bool-cases (ltb (h + n) size)) [
  | inl low ↦ rw low (turn_low (h + n) size (ground arith))
  | inr high ↦ rw high (turn_high (h + n) size (ground arith) (omega arith))
]

pub turn-lt : (h n size : ℕ) → h < size → n < size → (h + n) % size < size
turn-lt h n size a b = ground (arith, turn h n size a b)

turn_next :
    (h n size : ℕ) → h < size → suc n < size → ((h + 1) % size + n) % size ≡ (h + suc n) % size
turn_next h n size a b = ground (
  arith,
  turn h 1 size a (omega arith),
  turn ((h + 1) % size) n size (turn-lt h 1 size a (omega arith)) (omega arith),
  turn h (suc n) size a b,
)

turn_off : (h n size : ℕ) → h < size → suc n < size → (h + suc n) % size ≢ h
turn_off h n size a b = ground (arith, turn h (suc n) size a b)

-- Writing behind the window extends it.
pub window-push :
    (ring : List ℕ) (size h n x : ℕ)
    → length ring ≡ size
    → h < size
    → n < size
    → window size (set ring ((h + n) % size) x) h (suc n) ≡ window size ring h n ++ x ∷ []
unfolding window
window-push ring size h zero x e a b =
    let none_on : h + 0 ≡ h = omega arith in
    let at : (h + 0) % size ≡ h = ap (λ (k : ℕ). k % size) none_on ∙ turn_low h size a in
    rw at (ap (λ (y : ℕ). y ∷ []) (get_or-set_self ring h x 0 (omega arith)))
window-push ring size h (suc n) x e a b =
    let ih =
      window-push ring size ((h + 1) % size) n x e (turn-lt h 1 size a (omega arith))
        (omega arith) in
    let rest : ℕ → List ℕ = λ p. window size (set ring p x) ((h + 1) % size) (suc n) in
    let tail = ap rest (sym (turn_next h n size a b)) ∙ ih in
    rw (get_or-set_ne ring ((h + suc n) % size) h x 0 (turn_off h n size a b))
      (ap (λ (l : List ℕ). get_or ring h 0 ∷ l) tail)

pub occurs-push :
    (i x : ℕ) (xs : List ℕ) → occurs i (xs ++ x ∷ []) ≡ occurs i xs + (if i == x then 1 else 0)
unfolding occurs
occurs-push i x [] = omega arith
occurs-push i x (y ∷ xs) = omega (arith, occurs-push i x xs)

pub All-push {ℓ} : (P : ℕ → Type ℓ) (x : ℕ) (xs : List ℕ) → All P xs → P x → All P (xs ++ x ∷ [])
All-push P x [] a p = (p, tt)
All-push P x (y ∷ xs) a p = (a.0, All-push P x xs a.1 p)
