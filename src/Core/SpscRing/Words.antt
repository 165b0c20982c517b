-- ===== src/Core/SpscRing/Words.antt =====
-- spsc_ring.hpp: the free-running counters as words, and the cells that they name.
use Prim.Native.Nat.{◌∣◌}
use native.Mathlib.Nat.{mod-mod_of_dvd, mod-add-mod, mod-lt, mod-eq_of_lt, mod-eq-sub-mod}
use opti_trade_engine.Prelude.{
  ℕ, ◌+◌, ◌-◌, ◌%◌, ◌≤◌, ◌<◌, ◌≡◌, ◌≢◌, sym, ◌∙◌, ap, ltb, ◌==◌, min, arith, Bool-cases, inl, inr,
}
use opti_trade_engine.Core.SpscRing.{words, sub_word, load}

-- The distance of two counters is read from their words.
pub sub_word-exact : (h t : ℕ) → h ≤ t → t < h + words → sub_word (t % words) (h % words) ≡ t - h
sub_word-exact h t below near = omega arith

pub load-exact :
    (i seen lag : ℕ)
    → seen ≤ i
    → i < seen + words
    → load (i % words) (seen % words) lag ≡ (seen + min lag (i - seen)) % words
load-exact i seen lag below near = let e = sub_word-exact seen i below near in omega (arith, e)

pub same_word : (h t : ℕ) → h ≤ t → t < h + words → ((h % words) == (t % words)) ≡ (h == t)
same_word h t below near = ground arith

pub cell_of_word : (cap t : ℕ) → cap ∣ words → t % words % cap ≡ t % cap
cell_of_word cap t d = mod-mod_of_dvd cap t d

-- Counters less than a capacity apart name different cells.
pub cells_apart : (cap h t : ℕ) → h < t → t < h + cap → (h % cap) ≢ (t % cap)
cells_apart cap h t below near same =
    let d = t - h in
    let x = h % cap in
    let small : x < cap = mod-lt h (omega arith) in
    let there : (x + d) % cap ≡ x =
      mod-add-mod h cap d ∙ ap (λ (k : ℕ). k % cap) (omega arith) ∙ sym same in
    elim (Bool-cases (ltb (x + d) cap)) [
      | inl low ↦
          let e : (x + d) % cap ≡ x + d = mod-eq_of_lt (ground (arith, low)) in
          absurd (omega (arith, e, there, below))
      | inr high ↦
          let e : (x + d) % cap ≡ x + d - cap =
            mod-eq-sub-mod (ground (arith, high)) ∙ mod-eq_of_lt (omega (arith, small, near)) in
          absurd (ground (arith, e, there, near, high))
    ]
