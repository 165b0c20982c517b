-- ===== src/Risk/Engine/Cells.antt =====
-- risk_engine.hpp: the working quantities and counts of one slot of the table.
use opti_trade_engine.Prelude.{
  ℕ, ◌+◌, ◌-◌, ◌≤◌, ◌<◌, ◌≡◌, refl, ◌∙◌, ap, Bool, true, false, ◌&&◌, ◌==◌, if◌then◌else◌, arith,
  length, length-set, get_or-set,
}
use opti_trade_engine.Prelude.Int.{ℤ, pos, ◌+ℤ◌, ◌-ℤ◌, min_ℤ}
use opti_trade_engine.Core.Types.{Locate, Side, buy, sell, side_eq, u32_max}
use opti_trade_engine.Risk.Types.{
  Slot, empty_slot, open_of, count_of, set_open, set_count, clamp64, i64_max,
}
use opti_trade_engine.Risk.Engine.{Engine, slot_at, refresh}
use opti_trade_engine.Risk.Engine.Ledger.{IsSound}

abbrev pub table_size : Engine → ℕ
table_size r = length r.slots

-- `x` on the given instrument and side, and nothing elsewhere.
abbrev pub at : Locate → Side → Locate → Side → ℕ → ℕ
at l s k t x = if (l == k) && side_eq s t then x else 0

-- A call on one instrument and side takes the working quantity from `q` more to `q'` more and the
-- count from `c` more to `c'` more, and nothing else.
pub record Moves (r r' : Engine) (l : Locate) (s : Side) (q q' c c' : ℕ) : Type 0 where
  pub size : table_size r' ≡ table_size r
  pub sound : IsSound r'
  pub open_there :
      (k : Locate) (t : Side) (a : ℕ)
      → open_of t (slot_at r k) ≡ pos a
      → at l s k t q ≤ a
      → a + q' ≤ i64_max
      → open_of t (slot_at r' k) ≡ pos (a + at l s k t q' - at l s k t q)
  pub count_there :
      (k : Locate) (t : Side) (n : ℕ)
      → count_of t (slot_at r k) ≡ n
      → at l s k t c ≤ n
      → n < u32_max
      → count_of t (slot_at r' k) ≡ n + at l s k t c' - at l s k t c

pub open_of-set_open :
    (s t : Side) (v : ℤ) (x : Slot)
    → open_of t (set_open s v x) ≡ (if side_eq s t then v else open_of t x)
open_of-set_open buy buy v x = refl
open_of-set_open buy sell v x = refl
open_of-set_open sell buy v x = refl
open_of-set_open sell sell v x = refl

pub count_of-set_open : (s t : Side) (v : ℤ) (x : Slot) → count_of t (set_open s v x) ≡ count_of t x
count_of-set_open buy buy v x = refl
count_of-set_open buy sell v x = refl
count_of-set_open sell buy v x = refl
count_of-set_open sell sell v x = refl

pub open_of-set_count : (s t : Side) (n : ℕ) (x : Slot) → open_of t (set_count s n x) ≡ open_of t x
open_of-set_count buy buy n x = refl
open_of-set_count buy sell n x = refl
open_of-set_count sell buy n x = refl
open_of-set_count sell sell n x = refl

pub count_of-set_count :
    (s t : Side) (n : ℕ) (x : Slot)
    → count_of t (set_count s n x) ≡ (if side_eq s t then n else count_of t x)
count_of-set_count buy buy n x = refl
count_of-set_count buy sell n x = refl
count_of-set_count sell buy n x = refl
count_of-set_count sell sell n x = refl

abbrev pub cell : Slot → ℤ → ℤ → Slot
cell x u e = record x { unrealized = u; exposure = e }

open_of-cell :
    (t : Side) (b : Bool) (x y : Slot) (u e : ℤ)
    → open_of t (if b then cell x u e else y) ≡ (if b then open_of t x else open_of t y)
open_of-cell buy true x y u e = refl
open_of-cell buy false x y u e = refl
open_of-cell sell true x y u e = refl
open_of-cell sell false x y u e = refl

count_of-cell :
    (t : Side) (b : Bool) (x y : Slot) (u e : ℤ)
    → count_of t (if b then cell x u e else y) ≡ (if b then count_of t x else count_of t y)
count_of-cell buy true x y u e = refl
count_of-cell buy false x y u e = refl
count_of-cell sell true x y u e = refl
count_of-cell sell false x y u e = refl

-- A slot that is refreshed, and the others.
module _ (r : Engine) (l k : Locate) (t : Side) (x : Slot) (h : l < table_size r) where
  pub open_of-refresh :
      open_of t (slot_at (refresh r l x) k)
      ≡ (if l == k then open_of t x else open_of t (slot_at r k))
  unfolding refresh
  open_of-refresh =
      ap (open_of t) (get_or-set r.slots l k _ empty_slot h)
      ∙ open_of-cell t (l == k) x (slot_at r k) _ _

  pub count_of-refresh :
      count_of t (slot_at (refresh r l x) k)
      ≡ (if l == k then count_of t x else count_of t (slot_at r k))
  unfolding refresh
  count_of-refresh =
      ap (count_of t) (get_or-set r.slots l k _ empty_slot h)
      ∙ count_of-cell t (l == k) x (slot_at r k) _ _

pub size-refresh : (r : Engine) (l : Locate) (x : Slot) → table_size (refresh r l x) ≡ table_size r
unfolding refresh
size-refresh r l x = length-set r.slots l _

pub same_side : (s t : Side) → side_eq s t ≡ true → s ≡ t
same_side buy buy h = refl
same_side sell sell h = refl
same_side buy sell h = cc
same_side sell buy h = cc

pub clamp-pos : (a b : ℕ) → a + b ≤ i64_max → clamp64 (pos a +ℤ pos b) ≡ pos (a + b)
unfolding clamp64 ◌+ℤ◌
clamp-pos a b h = ground arith

pub less-pos : (q a : ℕ) → pos a -ℤ min_ℤ (pos q) (pos a) ≡ pos (a - q)
unfolding min_ℤ ◌-ℤ◌
less-pos q a = ground arith

pub eq_of : (a b : ℕ) → (a == b) ≡ true → a ≡ b
eq_of a b h = ground arith
