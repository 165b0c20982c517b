-- ===== src/Risk/Engine/Working.antt =====
-- risk_engine.hpp: what a call does to the working quantity and count of each instrument and side.
use opti_trade_engine.Prelude.{
  ℕ, ◌<◌, ◌≡◌, refl, ◌∙◌, Bool, ◌||◌, ◌==◌, arith, get_or-replicate, Bool-cases, inl, inr,
}
use opti_trade_engine.Prelude.Int.{pos, leb_ℤ}
use opti_trade_engine.Core.Types.{Price, Locate, Nanos, Side, buy, sell}
use opti_trade_engine.Risk.Types.{Limits, Slot, Position, empty_slot, open_of, count_of}
use opti_trade_engine.Risk.Engine.{
  Engine, new, slot_at, off_table, refresh, settle, admit, on_fill, mark, set_kill_switch,
}
use opti_trade_engine.Risk.Engine.Ledger.{IsSound}
use opti_trade_engine.Risk.Engine.Soundness.{admit-IsSound}
use opti_trade_engine.Risk.Engine.Handlers.{on_fill-IsSound, mark-IsSound}
use opti_trade_engine.Risk.Engine.Cells.{
  table_size, open_of-refresh, count_of-refresh, size-refresh, eq_of,
}

-- A call that leaves every working quantity and count alone.
pub record Keeps (r r' : Engine) : Type 0 where
  pub size : table_size r' ≡ table_size r
  pub sound : IsSound r'
  pub open_kept : (k : Locate) (t : Side) → open_of t (slot_at r' k) ≡ open_of t (slot_at r k)
  pub count_kept : (k : Locate) (t : Side) → count_of t (slot_at r' k) ≡ count_of t (slot_at r k)

pub same-Keeps : (r : Engine) → IsSound r → Keeps r r
same-Keeps r v = record {
  size = refl;
  sound = v;
  open_kept = λ k t. refl;
  count_kept = λ k t. refl;
}

pub admit-Keeps : (r : Engine) (now : Nanos) → IsSound r → Keeps r (admit r now)
unfolding admit
admit-Keeps r now v = record {
  size = refl;
  sound = admit-IsSound r now v;
  open_kept = λ k t. refl;
  count_kept = λ k t. refl;
}

-- A slot that keeps its working quantities and counts.
module _ (r : Engine) (l : Locate) (x : Slot) (h : l < table_size r) where
  open_of-kept :
      ((t : Side) → open_of t x ≡ open_of t (slot_at r l))
      → (k : Locate) (t : Side) → open_of t (slot_at (refresh r l x) k) ≡ open_of t (slot_at r k)
  open_of-kept same k t = open_of-refresh r l k t x h ∙ (elim (Bool-cases (l == k)) [
    | inl is ↦ rw (is, ← eq_of l k is) (same t)
    | inr other ↦ rw other refl
  ])

  count_of-kept :
      ((t : Side) → count_of t x ≡ count_of t (slot_at r l))
      → (k : Locate) (t : Side) → count_of t (slot_at (refresh r l x) k) ≡ count_of t (slot_at r k)
  count_of-kept same k t = count_of-refresh r l k t x h ∙ (elim (Bool-cases (l == k)) [
    | inl is ↦ rw (is, ← eq_of l k is) (same t)
    | inr other ↦ rw other refl
  ])

open_of-held :
    (t : Side) (p : Position) (x : Slot) → open_of t (record x { held = p }) ≡ open_of t x
open_of-held buy p x = refl
open_of-held sell p x = refl

count_of-held :
    (t : Side) (p : Position) (x : Slot) → count_of t (record x { held = p }) ≡ count_of t x
count_of-held buy p x = refl
count_of-held sell p x = refl

pub on_fill-Keeps :
    (r : Engine) (l : Locate) (s : Side) (qty : ℕ) (price : Price)
    → IsSound r
    → Keeps r (on_fill r l s qty price)
unfolding on_fill settle
on_fill-Keeps r l s qty price v =
    elim (Bool-cases (off_table r l || qty == 0 || leb_ℤ price (pos 0))) [
      | inl skip ↦ rw skip (same-Keeps r v)
      | inr go ↦
          let h : l < table_size r = ground arith in
          let w = on_fill-IsSound r l s qty price v in
          record {
            size = rw go (size-refresh _ l _);
            sound = w;
            open_kept = rw go (open_of-kept _ l _ h (λ t. open_of-held t _ (slot_at r l)));
            count_kept = rw go (count_of-kept _ l _ h (λ t. count_of-held t _ (slot_at r l)));
          }
    ]

open_of-mark : (t : Side) (p : Price) (x : Slot) → open_of t (record x { mark = p }) ≡ open_of t x
open_of-mark buy p x = refl
open_of-mark sell p x = refl

count_of-mark :
    (t : Side) (p : Price) (x : Slot) → count_of t (record x { mark = p }) ≡ count_of t x
count_of-mark buy p x = refl
count_of-mark sell p x = refl

pub mark-Keeps : (r : Engine) (l : Locate) (price : Price) → IsSound r → Keeps r (mark r l price)
unfolding mark settle
mark-Keeps r l price v = elim (Bool-cases (off_table r l || leb_ℤ price (pos 0))) [
  | inl skip ↦ rw skip (same-Keeps r v)
  | inr go ↦
      let h : l < table_size r = ground arith in
      let w = mark-IsSound r l price v in
      record {
        size = rw go (size-refresh _ l _);
        sound = w;
        open_kept = rw go (open_of-kept _ l _ h (λ t. open_of-mark t _ (slot_at r l)));
        count_kept = rw go (count_of-kept _ l _ h (λ t. count_of-mark t _ (slot_at r l)));
      }
]

pub set_kill_switch-Keeps : (r : Engine) (on : Bool) → IsSound r → Keeps r (set_kill_switch r on)
unfolding set_kill_switch
set_kill_switch-Keeps r on v = record {
  size = refl;
  sound = record {
    gross_sum = v.gross_sum;
    unrealized_sum = v.unrealized_sum;
    realized_sum = v.realized_sum;
    count_sum = v.count_sum;
    table = v.table;
    fresh = v.fresh;
  };
  open_kept = λ k t. refl;
  count_kept = λ k t. refl;
}

-- An engine that holds no orders.
abbrev pub IsIdle : Engine → Type 0
IsIdle r =
    (l : Locate) (s : Side) → (open_of s (slot_at r l) ≡ pos 0) × (count_of s (slot_at r l) ≡ 0)

pub new-IsIdle : (limits : Limits) (locates : ℕ) → IsIdle (new limits locates)
unfolding new
new-IsIdle limits locates l buy = rw (get_or-replicate _ l empty_slot) (refl, refl)
new-IsIdle limits locates l sell = rw (get_or-replicate _ l empty_slot) (refl, refl)
