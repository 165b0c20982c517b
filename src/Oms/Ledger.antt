-- ===== src/Oms/Ledger.antt =====
-- order_manager.hpp, the ledger: the risk engine holds exactly the reserved quantities of the orders.
use mathlib.Core.Path.{subst}
use opti_trade_engine.Prelude.{
  ℕ, zero, suc, ◌+◌, ◌-◌, ◌*◌, ◌/◌, ◌≤◌, ◌<◌, ◌≡◌, ◌≢◌, ◌⊎◌, sym, ◌∙◌, ap, Bool, true, ◌&&◌, not,
  List, [], ◌∷◌, ◌==◌, if◌then◌else◌, arith, length, get_or, set, All, All-set, length-set, inl,
  inr,
}
use opti_trade_engine.Prelude.Int.{pos}
use opti_trade_engine.Core.Types.{Locate, Side, max_order_qty, u32_max}
use opti_trade_engine.Risk.Types.{open_of, count_of}
use opti_trade_engine.Risk.Engine.{Engine, slot_at}
use opti_trade_engine.Risk.Engine.Ledger.{IsSound}
use opti_trade_engine.Risk.Engine.Cells.{table_size, at, Moves}
use opti_trade_engine.Risk.Engine.Working.{Keeps}
use opti_trade_engine.Oms.Types.{is_terminal}
use opti_trade_engine.Oms.State.{Entry, blank_entry}
use opti_trade_engine.Oms.Manager.{want}

-- The shares and the order that an entry counts for on an instrument and side.
abbrev pub part : Locate → Side → Entry → ℕ
part l s e = at e.info.req.locate e.info.req.side l s e.reserved

-- A slot that was never used has no id.
abbrev pub works : Entry → Bool
works e = not (e.info.id == 0) && not (is_terminal e.info.status)

abbrev pub one : Entry → ℕ
one e = if works e then 1 else 0

abbrev pub tick : Locate → Side → Entry → ℕ
tick l s e = at e.info.req.locate e.info.req.side l s (one e)

-- Sums over the table of orders.
unfoldable pub booked : Locate → Side → List Entry → ℕ
booked l s [] = 0
booked l s (e ∷ es) = part l s e + booked l s es

unfoldable pub working_on : Locate → Side → List Entry → ℕ
working_on l s [] = 0
working_on l s (e ∷ es) = tick l s e + working_on l s es

unfoldable pub working_all : List Entry → ℕ
working_all [] = 0
working_all (e ∷ es) = one e + working_all es

-- What holds of an order in the table, for a risk engine of `n` instruments.
pub record Facts (n : ℕ) (e : Entry) : Type 0 where
  pub used : e.info.id ≢ 0
  pub on_table : e.info.req.locate < n
  pub within : e.info.leaves_qty + e.info.cum_qty ≤ e.info.req.qty
  pub size : e.info.req.qty ≤ max_order_qty
  pub replacing : e.replace_qty ≤ max_order_qty
  pub reserves : e.reserved ≡ (if is_terminal e.info.status then 0 else want e)
  pub ended : is_terminal e.info.status ≡ true → (e.info.leaves_qty ≡ 0) × (e.next_token ≡ 0)
  pub priced : 0 < e.info.cum_qty → e.info.avg_price ≡ pos (e.notional / e.info.cum_qty)

abbrev pub IsEntry : ℕ → Entry → Type 0
IsEntry n e = (e ≡ blank_entry) ⊎ Facts n e

-- The ledger of the risk engine against the table of orders.
pub record Books (r : Engine) (os : List Entry) (open_count : ℕ) : Type 0 where
  pub sound : IsSound r
  pub ledger : (l : Locate) (s : Side) → open_of s (slot_at r l) ≡ pos (booked l s os)
  pub counts : (l : Locate) (s : Side) → count_of s (slot_at r l) ≡ working_on l s os
  pub total : open_count ≡ working_all os
  pub entries : All (IsEntry (table_size r)) os
  pub few : length os < u32_max

booked-set :
    (l : Locate) (s : Side) (os : List Entry) (i : ℕ) (e : Entry)
    → i < length os
    → booked l s (set os i e) + part l s (get_or os i blank_entry) ≡ booked l s os + part l s e
unfolding booked
booked-set l s [] i e h = absurd (omega arith)
booked-set l s (x ∷ os) zero e h = omega arith
booked-set l s (x ∷ os) (suc i) e h = omega (arith, booked-set l s os i e (omega arith))

working_on-set :
    (l : Locate) (s : Side) (os : List Entry) (i : ℕ) (e : Entry)
    → i < length os
    → working_on l s (set os i e) + tick l s (get_or os i blank_entry)
      ≡ working_on l s os + tick l s e
unfolding working_on
working_on-set l s [] i e h = absurd (omega arith)
working_on-set l s (x ∷ os) zero e h = omega arith
working_on-set l s (x ∷ os) (suc i) e h = omega (arith, working_on-set l s os i e (omega arith))

pub working_all-set :
    (os : List Entry) (i : ℕ) (e : Entry)
    → i < length os
    → working_all (set os i e) + one (get_or os i blank_entry) ≡ working_all os + one e
unfolding working_all
working_all-set [] i e h = absurd (omega arith)
working_all-set (x ∷ os) zero e h = omega arith
working_all-set (x ∷ os) (suc i) e h = omega (arith, working_all-set os i e (omega arith))

part-le-booked :
    (l : Locate) (s : Side) (os : List Entry) (i : ℕ)
    → i < length os
    → part l s (get_or os i blank_entry) ≤ booked l s os
unfolding booked
part-le-booked l s [] i h = absurd (omega arith)
part-le-booked l s (x ∷ os) zero h = omega arith
part-le-booked l s (x ∷ os) (suc i) h = omega (arith, part-le-booked l s os i (omega arith))

pub tick-le-working_on :
    (l : Locate) (s : Side) (os : List Entry) (i : ℕ)
    → i < length os
    → tick l s (get_or os i blank_entry) ≤ working_on l s os
unfolding working_on
tick-le-working_on l s [] i h = absurd (omega arith)
tick-le-working_on l s (x ∷ os) zero h = omega arith
tick-le-working_on l s (x ∷ os) (suc i) h = omega (arith, tick-le-working_on l s os i (omega arith))

pub one-le-working_all :
    (os : List Entry) (i : ℕ) → i < length os → one (get_or os i blank_entry) ≤ working_all os
unfolding working_all
one-le-working_all [] i h = absurd (omega arith)
one-le-working_all (x ∷ os) zero h = omega arith
one-le-working_all (x ∷ os) (suc i) h = omega (arith, one-le-working_all os i (omega arith))

at_le : (l k : Locate) (s t : Side) (x : ℕ) → at l s k t x ≤ x
at_le l k s t x = ground arith

want_le : (n : ℕ) (e : Entry) → Facts n e → want e ≤ max_order_qty
unfolding want
want_le n e f = ground (arith, f.within, f.size, f.replacing)

pub reserved_le : (n : ℕ) (e : Entry) → IsEntry n e → e.reserved ≤ max_order_qty
reserved_le n e (inl blank) = rw blank (omega arith)
reserved_le n e (inr f) = ground (arith, f.reserves, want_le n e f)

booked_le :
    (n : ℕ) (l : Locate) (s : Side) (os : List Entry)
    → All (IsEntry n) os
    → booked l s os ≤ length os * max_order_qty
unfolding booked
booked_le n l s [] a = omega arith
booked_le n l s (e ∷ os) a = omega (
  arith,
  at_le e.info.req.locate l e.info.req.side s e.reserved,
  reserved_le n e a.0,
  booked_le n l s os a.1,
)

pub working_on_le : (l : Locate) (s : Side) (os : List Entry) → working_on l s os ≤ length os
unfolding working_on
working_on_le l s [] = omega arith
working_on_le l s (e ∷ os) =
    let unit : one e ≤ 1 = ground arith in
    omega (arith, at_le e.info.req.locate l e.info.req.side s (one e), unit, working_on_le l s os)

-- An entry is stored in a slot, with the call to the risk engine that moves what the slot held to
-- what it holds then.
module _ (r r' : Engine) (os : List Entry) (n i : ℕ) (e' : Entry) (q c : ℕ) where
  abbrev old : Entry
  old = get_or os i blank_entry

  pub store-Books :
      Books r os n
      → i < length os
      → Moves r r' e'.info.req.locate e'.info.req.side q e'.reserved c (one e')
      → ((l : Locate) (s : Side)
          → (part l s old ≡ at e'.info.req.locate e'.info.req.side l s q)
            × (tick l s old ≡ at e'.info.req.locate e'.info.req.side l s c))
      → Facts (table_size r) e'
      → Books r' (set os i e') (n + one e' - one old)
  store-Books v h mv was f =
      let small = reserved_le _ e' (inr f) in
      record {
        sound = mv.sound;
        ledger = λ l s.
            mv.open_there l s (booked l s os) (v.ledger l s)
              (omega (arith, (was l s).0, part-le-booked l s os i h))
              (omega (arith, booked_le _ l s os v.entries, v.few, small))
            ∙ ap pos (omega (arith, (was l s).0, booked-set l s os i e' h));
        counts = λ l s.
            mv.count_there l s (working_on l s os) (v.counts l s)
              (omega (arith, (was l s).1, tick-le-working_on l s os i h))
              (omega (arith, working_on_le l s os, v.few))
            ∙ omega (arith, (was l s).1, working_on-set l s os i e' h);
        total = omega (arith, v.total, working_all-set os i e' h);
        entries =
            subst (λ (k : ℕ). All (IsEntry k) (set os i e')) (sym mv.size)
              (All-set (IsEntry (table_size r)) i e' os (inr f) v.entries);
        few = rw (length-set os i e') v.few;
      }

-- A call to the risk engine that moves no working quantity.
pub keep-Books :
    (r r' : Engine) (os : List Entry) (n : ℕ) → Books r os n → Keeps r r' → Books r' os n
keep-Books r r' os n v k = record {
  sound = k.sound;
  ledger = λ l s. k.open_kept l s ∙ v.ledger l s;
  counts = λ l s. k.count_kept l s ∙ v.counts l s;
  total = v.total;
  entries = subst (λ (j : ℕ). All (IsEntry j) os) (sym k.size) v.entries;
  few = v.few;
}
