-- ===== src/Oms/Invariant/Opening.antt =====
-- order_manager.hpp: a new order takes an idle slot.
use mathlib.Core.Path.{subst}
use opti_trade_engine.Prelude.{
  ℕ, suc, ◌+◌, ◌-◌, ◌≤◌, ◌<◌, ◌≡◌, ◌⊎◌, refl, sym, ◌∙◌, Bool, true, false, List, ◌∷◌, ◌==◌,
  if◌then◌else◌, ltb, arith, length, get_or, set, All, All-imp, All-get_or, inl, inr,
}
use opti_trade_engine.Core.Types.{Locate, Side, Nanos, max_order_qty, u32_max}
use opti_trade_engine.Ouch.Messages.{Inbound}
use opti_trade_engine.Risk.Engine.{slot_at, admit, on_order_open}
use opti_trade_engine.Risk.Types.{count_of}
use opti_trade_engine.Risk.Engine.Cells.{table_size, at, Moves}
use opti_trade_engine.Risk.Engine.Counts.{open-Moves}
use opti_trade_engine.Risk.Engine.Working.{admit-Keeps}
use opti_trade_engine.Oms.Types.{OrderRequest, is_terminal}
use opti_trade_engine.Oms.State.{Entry, Manager, blank_entry}
use opti_trade_engine.Oms.Manager.{entry_at, want, take_slot, link}
use opti_trade_engine.Oms.Manager.Calls.{entry_for, book_order}
use opti_trade_engine.Oms.Invariant.Notices.{notify-IsValid}
use opti_trade_engine.Oms.Ledger.{
  one, Facts, IsEntry, Books, store-Books, keep-Books, working_on_le,
}
use opti_trade_engine.Oms.Slots.{
  Slots, done, no_id, Below, All-erase, All-insert, take_fresh-Slots, oldest-done, oldest-lt-fresh,
  take_oldest-Slots,
}
use opti_trade_engine.Oms.Links.Append.{link-Linked}
use opti_trade_engine.Oms.Invariant.{IsValid}

-- A slot that no order works in holds nothing.
idle_entry :
    (n : ℕ) (e : Entry)
    → IsEntry n e
    → (no_id e ≡ true) ⊎ (done e ≡ true)
    → (e.reserved ≡ 0) × (one e ≡ 0)
idle_entry n e (inl blank) h = rw blank (refl, refl)
idle_entry n e (inr f) (inl free) = absurd (f.used (ground arith))
idle_entry n e (inr f) (inr ended) =
    let over : is_terminal e.info.status ≡ true = ground arith in
    (rw over at f.reserves, rw over (ground arith))

idle_one :
    (m : Manager) (slot : ℕ)
    → IsValid m
    → slot < length m.orders
    → (no_id (entry_at m slot) ≡ true) ⊎ (done (entry_at m slot) ≡ true)
    → one (entry_at m slot) ≡ 0
idle_one m slot v h idle =
    (idle_entry _ _ (All-get_or (IsEntry _) m.orders blank_entry slot v.books.entries h) idle).1

pub nothing_at : (l k : Locate) (s t : Side) (x : ℕ) → x ≡ 0 → at l s k t x ≡ 0
nothing_at l k s t x e = ground arith

-- A new order in an idle slot: the engine has admitted it and holds its shares.
open-Books :
    (m : Manager) (slot : ℕ) (req : OrderRequest) (now : Nanos)
    → IsValid m
    → slot < length m.orders
    → (no_id (entry_at m slot) ≡ true) ⊎ (done (entry_at m slot) ≡ true)
    → 0 < req.qty
    → req.qty ≤ max_order_qty
    → req.locate < table_size m.risk
    → Books
        (on_order_open (admit m.risk now) req.locate req.side req.qty)
        (set m.orders slot (entry_for m req now))
        (m.open_count + 1)
unfolding want
open-Books m slot req now v h idle some_qty small on_table =
    let o = entry_at m slot in
    let e = entry_for m req now in
    let k = admit-Keeps m.risk now v.books.sound in
    let admitted = admit m.risk now in
    let b = keep-Books m.risk admitted m.orders m.open_count v.books k in
    let inside : req.locate < table_size admitted = rw k.size on_table in
    let nothing =
      idle_entry _ o (All-get_or (IsEntry _) m.orders blank_entry slot v.books.entries h) idle in
    let counted : one e ≡ 1 = ground (arith, v.start) in
    let few : count_of req.side (slot_at admitted req.locate) < u32_max =
      omega
        (arith, b.counts req.locate req.side, working_on_le req.locate req.side m.orders, b.few) in
    let f : Facts (table_size admitted) e = record {
      used = λ z. absurd (omega (arith, v.start, z));
      on_table = inside;
      within = omega arith;
      size = small;
      replacing = omega arith;
      reserves = refl;
      ended = λ z. cc z;
      priced = λ z. absurd (omega (arith, z));
    } in
    let total : m.open_count + one e - one o ≡ m.open_count + 1 =
      omega (arith, counted, nothing.1) in
    let engine = on_order_open admitted req.locate req.side req.qty in
    let moves : Moves admitted engine req.locate req.side 0 req.qty 0 (one e) =
      rw counted (open-Moves admitted req.locate req.side b.sound inside req.qty some_qty few) in
    subst (λ (n : ℕ). Books engine (set m.orders slot e) n) total
      (store-Books admitted engine m.orders m.open_count slot e 0 0 b h moves
        (λ l s. (
          nothing_at _ _ _ _ o.reserved nothing.0 ∙ sym (nothing_at _ _ _ _ 0 refl),
          nothing_at _ _ _ _ (one o) nothing.1 ∙ sym (nothing_at _ _ _ _ 0 refl),
        ))
        f)

-- The state just before the gateway takes the order: its token is held for the slot.
abbrev pub held : ℕ → Manager → Manager
held slot m = record m { tokens = (m.next_token, slot) ∷ m.tokens }

names_mono : (n : ℕ) (ps : List (ℕ × ℕ)) → All (Below n) ps → All (Below (n + 1)) ps
names_mono n ps a = All-imp (Below n) (Below (n + 1)) (λ p h. omega (arith, h)) ps a

module _ (m : Manager) (req : OrderRequest) (now : Nanos) (message : Inbound) (v : IsValid m)
    (some_qty : 0 < req.qty) (small : req.qty ≤ max_order_qty)
    (on_table : req.locate < table_size m.risk) where
  real : (no_id (entry_for m req now)) ≡ false
  real = ground (arith, v.start)

  -- A slot that was never used.
  pub book_fresh-IsValid :
      ltb m.fresh (length m.orders) ≡ true
      → IsValid (book_order m.fresh req now message (held m.fresh m)).0
  unfolding book_order take_slot link
  book_fresh-IsValid unused =
      let room : m.fresh < length m.orders = ground arith in
      notify-IsValid m.fresh _ record {
        books =
            open-Books m m.fresh req now v room (inl (v.slots.unused m.fresh (omega arith)))
              some_qty small on_table;
        slots = rw unused (
            take_fresh-Slots m.orders m.finished m.finished_head m.finished_count m.fresh
              m.open_count m.by_id m.tokens v.slots (entry_for m req now) _ _ room real
              (ground arith)
              (All-insert (Below (m.fresh + 1)) (length m.orders) m.next_id m.fresh m.by_id
                (names_mono m.fresh m.by_id v.slots.ids) (omega arith))
              (omega arith, names_mono m.fresh m.tokens v.slots.names));
        list =
            link-Linked m m.orders m.fresh m.next_id (entry_for m req now) v.list (omega arith)
              (idle_one m m.fresh v (omega arith) (inl (v.slots.unused m.fresh (omega arith))))
              (ground (arith, v.start)) refl;
        start = omega arith;
      }

  -- The slot of the oldest finished order.
  pub book_oldest-IsValid :
      ltb m.fresh (length m.orders) ≡ false
      → (m.finished_count == 0) ≡ false
      → let slot = get_or m.finished m.finished_head 0 in
        IsValid (book_order slot req now message (held slot m)).0
  unfolding book_order take_slot link
  book_oldest-IsValid full some_done =
      let slot = get_or m.finished m.finished_head 0 in
      let c = m.finished_count - 1 in
      let more : m.finished_count ≡ suc c = ground arith in
      let w : Slots m.orders m.finished m.finished_head (suc c) m.fresh m.open_count m.by_id
          m.tokens =
        subst
          (λ (n : ℕ).
            Slots m.orders m.finished m.finished_head n m.fresh m.open_count m.by_id m.tokens)
          more v.slots in
      let is_done = oldest-done _ _ _ _ _ _ _ _ w in
      let below = oldest-lt-fresh _ _ _ _ _ _ _ _ w in
      notify-IsValid slot _ record {
        books = open-Books m slot req now v is_done.0 (inr is_done.1) some_qty small on_table;
        slots = rw full (
            take_oldest-Slots _ _ _ _ _ _ _ _ w (entry_for m req now) _ _ real (ground arith)
              (All-insert (Below m.fresh) (length m.orders) m.next_id slot _
                (All-erase (Below m.fresh) (entry_at m slot).info.id m.by_id v.slots.ids) below)
              (All-erase (Below m.fresh) (entry_at m slot).token ((m.next_token, slot) ∷ m.tokens)
                (below, v.slots.names)));
        list =
            link-Linked m m.orders slot m.next_id (entry_for m req now) v.list (omega arith)
              (idle_one m slot v is_done.0 (inr is_done.1)) (ground (arith, v.start)) refl;
        start = omega arith;
      }

pub IsValid-if_pair {ℓ} :
    {B : Type ℓ} (b : Bool) (x y : Manager × B)
    → (b ≡ true → IsValid x.0)
    → (b ≡ false → IsValid y.0)
    → IsValid (if b then x else y).0
IsValid-if_pair true x y there else_there = there refl
IsValid-if_pair false x y there else_there = else_there refl
