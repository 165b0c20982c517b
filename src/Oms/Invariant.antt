-- ===== src/Oms/Invariant.antt =====
-- order_manager.hpp: the invariant of the order manager, and the three ways an entry is stored.
pub mod Opening
pub mod Entries
pub mod Notices
pub mod Reports
pub mod Calls
pub mod Changes
use mathlib.Core.Path.{subst}
use opti_trade_engine.Prelude.{
  ℕ, zero, suc, ◌+◌, ◌-◌, ◌≤◌, ◌<◌, ◌≡◌, ◌≢◌, refl, sym, ◌∙◌, ap, Bool, true, false, ◌&&◌, not,
  List, [], ◌∷◌, ◌==◌, if◌then◌else◌, ltb, arith, length, get_or, set, All, All-get_or, Bool-cases,
  inl, inr,
}
use opti_trade_engine.Core.Types.{Locate, Side, buy, sell, Price}
use opti_trade_engine.Core.Table.{erase}
use opti_trade_engine.Risk.Engine.{Engine, on_order_end, on_fill, on_order_grow, on_order_reduce}
use opti_trade_engine.Risk.Engine.Ledger.{IsSound}
use opti_trade_engine.Risk.Engine.Cells.{table_size, at, Moves}
use opti_trade_engine.Risk.Engine.Counts.{same-Moves, grow-Moves, reduce-Moves, end-Moves}
use opti_trade_engine.Risk.Engine.Working.{Keeps, on_fill-Keeps}
use opti_trade_engine.Risk.Types.{count_of}
use opti_trade_engine.Risk.Engine.{slot_at}
use opti_trade_engine.Ouch.Messages.{Inbound}
use opti_trade_engine.Oms.Types.{OrderStatus, is_terminal, Notice}
use opti_trade_engine.Oms.State.{Entry, Manager, Link, Stats, blank_entry}
use opti_trade_engine.Oms.Manager.{
  entry_at, put, want, rebook, sync_ledger, drop_replacement, closed, end_of_life, unlink,
}
use opti_trade_engine.Oms.Ledger.{
  part, one, tick, works, Facts, IsEntry, Books, store-Books, keep-Books, one-le-working_all,
  working_on, tick-le-working_on,
}
use opti_trade_engine.Oms.Links.{Linked}
use opti_trade_engine.Oms.Links.Keep.{put-Linked, unlink-Linked}
use opti_trade_engine.Oms.Slots.{Slots, done, put-Slots, end-Slots, All-erase, Below}

pub record IsValid (m : Manager) : Type 0 where
  pub books : Books m.risk m.orders m.open_count
  pub slots :
      Slots m.orders m.finished m.finished_head m.finished_count m.fresh m.open_count m.by_id
        m.tokens
  pub list : Linked m.orders m.links m.head m.tail m.next_id
  pub start : 0 < m.next_id

-- What the invariant does not speak of may change.
pub aside-IsValid :
    (m : Manager) (next_token : ℕ) (stats : Stats) (sent : List Inbound) (heard : List Notice)
    → IsValid m
    → IsValid (record m { next_token = next_token; stats = stats; sent = sent; heard = heard })
aside-IsValid m next_token stats sent heard v = record {
  books = v.books;
  slots = v.slots;
  list = v.list;
  start = v.start;
}

pub inside : (m : Manager) (slot : ℕ) → IsValid m → slot < m.fresh → slot < length m.orders
inside m slot v h = omega (arith, v.slots.few)

not_blank : (n : ℕ) (e : Entry) → IsEntry n e → (e.info.id == 0) ≡ false → Facts n e
not_blank n e (inl blank) h = cc (rw blank at h)
not_blank n e (inr f) h = f

pub entry-Facts :
    (m : Manager) (slot : ℕ)
    → IsValid m
    → slot < m.fresh
    → Facts (table_size m.risk) (entry_at m slot)
entry-Facts m slot v h =
    not_blank _ _
      (All-get_or (IsEntry (table_size m.risk)) m.orders blank_entry slot v.books.entries
        (inside m slot v h))
      (v.slots.used slot h)

-- The engine's call that takes a working order from one quantity to another.
pub rebook-Moves :
    (r : Engine) (l : Locate) (s : Side) (old qty c : ℕ)
    → IsSound r
    → l < table_size r
    → Moves r (rebook r l s old qty) l s old qty c c
unfolding rebook
rebook-Moves r l s old qty c v h = elim (Bool-cases (ltb old qty)) [
  | inl more ↦
      let e : old + (qty - old) ≡ qty = ground arith in
      rw more (
        subst (λ (x : ℕ). Moves r (on_order_grow r l s (qty - old)) l s old x c c) e
          (grow-Moves r l s v h old (qty - old) c (ground arith)))
  | inr no_more ↦ rw no_more (elim (Bool-cases (ltb qty old)) [
    | inl less ↦
        let e : qty + (old - qty) ≡ old = ground arith in
        rw less (
          subst (λ (x : ℕ). Moves r (on_order_reduce r l s (old - qty)) l s x qty c c) e
            (reduce-Moves r l s v h qty (old - qty) c))
    | inr no_less ↦
        let e : old ≡ qty = ground arith in
        rw no_less (subst (λ (x : ℕ). Moves r r l s old x c c) e (same-Moves r l s old c v))
  ])
]

-- An entry is stored with the call to the risk engine that its reserved quantity asks for.
pub store-IsValid :
    (m : Manager) (slot : ℕ) (e : Entry) (r : Engine)
    → IsValid m
    → slot < m.fresh
    → (entry_at m slot).info.req.locate ≡ e.info.req.locate
    → (entry_at m slot).info.req.side ≡ e.info.req.side
    → (entry_at m slot).info.id ≡ e.info.id
    → is_terminal (entry_at m slot).info.status ≡ is_terminal e.info.status
    → Moves m.risk r e.info.req.locate e.info.req.side
        (entry_at m slot).reserved
        e.reserved
        (one e)
        (one e)
    → Facts (table_size m.risk) e
    → IsValid (put slot e (record m { risk = r }))
store-IsValid m slot e r v h locate side id status mv f =
    let o = entry_at m slot in
    let same_one : one o ≡ one e = rw (id, status) refl in
    let same_count : m.open_count + one e - one o ≡ m.open_count = omega (arith, same_one) in
    record {
      books =
          subst (λ (n : ℕ). Books r (set m.orders slot e) n) same_count
            (store-Books m.risk r m.orders m.open_count slot e o.reserved (one e) v.books
              (inside m slot v h) mv
              (λ l s. (rw (locate, side) refl, rw (locate, side, same_one) refl)) f);
      slots =
          put-Slots _ _ _ _ _ _ _ _ v.slots slot e (inside m slot v h) (rw id refl)
            (rw (id, status) refl);
      list = put-Linked _ _ _ _ _ slot e v.list (inside m slot v h) id same_one;
      start = v.start;
    }

-- A working order whose quantities have changed.
pub sync-IsValid :
    (m : Manager) (slot : ℕ) (e : Entry)
    → IsValid m
    → slot < m.fresh
    → (entry_at m slot).info.req.locate ≡ e.info.req.locate
    → (entry_at m slot).info.req.side ≡ e.info.req.side
    → (entry_at m slot).info.id ≡ e.info.id
    → (entry_at m slot).reserved ≡ e.reserved
    → is_terminal (entry_at m slot).info.status ≡ is_terminal e.info.status
    → Facts (table_size m.risk) (record e { reserved = want e })
    → IsValid (sync_ledger slot e m)
unfolding sync_ledger
sync-IsValid m slot e v h locate side id reserved status f =
    let synced : Entry = record e { reserved = want e } in
    store-IsValid m slot synced _ v h locate side id status
      (rw reserved
        (rebook-Moves m.risk _ _ e.reserved (want e) (one synced) v.books.sound f.on_table))
      f

at_same : (l : Locate) (s : Side) (x : ℕ) → at l s l s x ≡ x
at_same l buy x = ground arith
at_same l sell x = ground arith

pub names-kept :
    (e : Entry) (m : Manager) → IsValid m → All (Below m.fresh) (drop_replacement e m).tokens
names-kept e m v = elim (Bool-cases (e.next_token == 0)) [
  | inl none_sent ↦ rw none_sent v.slots.names
  | inr in_flight ↦ rw in_flight (All-erase (Below m.fresh) e.next_token m.tokens v.slots.names)
]

one-closed :
    (e : Entry) (outcome : OrderStatus) → is_terminal outcome ≡ true → one (closed e outcome) ≡ 0
one-closed e outcome h = ground (arith, h)

-- A working order that is finished.
pub end-IsValid :
    (m : Manager) (slot : ℕ) (e : Entry) (outcome : OrderStatus)
    → IsValid m
    → slot < m.fresh
    → (entry_at m slot).info.req.locate ≡ e.info.req.locate
    → (entry_at m slot).info.req.side ≡ e.info.req.side
    → (entry_at m slot).info.id ≡ e.info.id
    → (entry_at m slot).reserved ≡ e.reserved
    → is_terminal (entry_at m slot).info.status ≡ false
    → is_terminal outcome ≡ true
    → Facts (table_size m.risk) (closed e outcome)
    → IsValid (end_of_life slot e outcome m)
unfolding end_of_life unlink
end-IsValid m slot e outcome v h locate side id reserved working ends f =
    let o = entry_at m slot in
    let named = v.slots.used slot h in
    let counted : one o ≡ 1 = ground (arith, named, working) in
    let gone = one-closed e outcome ends in
    let place = inside m slot v h in
    let one_less : m.open_count + one (closed e outcome) - one o ≡ m.open_count - 1 =
      omega (arith, counted, gone) in
    let here : 0 < count_of e.info.req.side (slot_at m.risk e.info.req.locate) =
      let some = tick-le-working_on e.info.req.locate e.info.req.side m.orders slot place in
      let mine : tick e.info.req.locate e.info.req.side o ≡ 1 =
        rw (locate, side, counted) (at_same e.info.req.locate e.info.req.side 1) in
      omega (arith, v.books.counts e.info.req.locate e.info.req.side, some, mine) in
    let engine = on_order_end m.risk e.info.req.locate e.info.req.side e.reserved in
    let moves : Moves m.risk engine e.info.req.locate e.info.req.side e.reserved 0 1
        (one (closed e outcome)) =
      rw gone (end-Moves m.risk _ _ v.books.sound f.on_table e.reserved here) in
    record {
      books =
          subst (λ (n : ℕ). Books engine (set m.orders slot (closed e outcome)) n) one_less
            (store-Books m.risk _ m.orders m.open_count slot (closed e outcome) e.reserved 1 v.books
              place moves
              (λ l s. (rw (locate, side, reserved) refl, rw (locate, side, counted) refl)) f);
      slots =
          end-Slots _ _ _ _ _ _ _ _ v.slots slot (closed e outcome) _ h
            (omega (arith, counted, one-le-working_all m.orders slot place, v.books.total))
            (ground (arith, working)) (ground (arith, named, rw id at named, ends))
            (names-kept e m v);
      list = unlink-Linked m slot (closed e outcome) v.list place id counted gone;
      start = v.start;
    }
