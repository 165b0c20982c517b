-- ===== src/Book/OrderBook/Contract.antt =====
-- What OrderBook (order_book.hpp) promises its callers, with each side as a map from prices to levels.
use opti_trade_engine.Prelude.{
  ℕ, ◌+◌, ◌-◌, ◌≤◌, ◌<◌, ◌≡◌, ◌≢◌, refl, sym, ap, Bool, true, false, Option, none, some, arith,
  ◌==◌, if◌then◌else◌, Bool-cases, inl, inr, ◌⊎◌,
}
use opti_trade_engine.Prelude.Int.{eqb_ℤ, eqb_ℤ_eq}
use opti_trade_engine.Core.Types.{Price, Qty, Side, buy, sell, opposite, u32_max}
use opti_trade_engine.Book.Ladder.{
  Entry, Placed, refused, joined, created, evicted, Taken, kept, taken, no_level, entry_at, better,
}
use opti_trade_engine.Book.Ladder.Search.{AllBetter}
use opti_trade_engine.Book.Ladder.View.{find_level-All}
use opti_trade_engine.Book.Ladder.Effects.{Places, place-Places, Updates, view, grown, new_entry}
use opti_trade_engine.Book.Ladder.Removal.{Takes, take_order-Takes, remainder, qty_at-view}
use opti_trade_engine.Book.OrderBook.{
  OrderBook, side_book, commit, settle, add_order, take, qty_at, depth,
}
use opti_trade_engine.Book.OrderBook.Invariant.{IsValid, side_ok, add_order-IsValid, take-IsValid}

-- The level at a price of a side.
abbrev pub level_at : OrderBook → Side → Price → Option Entry
level_at b s p = view (side_book s b) p

-- A call that changed side `s` of `b` only, and was counted as an update.
abbrev pub OnlySide : Side → OrderBook → OrderBook → Type 0
OnlySide s b b' =
    (side_book (opposite s) b' ≡ side_book (opposite s) b)
    × (b'.updates ≡ b.updates + 1)
    × ((side_book s b').capacity ≡ (side_book s b).capacity)

-- Why an add is refused: a counter would overflow, or the side is full of better prices.
abbrev pub Refusal : Side → Price → Qty → OrderBook → Type 0
Refusal s p qty b =
    ((e : Entry) × (level_at b s p ≡ some e) × ((u32_max < e.qty + qty) ⊎ (e.orders ≡ u32_max)))
    ⊎ ((level_at b s p ≡ none)
        × (depth s b ≡ (side_book s b).capacity)
        × AllBetter s p (side_book s b).levels)

-- The three ways in which an order is stored.
abbrev pub Stored : Side → Price → Qty → OrderBook → OrderBook → ℕ → Type 0
Stored s p qty b b' id =
    (((e : Entry) × (level_at b s p ≡ some e)
        × (id ≡ e.id)
        × Updates (level_at b s) p (some (grown e qty)) (level_at b' s))
      × (b'.overflows ≡ b.overflows))
    ⊎ (((level_at b s p ≡ none)
          × (id ≡ b.next_id)
          × Updates (level_at b s) p (some (new_entry p qty id)) (level_at b' s))
        × (b'.overflows ≡ b.overflows))
    ⊎ (((level_at b s p ≡ none)
          × (id ≡ b.next_id)
          × (depth s b ≡ (side_book s b).capacity)
          × ((worst : Entry) × (entry_at (side_book s b).levels 0 ≡ worst)
              × (better s p worst.price ≡ true)
              × ((q : Price)
                  → level_at b' s q ≡ (
                      if eqb_ℤ p q
                      then some (new_entry p qty id)
                      else if eqb_ℤ worst.price q
                      then none
                      else level_at b s q))))
        × (b'.overflows ≡ b.overflows + 1))

abbrev pub Added : Side → Price → Qty → OrderBook → OrderBook × ℕ → Type 0
Added s p qty b r =
    ((r.1 ≡ no_level) × (r.0 ≡ record b { overflows = b.overflows + 1 }) × Refusal s p qty b)
    ⊎ ((r.1 ≢ no_level) × OnlySide s b r.0 × Stored s p qty b r.0 r.1)

commit-Added :
    (s : Side) (p : Price) (qty : Qty) (b : OrderBook) (o : Placed)
    → IsValid b
    → Places s p qty b.next_id (side_book s b) o
    → Added s p qty b (commit s b o)
unfolding commit depth opposite
commit-Added buy p qty b refused v h = inl (refl, refl, h)
commit-Added sell p qty b refused v h = inl (refl, refl, h)
commit-Added buy p qty b (joined sb id) v (ok, cap, (e, at, same, upd)) =
    let l = find_level-All _ p b.bids.levels v.bids_ok.live at in
    inr (ground (arith, l.named), (refl, refl, cap), inl ((e, at, same, upd), refl))
commit-Added sell p qty b (joined sb id) v (ok, cap, (e, at, same, upd)) =
    let l = find_level-All _ p b.asks.levels v.asks_ok.live at in
    inr (ground (arith, l.named), (refl, refl, cap), inl ((e, at, same, upd), refl))
commit-Added buy p qty b (created sb) v (ok, cap, none_yet, room, upd) =
    inr (ground (arith, v.named), (refl, refl, cap), inr (inl ((none_yet, refl, upd), refl)))
commit-Added sell p qty b (created sb) v (ok, cap, none_yet, room, upd) =
    inr (ground (arith, v.named), (refl, refl, cap), inr (inl ((none_yet, refl, upd), refl)))
commit-Added buy p qty b (evicted sb) v (ok, cap, none_yet, full, worst) =
    inr
      (ground (arith, v.named), (refl, refl, cap), inr (inr ((none_yet, refl, full, worst), refl)))
commit-Added sell p qty b (evicted sb) v (ok, cap, none_yet, full, worst) =
    inr
      (ground (arith, v.named), (refl, refl, cap), inr (inr ((none_yet, refl, full, worst), refl)))

-- What an add of at least one share to a valid book does: it is refused for a stated reason and
-- changes nothing but the overflow count, or it stores the order at the level that has its price, at a
-- new level, or at a new level for which the worst level of a full side is removed. All other levels
-- stay as they are.
pub add_order-Added :
    (s : Side) (p : Price) (qty : Qty) (b : OrderBook)
    → IsValid b
    → 0 < qty
    → qty ≤ u32_max
    → Added s p qty b (add_order s p qty b)
unfolding add_order
add_order-Added s p qty b v h k =
    let some_qty : (qty == 0) ≡ false = ground arith in
    rw some_qty (
      commit-Added s p qty b _ v
        (place-Places s p qty b.next_id (side_book s b) (side_ok s b v) v.named h k))

-- A take with its two results: refused for a reason, with the book as it was, or one level changed.
abbrev pub Taking : Side → Price → Qty → ℕ → Bool → OrderBook → OrderBook × Bool → Type 0
Taking s p qty id whole b r =
    ((r.1 ≡ false)
      × (r.0 ≡ b)
      × ((level_at b s p ≡ none)
          ⊎ ((e : Entry) × (level_at b s p ≡ some e)
              × (((id ≢ no_level) × (e.id ≢ id)) ⊎ (e.qty < qty)))))
    ⊎ ((r.1 ≡ true)
        × OnlySide s b r.0
        × ((e : Entry) × (level_at b s p ≡ some e)
            × (qty ≤ e.qty)
            × ((id ≡ no_level) ⊎ (e.id ≡ id))
            × Updates (level_at b s) p (remainder e qty whole) (level_at r.0 s)))

settle-Taking :
    (s : Side) (p : Price) (qty id : ℕ) (whole : Bool) (b : OrderBook) (o : Taken)
    → Takes s p qty id whole b.next_id (side_book s b) o
    → Taking s p qty id whole b (settle s b o)
unfolding settle opposite
settle-Taking buy p qty id whole b kept h = inl (refl, refl, h)
settle-Taking sell p qty id whole b kept h = inl (refl, refl, h)
settle-Taking buy p qty id whole b (taken sb) (ok, cap, change) =
    inr (refl, (refl, refl, cap), change)
settle-Taking sell p qty id whole b (taken sb) (ok, cap, change) =
    inr (refl, (refl, refl, cap), change)

-- What taking at least one share does, as a whole order or a part, by id or not.
pub take-Taking :
    (s : Side) (p : Price) (qty id : ℕ) (whole : Bool) (b : OrderBook)
    → IsValid b
    → 0 < qty
    → Taking s p qty id whole b (take s p qty id whole b)
unfolding take
take-Taking s p qty id whole b v h =
    let some_qty : (qty == 0) ≡ false = ground arith in
    rw some_qty (
      settle-Taking s p qty id whole b _
        (take_order-Takes s p qty id whole b.next_id (side_book s b) (side_ok s b v) h))

abbrev shares : Option Entry → ℕ
shares none = 0
shares (some e) = e.qty

-- A take of `qty` shares from a level that holds them, by its id.
take_from_new :
    (s : Side) (p q : Price) (qty : Qty) (b : OrderBook) (whole : Bool) (e : Entry)
    → IsValid b
    → 0 < qty
    → level_at b s p ≡ some e
    → qty ≤ e.qty
    → ((take s p qty e.id whole b).1 ≡ true)
      × (shares (level_at (take s p qty e.id whole b).0 s q)
          ≡ (if eqb_ℤ p q then e.qty - qty else shares (level_at b s q)))
take_from_new s p q qty b whole e v h at enough = elim (take-Taking s p qty e.id whole b v h) [
  | inl (bad, same, inl missing) ↦ absurd (ground arith)
  | inl (bad, same, inr (e', at', inl (by_id, stale))) ↦
      let here : e ≡ e' = ground arith in absurd (stale (sym (ap (λ (x : Entry). x.id) here)))
  | inl (bad, same, inr (e', at', inr short)) ↦
      let here : e ≡ e' = ground arith in absurd (ground arith)
  | inr (good, only, (e', at', enough', same, upd)) ↦
      let here : e ≡ e' = ground arith in (good, ground (arith, upd q))
]

qty_at-shares :
    (s : Side) (p : Price) (b : OrderBook) → IsValid b → qty_at s p b ≡ shares (level_at b s p)
unfolding qty_at
qty_at-shares s p b v = ground (arith, qty_at-view s p b.next_id (side_book s b) (side_ok s b v))

-- The quantities after such a take from `b'` are those of `b`.
take_undoes :
    (s : Side) (p q : Price) (qty : Qty) (b b' : OrderBook) (whole : Bool) (e : Entry)
    → IsValid b
    → IsValid b'
    → 0 < qty
    → level_at b' s p ≡ some e
    → e.qty ≡ shares (level_at b s p) + qty
    → (eqb_ℤ p q ≡ false → level_at b' s q ≡ level_at b s q)
    → ((take s p qty e.id whole b').1 ≡ true)
      × (qty_at s q (take s p qty e.id whole b').0 ≡ qty_at s q b)
take_undoes s p q qty b b' whole e v v' h at total others =
    let (good, left) = take_from_new s p q qty b' whole e v' h at (omega arith) in
    let before : qty_at s q b ≡ shares (level_at b s q) = qty_at-shares s q b v in
    let after =
      qty_at-shares s q (take s p qty e.id whole b').0 (take-IsValid s p qty e.id whole b' v') in
    (
      good,
      elim (Bool-cases (eqb_ℤ p q)) [
        | inl same ↦
            let p_q : p ≡ q = eqb_ℤ_eq p q same in
            let old : shares (level_at b s p) ≡ shares (level_at b s q) =
              ap (λ r. shares (level_at b s r)) p_q in
            ground (arith, before, after, left, old)
        | inr other ↦ ground (arith, before, after, left, others other)
      ],
    )

-- Adding an order and taking it off again by the id that the add gave leaves the quantity at
-- every price as it was, unless the add hit a limit.
pub take-add_order :
    (s : Side) (p q : Price) (qty : Qty) (b : OrderBook) (whole : Bool)
    → IsValid b
    → 0 < qty
    → qty ≤ u32_max
    → (add_order s p qty b).0.overflows ≡ b.overflows
    → let (b', id) = add_order s p qty b in
      ((take s p qty id whole b').1 ≡ true)
      × (qty_at s q (take s p qty id whole b').0 ≡ qty_at s q b)
take-add_order s p q qty b whole v h k room = elim (add_order-Added s p qty b v h k) [
  | inl (none_id, same, why) ↦ absurd (ground arith)
  | inr (id, only, inl ((e, at, same, upd), over)) ↦ rw same (
      take_undoes s p q qty b (add_order s p qty b).0 whole (grown e qty) v
        (add_order-IsValid s p qty b v k) h (ground (arith, upd p)) (ground arith)
        (λ other. ground (arith, upd q)))
  | inr (id, only, inr (inl ((absent, same, upd), over))) ↦
      take_undoes s p q qty b (add_order s p qty b).0 whole
        (new_entry p qty (add_order s p qty b).1) v (add_order-IsValid s p qty b v k) h
        (ground (arith, upd p)) (ground arith) (λ other. ground (arith, upd q))
  | inr (id, only, inr (inr (evict, over))) ↦ absurd (omega arith)
]
