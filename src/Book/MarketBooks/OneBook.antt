-- ===== src/Book/MarketBooks/OneBook.antt =====
-- market_books.hpp on one book: each level holds exactly its live orders, whatever is added or taken.
use opti_trade_engine.Prelude.{
  ℕ, ◌+◌, ◌≤◌, ◌<◌, ◌≡◌, ◌≢◌, ◌⊎◌, sym, ap, ◌∙◌, Bool, true, false, List, ◌∷◌, none, some,
  if◌then◌else◌, arith, Bool-cases, inl, inr,
}
use mathlib.Core.Path.{subst}
use opti_trade_engine.Prelude.Int.{eqb_ℤ, eqb_ℤ_eq}
use opti_trade_engine.Core.Types.{Price, Qty, OrderRef, Locate, Side, buy, sell, side_eq, u32_max}
use opti_trade_engine.Book.Ladder.{Entry, SideBook, no_level}
use opti_trade_engine.Book.Ladder.View.{find_level, find_level-All}
use opti_trade_engine.Book.Ladder.Removal.{remainder}
use opti_trade_engine.Book.Ladder.Effects.{grown, new_entry}
use opti_trade_engine.Book.OrderBook.{OrderBook, side_book, add_order, take}
use opti_trade_engine.Book.OrderBook.Invariant.{take-IsValid, add_order-IsValid, side_ok}
use opti_trade_engine.Book.OrderBook.Contract.{
  level_at, take-Taking, Added, add_order-Added, OnlySide, Stored,
}
use opti_trade_engine.Book.MarketBooks.{OrderRecord}
use opti_trade_engine.Book.MarketBooks.Held.{mine, mine_lem, part, held, just_same}
use opti_trade_engine.Book.MarketBooks.Tally.{
  Tally, other_side, same_side, mine_here, not_mine_side, not_mine_price, not_mine_level, part-mine,
  left_over, if_here,
}

-- An order, or a part of one, is taken off its level.
module _ (l : Locate) (b : OrderBook) (o : OrderRecord) (n : ℕ) (whole : Bool)
    (os os' : List (OrderRef × OrderRecord)) (t : Tally l b os) (n_le : n ≤ o.qty)
    (here : o.locate ≡ l) (on_ladder : o.level ≢ no_level)
    (among : (s : Side) (p : Price) (id : ℕ) → part l s p id o ≤ held l s p id os)
    (less : (s : Side) (p : Price) (id : ℕ)
      → held l s p id os' + (if mine l s p id o then n else 0) ≡ held l s p id os) where
  unmoved :
      (s : Side) (p : Price) (e : Entry)
      → mine l s p e.id o ≡ false
      → level_at b s p ≡ some e
      → held l s p e.id os' ≡ e.qty
  unmoved s p e m at =
      let same : held l s p e.id os' + 0 ≡ held l s p e.id os = rw m at (less s p e.id) in
      omega (arith, same, t.exact s p e at)

  -- If the take is refused, no level that is there is the order's.
  gone :
      (s : Side) (p : Price) (e : Entry)
      → level_at b s p ≡ some e
      → ((level_at b o.side o.price ≡ none)
          ⊎ ((e0 : Entry) × (level_at b o.side o.price ≡ some e0)
              × (((o.level ≢ no_level) × (e0.id ≢ o.level)) ⊎ (e0.qty < n))))
      → mine l s p e.id o ≡ false
  gone s p e at why = elim (Bool-cases (mine l s p e.id o)) [
    | inr no_match ↦ no_match
    | inl m ↦
        let (_, sd, px, lv) = mine_lem l s p e.id o m in
        let found : level_at b o.side o.price ≡ some e =
          ap (λ (x : Side). level_at b x o.price) sd ∙ ap (level_at b s) px ∙ at in
        let all : held l s p e.id os ≡ e.qty = t.exact s p e at in
        let share : o.qty ≤ held l s p e.id os =
          rw (sym (part-mine l s p e.id o m)) (among s p e.id) in
        elim why [
          | inl missing ↦ absurd (ground (arith, found, missing))
          | inr (e0, at0, inl (by_id, stale)) ↦
              let same : e0 ≡ e = just_same (sym at0 ∙ found) in
              absurd (stale (ap (λ (x : Entry). x.id) same ∙ sym lv))
          | inr (e0, at0, inr short) ↦
              let same : e0 ≡ e = just_same (sym at0 ∙ found) in
              absurd (omega (arith, ap (λ (x : Entry). x.qty) same))
        ]
  ]

  moved :
      (b' : OrderBook)
      → OnlySide o.side b b'
      → (e0 : Entry) → level_at b o.side o.price ≡ some e0
      → n ≤ e0.qty
      → e0.id ≡ o.level
      → ((q : Price)
          → level_at b' o.side q
            ≡ (if eqb_ℤ o.price q then remainder e0 n whole else level_at b o.side q))
      → (s : Side) (p : Price) (e : Entry) → level_at b' s p ≡ some e
      → held l s p e.id os' ≡ e.qty
  moved b' only e0 at0 enough id0 upd s p e at = elim (Bool-cases (side_eq o.side s)) [
    | inr other ↦
        let there : side_book s b' ≡ side_book s b =
          subst (λ (x : Side). side_book x b' ≡ side_book x b) (other_side o.side s other) only.0 in
        unmoved s p e (not_mine_side l s p e.id o other)
          (ap (λ (sb : SideBook). find_level p sb.levels) (sym there) ∙ at)
    | inl same ↦
        let sd = same_side o.side s same in
        let after : level_at b' o.side p ≡ some e = ap (λ (x : Side). level_at b' x p) sd ∙ at in
        elim (Bool-cases (eqb_ℤ o.price p)) [
          | inr elsewhere ↦
              let before : level_at b o.side p ≡ some e = ground (arith, upd p, after) in
              unmoved s p e (not_mine_price l s p e.id o elsewhere)
                (ap (λ (x : Side). level_at b x p) (sym sd) ∙ before)
          | inl priced ↦
              let px : o.price ≡ p = eqb_ℤ_eq o.price p priced in
              let rest : remainder e0 n whole ≡ some e = ground (arith, upd p, after) in
              let (q, i) = left_over e0 n whole e rest in
              let m : mine l s p e.id o ≡ true =
                (λ k. mine (sym here k) (sym sd k) (sym px k) ((i ∙ id0) k) o) ∙ mine_here o in
              let total : held l s p e.id os ≡ e0.qty =
                (λ k. held l (sym sd k) (sym px k) (i k) os) ∙ t.exact o.side o.price e0 at0 in
              let cut : held l s p e.id os' + n ≡ held l s p e.id os = rw m at (less s p e.id) in
              omega (arith, cut, total, q)
        ]
  ]

  pub take-Tally : 0 < n → Tally l (take o.side o.price n o.level whole b).0 os'
  take-Tally h = record {
    valid = take-IsValid o.side o.price n o.level whole b t.valid;
    exact = elim (take-Taking o.side o.price n o.level whole b t.valid h) [
      | inl (bad, same, why) ↦ λ s p e at.
          let was : level_at b s p ≡ some e =
            ap (λ (x : OrderBook). level_at x s p) (sym same) ∙ at in
          unmoved s p e (gone s p e was why) was
      | inr (good, only, (e0, at0, enough, inl unnamed, upd)) ↦ absurd (on_ladder unnamed)
      | inr (good, only, (e0, at0, enough, inr id0, upd)) ↦
          moved (take o.side o.price n o.level whole b).0 only e0 at0 enough id0 upd
    ];
  }

-- A new order on the book, with the level id that the add returned.
abbrev pub order_at : Locate → Side → Price → Qty → ℕ → OrderRecord
order_at l s p qty id = record {
  info = record { locate = l; side = s; price = p; qty = qty };
  level = id;
}

module _ (l : Locate) (b : OrderBook) (s : Side) (p : Price) (qty : Qty) (ref : OrderRef)
    (os : List (OrderRef × OrderRecord)) (t : Tally l b os) (some_qty : 0 < qty)
    (fits : qty ≤ u32_max) (unissued : (s : Side) (p : Price) → held l s p b.next_id os ≡ 0) where
  -- A level that the add left as it was, and that is not the new order's.
  still :
      (id : ℕ) (s' : Side) (p' : Price) (e : Entry)
      → level_at b s' p' ≡ some e
      → mine l s' p' e.id (order_at l s p qty id) ≡ false
      → held l s' p' e.id ((ref, order_at l s p qty id) ∷ os) ≡ e.qty
  unfolding held part
  still id s' p' e at no_match = rw no_match (omega (arith, t.exact s' p' e at))

  -- The level of the new order.
  joins :
      (id old : ℕ) (p' : Price) (e : Entry)
      → p ≡ p'
      → e.id ≡ id
      → held l s p id os ≡ old
      → e.qty ≡ old + qty
      → held l s p' e.id ((ref, order_at l s p qty id) ∷ os) ≡ e.qty
  unfolding held part
  joins id old p' e px i h q =
      let o = order_at l s p qty id in
      let m : mine l s p' e.id o ≡ true = (λ k. mine l s (sym px k) (i k) o) ∙ mine_here o in
      let total : held l s p' e.id os ≡ old = (λ k. held l s (sym px k) (i k) os) ∙ h in
      rw m (omega (arith, total, q))

  -- At another price of the same side.
  apart :
      (id : ℕ) (p' : Price) (e : Entry)
      → eqb_ℤ p p' ≡ false
      → level_at b s p' ≡ some e
      → held l s p' e.id ((ref, order_at l s p qty id) ∷ os) ≡ e.qty
  apart id p' e other at =
      still id s p' e at (not_mine_price l s p' e.id (order_at l s p qty id) other)

  fresh_level :
      (id : ℕ) (p' : Price) (e : Entry)
      → p ≡ p'
      → id ≡ b.next_id
      → some (new_entry p qty id) ≡ some e
      → held l s p' e.id ((ref, order_at l s p qty id) ∷ os) ≡ e.qty
  fresh_level id p' e px i h =
      let same : new_entry p qty id ≡ e = just_same h in
      joins id 0 p' e px (ap (λ (x : Entry). x.id) (sym same))
        (ap (λ (k : ℕ). held l s p k os) i ∙ unissued s p)
        (omega (arith, ap (λ (x : Entry). x.qty) same))

  -- What is there after the add was there before.
  before :
      (b' : OrderBook) (id : ℕ)
      → Stored s p qty b b' id
      → (p' : Price) (e : Entry) → level_at b' s p' ≡ some e
      → eqb_ℤ p p' ≡ false
      → level_at b s p' ≡ some e
  before b' id (inl ((e0, at0, i, upd), over)) p' e at other = ground (arith, upd p')
  before b' id (inr (inl ((absent, i, upd), over))) p' e at other = ground (arith, upd p')
  before b' id (inr (inr ((absent, i, full, (worst, w, bw, upd)), over))) p' e at other =
      ground (arith, upd p')

  unchanged :
      (b' : OrderBook)
      → b' ≡ record b { overflows = b.overflows + 1 }
      → (s' : Side) (p' : Price) → level_at b s' p' ≡ level_at b' s' p'
  unchanged b' e buy p' = ap (λ (x : OrderBook). find_level p' x.bids.levels) (sym e)
  unchanged b' e sell p' = ap (λ (x : OrderBook). find_level p' x.asks.levels) (sym e)

  on_side :
      (b' : OrderBook) (id : ℕ)
      → Stored s p qty b b' id
      → (p' : Price) (e : Entry) → level_at b' s p' ≡ some e
      → held l s p' e.id ((ref, order_at l s p qty id) ∷ os) ≡ e.qty
  on_side b' id st p' e at = elim (Bool-cases (eqb_ℤ p p')) [
    | inl here ↦
        let px : p ≡ p' = eqb_ℤ_eq p p' here in
        elim st [
          | inl ((e0, at0, i, upd), over) ↦
              let same : grown e0 qty ≡ e =
                just_same (if_here p p' _ _ e here (sym (upd p') ∙ at)) in
              joins id e0.qty p' e px (ap (λ (x : Entry). x.id) (sym same) ∙ sym i)
                (ap (λ (k : ℕ). held l s p k os) i ∙ t.exact s p e0 at0)
                (omega (arith, ap (λ (x : Entry). x.qty) same))
          | inr (inl ((absent, i, upd), over)) ↦
              fresh_level id p' e px i (if_here p p' _ _ e here (sym (upd p') ∙ at))
          | inr (inr ((absent, i, full, (worst, w, bw, upd)), over)) ↦
              fresh_level id p' e px i (if_here p p' _ _ e here (sym (upd p') ∙ at))
        ]
    | inr other ↦ apart id p' e other (before b' id st p' e at other)
  ]

  add_exact :
      (r : OrderBook × ℕ)
      → Added s p qty b r
      → (s' : Side) (p' : Price) (e : Entry) → level_at r.0 s' p' ≡ some e
      → held l s' p' e.id ((ref, order_at l s p qty r.1) ∷ os) ≡ e.qty
  add_exact (b', id) (inl (zero_id, same, why)) s' p' e at =
      let was : level_at b s' p' ≡ some e = unchanged b' same s' p' ∙ at in
      let lv = find_level-All _ p' (side_book s' b).levels (side_ok s' b t.valid).live was in
      still id s' p' e was (
        not_mine_level l s' p' e.id (order_at l s p qty id)
          (λ k. absurd (omega (arith, k, zero_id, lv.named))))
  add_exact (b', id) (inr (named, only, st)) s' p' e at = elim (Bool-cases (side_eq s s')) [
    | inr other ↦
        let there : side_book s' b' ≡ side_book s' b =
          subst (λ (x : Side). side_book x b' ≡ side_book x b) (other_side s s' other) only.0 in
        still id s' p' e (ap (λ (sb : SideBook). find_level p' sb.levels) (sym there) ∙ at)
          (not_mine_side l s' p' e.id (order_at l s p qty id) other)
    | inl same ↦
        subst
          (λ (x : Side).
            level_at b' x p' ≡ some e
            → held l x p' e.id ((ref, order_at l s p qty id) ∷ os) ≡ e.qty)
          (same_side s s' same) (on_side b' id st p' e) at
  ]

  pub add_order-Tally :
      Tally l (add_order s p qty b).0 ((ref, order_at l s p qty (add_order s p qty b).1) ∷ os)
  add_order-Tally = record {
    valid = add_order-IsValid s p qty b t.valid fits;
    exact = add_exact (add_order s p qty b) (add_order-Added s p qty b t.valid some_qty fits);
  }
