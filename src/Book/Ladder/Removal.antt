-- ===== src/Book/Ladder/Removal.antt =====
-- What a removal or a reduction (`take` of order_book.hpp) does to one side.
use opti_trade_engine.Prelude.{
  ℕ, ◌-◌, ◌≤◌, ◌<◌, ◌≡◌, ◌≢◌, refl, ap, ◌∙◌, Bool, true, ◌&&◌, not, Option, none, some, arith,
  length, All-get_or, All-set, All-remove_at, length-remove_at, length-set, ltb, ◌==◌, Bool-cases,
  inl, inr, ◌⊎◌, if◌then◌else◌,
}
use opti_trade_engine.Prelude.Int.{eqb_ℤ, eqb_ℤ_eq}
use opti_trade_engine.Core.Types.{Price, Qty, Side}
use opti_trade_engine.Book.Ladder.{
  Entry, SideBook, Taken, kept, taken, no_level, empty_entry, entry_at, level_there, take_from,
  take_order, qty_at,
}
use opti_trade_engine.Book.Ladder.Search.{count_worse, find_pos-count_worse}
use opti_trade_engine.Book.Ladder.Invariant.{IsLive, IsValid, IsSorted-set, IsSorted-remove_at}
use opti_trade_engine.Book.Ladder.View.{
  find_level, find_level-at, find_level-set, find_level-remove_at,
}
use opti_trade_engine.Book.Ladder.Effects.{Updates, view}

-- The level after `qty` shares left it, as a whole order or as part of one.
abbrev pub reduced : Entry → Qty → Bool → Entry
reduced e qty whole_order = record {
  lv = record {
    price = e.price;
    qty = e.qty - qty;
    orders = if whole_order && ltb 1 e.orders then e.orders - 1 else e.orders;
  };
  id = e.id;
}

abbrev pub remainder : Entry → Qty → Bool → Option Entry
remainder e qty whole_order = if e.qty - qty == 0 then none else some (reduced e qty whole_order)

-- A take on one side, for each outcome: it is refused for a reason, or it changes one level.
abbrev pub Takes : Side → Price → Qty → ℕ → Bool → ℕ → SideBook → Taken → Type 0
Takes s p qty id whole_order n sb kept =
    (view sb p ≡ none)
    ⊎ ((e : Entry) × (view sb p ≡ some e) × (((id ≢ no_level) × (e.id ≢ id)) ⊎ (e.qty < qty)))
Takes s p qty id whole_order n sb (taken sb') =
    IsValid s n sb'
    × (sb'.capacity ≡ sb.capacity)
    × ((e : Entry) × (view sb p ≡ some e)
        × (qty ≤ e.qty)
        × ((id ≡ no_level) ⊎ (e.id ≡ id))
        × Updates (view sb) p (remainder e qty whole_order) (view sb'))

module _ (s : Side) (p : Price) (qty n : ℕ) (whole_order : Bool) (sb : SideBook)
    (valid : IsValid s n sb) where
  abbrev at : ℕ
  at = count_worse s p sb.levels

  take_from-Takes :
      (id : ℕ)
      → 0 < qty
      → level_there sb.levels at p ≡ true
      → qty ≤ (entry_at sb.levels at).qty
      → (id ≡ no_level) ⊎ ((entry_at sb.levels at).id ≡ id)
      → Takes s p qty id whole_order n sb
          (taken (take_from at (entry_at sb.levels at) qty whole_order sb))
  unfolding take_from
  take_from-Takes id some_qty there enough same =
      let xs = sb.levels in
      let e = entry_at xs at in
      let found : view sb p ≡ some e = find_level-at s p xs valid.sorted ∙ rw there in
      let inside : at < length xs = ground arith in
      let priced : e.price ≡ p = eqb_ℤ_eq e.price p (ground arith) in
      let old : IsLive n e = All-get_or _ xs empty_entry at valid.live inside in
      elim (Bool-cases (e.qty - qty == 0)) [
        | inl all ↦ rw all (
          record {
            sorted = IsSorted-remove_at s at xs valid.sorted;
            within = ground (arith, length-remove_at at xs inside, valid.within);
            live = All-remove_at _ at xs valid.live;
          },
          refl,
          (
            e,
            found,
            enough,
            same,
            λ q.
                find_level-remove_at s q at xs valid.sorted inside
                ∙ ap (λ r. if eqb_ℤ r q then none else find_level q xs) priced
                ∙ rw all,
          ),
        )
        | inr part ↦
            let left = reduced e qty whole_order in
            rw part (
              record {
                sorted = IsSorted-set s at left xs valid.sorted inside refl;
                within = rw (length-set xs at left) valid.within;
                live = All-set _ at left xs (ground arith) valid.live;
              },
              refl,
              (
                e,
                found,
                enough,
                same,
                λ q.
                    find_level-set s q at left xs valid.sorted inside refl
                    ∙ ap (λ r. if eqb_ℤ r q then some left else find_level q xs) priced
                    ∙ rw part,
              ),
            )
      ]

-- What a take does to a valid side, on every branch.
pub take_order-Takes :
    (s : Side) (p : Price) (qty id : ℕ) (whole_order : Bool) (n : ℕ) (sb : SideBook)
    → IsValid s n sb
    → 0 < qty
    → Takes s p qty id whole_order n sb (take_order s p qty id whole_order sb)
unfolding take_order
take_order-Takes s p qty id whole_order n sb v h =
    let xs = sb.levels in
    let at = count_worse s p xs in
    let e = entry_at xs at in
    rw (find_pos-count_worse s p xs v.sorted) (elim (Bool-cases (level_there xs at p)) [
      | inr missing ↦ rw missing (inl (find_level-at s p xs v.sorted ∙ rw missing))
      | inl there ↦
          let found : view sb p ≡ some e = find_level-at s p xs v.sorted ∙ rw there in
          rw there (elim (Bool-cases (not (id == no_level) && not (e.id == id))) [
            | inl stale ↦ rw stale (inr (e, found, inl (ground arith, ground arith)))
            | inr same ↦ rw same (elim (Bool-cases (ltb e.qty qty)) [
              | inl short ↦ rw short (inr (e, found, inr (ground arith)))
              | inr enough ↦ rw enough (
                  take_from-Takes s p qty n whole_order sb v id h there (ground arith)
                    (ground arith))
            ])
          ])
    ])

-- The quantity that is read is that of the level at the price.
pub qty_at-view :
    (s : Side) (p : Price) (n : ℕ) (sb : SideBook)
    → IsValid s n sb
    → qty_at s p sb ≡ elim (view sb p) [ none ↦ 0 | some e ↦ e.qty ]
unfolding qty_at
qty_at-view s p n sb v =
    rw (find_pos-count_worse s p sb.levels v.sorted, find_level-at s p sb.levels v.sorted)
      (ground arith)
