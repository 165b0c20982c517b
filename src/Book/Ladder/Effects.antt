-- ===== src/Book/Ladder/Effects.antt =====
-- What an add and a take do to one side (order_book.hpp), seen as a map from prices to levels.
use opti_trade_engine.Prelude.{
  ℕ, ◌+◌, ◌-◌, ◌≤◌, ◌<◌, ◌≡◌, ◌≢◌, refl, sym, ap, ◌∙◌, ◌||◌, true, false, List, [], ◌∷◌, Option,
  none, some, arith, length, insert_at, remove_at, All, All-get_or, All-insert_at, All-set, All-imp,
  length-insert_at, length-set, ltb, ◌==◌, Bool-cases, inl, inr, ◌⊎◌, if◌then◌else◌,
}
use opti_trade_engine.Prelude.Int.{eqb_ℤ, eqb_ℤ_eq}
use opti_trade_engine.Core.Types.{Price, Qty, Side, u32_max}
use opti_trade_engine.Book.Ladder.{
  Entry, SideBook, Placed, refused, joined, created, evicted, empty_entry, entry_at, better,
  level_there, join, create, place,
}
use opti_trade_engine.Book.Ladder.Search.{
  IsSorted, AllBetter, AllBetter-trans, better_tight, count_worse, find_pos-count_worse,
}
use opti_trade_engine.Book.Ladder.Invariant.{
  IsLive, IsLive-mono, IsValid, IsSorted-insert_at, IsSorted-set,
}
use opti_trade_engine.Book.Ladder.View.{
  find_level, find_level-at, find_level-insert_at, find_level-set, find_level-remove_at,
}

-- A map that agrees with `f` but at `p`, where it has `v`.
abbrev pub Updates : (Price → Option Entry) → Price → Option Entry → (Price → Option Entry) → Type 0
Updates f p v g = (q : Price) → g q ≡ (if eqb_ℤ p q then v else f q)

abbrev pub view : SideBook → Price → Option Entry
view sb q = find_level q sb.levels

abbrev pub grown : Entry → Qty → Entry
grown e qty = record {
  lv = record { price = e.price; qty = e.qty + qty; orders = e.orders + 1 };
  id = e.id;
}

abbrev pub new_entry : Price → Qty → ℕ → Entry
new_entry price qty id = record { lv = record { price = price; qty = qty; orders = 1 }; id = id }

-- The side after an add of `qty` at `p` with the next id `n`, for each outcome.
abbrev pub Places : Side → Price → Qty → ℕ → SideBook → Placed → Type 0
Places s p qty n sb refused =
    ((e : Entry) × (view sb p ≡ some e) × ((u32_max < e.qty + qty) ⊎ (e.orders ≡ u32_max)))
    ⊎ ((view sb p ≡ none) × (length sb.levels ≡ sb.capacity) × AllBetter s p sb.levels)
Places s p qty n sb (joined sb' id) =
    IsValid s n sb'
    × (sb'.capacity ≡ sb.capacity)
    × ((e : Entry) × (view sb p ≡ some e)
        × (id ≡ e.id)
        × Updates (view sb) p (some (grown e qty)) (view sb'))
Places s p qty n sb (created sb') =
    IsValid s (n + 1) sb'
    × (sb'.capacity ≡ sb.capacity)
    × (view sb p ≡ none)
    × (length sb.levels < sb.capacity)
    × Updates (view sb) p (some (new_entry p qty n)) (view sb')
Places s p qty n sb (evicted sb') =
    IsValid s (n + 1) sb'
    × (sb'.capacity ≡ sb.capacity)
    × (view sb p ≡ none)
    × (length sb.levels ≡ sb.capacity)
    × ((worst : Entry) × (entry_at sb.levels 0 ≡ worst)
        × (better s p worst.price ≡ true)
        × ((q : Price)
            → view sb' q ≡ (
                if eqb_ℤ p q
                then some (new_entry p qty n)
                else if eqb_ℤ worst.price q
                then none
                else view sb q)))

-- No level is worse than `p` and none has that price: all are better.
AllBetter-count :
    (s : Side) (p : Price) (xs : List Entry)
    → IsSorted s xs
    → level_there xs (count_worse s p xs) p ≡ false
    → count_worse s p xs ≡ 0
    → AllBetter s p xs
unfolding count_worse
AllBetter-count s p [] o there none_worse = tt
AllBetter-count s p (x ∷ xs) o there none_worse =
    let above : better s x.price p ≡ true = ground (arith, better_tight s p x.price) in
    (above, AllBetter-trans s x.price p xs above o.0)

-- The position among the levels below the worst one, if that one is worse than `p`.
count_worse-tail :
    (s : Side) (p : Price) (x : Entry) (xs : List Entry)
    → count_worse s p (x ∷ xs) ≢ 0
    → (better s p x.price ≡ true)
      × (count_worse s p (x ∷ xs) - 1 ≡ count_worse s p xs)
      × (level_there (x ∷ xs) (count_worse s p (x ∷ xs)) p ≡ level_there xs (count_worse s p xs) p)
unfolding count_worse
count_worse-tail s p x xs h = (ground arith, ground arith, ground arith)

-- On a full side the new level takes the place of the worst one.
evict-Places :
    (s : Side) (p : Price) (qty n cap : ℕ) (xs : List Entry)
    → let sb : SideBook = record { capacity = cap; levels = xs } in
      let at = count_worse s p xs in
      let fresh = new_entry p qty n in
      IsValid s n sb
      → All (IsLive (n + 1)) xs
      → IsLive (n + 1) fresh
      → find_level p xs ≡ none
      → level_there xs at p ≡ false
      → length xs ≡ cap
      → at ≢ 0
      → Places s p qty n sb
          (evicted (record { capacity = cap; levels = insert_at (at - 1) fresh (remove_at 0 xs) }))
unfolding count_worse
evict-Places s p qty n cap [] v live alive absent there full behind = absurd (behind refl)
evict-Places s p qty n cap (x ∷ xs) v live alive absent there full behind =
    let fresh = new_entry p qty n in
    let (above, shift, here) = count_worse-tail s p x xs behind in
    let gone : (q : Price)
        → find_level q xs ≡ (if eqb_ℤ x.price q then none else find_level q (x ∷ xs)) =
      λ q. find_level-remove_at s q 0 (x ∷ xs) v.sorted (omega arith) in
    let absent' : find_level p xs ≡ none = ground (arith, gone p) in
    rw shift (
      record {
        sorted = IsSorted-insert_at s fresh xs v.sorted.1 (sym here ∙ there);
        within = rw (length-insert_at (count_worse s p xs) fresh xs) (ground (arith, v.within));
        live = All-insert_at _ (count_worse s p xs) fresh xs alive live.1;
      },
      refl,
      absent,
      full,
      (
        x,
        refl,
        above,
        λ q.
            find_level-insert_at q (count_worse s p xs) fresh xs absent'
            ∙ ap (λ r. if eqb_ℤ p q then some fresh else r) (gone q),
      ),
    )

module _ (s : Side) (p : Price) (qty n : ℕ) (sb : SideBook) (valid : IsValid s n sb)
    (named : 0 < n) where
  abbrev at : ℕ
  at = count_worse s p sb.levels

  join-Places :
      0 < qty
      → qty ≤ u32_max
      → level_there sb.levels at p ≡ true
      → Places s p qty n sb (join at (entry_at sb.levels at) qty sb)
  unfolding join
  join-Places h k there =
      let xs = sb.levels in
      let e = entry_at xs at in
      let found : view sb p ≡ some e = find_level-at s p xs valid.sorted ∙ rw there in
      let inside : at < length xs = ground arith in
      let priced : e.price ≡ p = eqb_ℤ_eq e.price p (ground arith) in
      let old : IsLive n e = All-get_or _ xs empty_entry at valid.live inside in
      elim (Bool-cases (ltb (u32_max - qty) e.qty || e.orders == u32_max)) [
        | inl full ↦ rw full (inl (e, found, ground arith))
        | inr room ↦ rw room (
          record {
            sorted = IsSorted-set s at (grown e qty) xs valid.sorted inside refl;
            within = rw (length-set xs at (grown e qty)) valid.within;
            live = All-set _ at (grown e qty) xs (ground arith) valid.live;
          },
          refl,
          (
            e,
            found,
            refl,
            λ q.
                find_level-set s q at (grown e qty) xs valid.sorted inside refl
                ∙ ap (λ r. if eqb_ℤ r q then some (grown e qty) else find_level q xs) priced,
          ),
        )
      ]

  create-Places :
      0 < qty
      → qty ≤ u32_max
      → level_there sb.levels at p ≡ false
      → Places s p qty n sb (create at (new_entry p qty n) sb)
  unfolding create
  create-Places h k there =
      let xs = sb.levels in
      let fresh = new_entry p qty n in
      let absent : view sb p ≡ none = find_level-at s p xs valid.sorted ∙ rw there in
      let live : All (IsLive (n + 1)) xs =
        All-imp _ _ (IsLive-mono n (n + 1) (omega arith)) xs valid.live in
      let alive : IsLive (n + 1) fresh = ground arith in
      elim (Bool-cases (length xs == sb.capacity)) [
        | inr room ↦ rw room (
          record {
            sorted = IsSorted-insert_at s fresh xs valid.sorted there;
            within = rw (length-insert_at at fresh xs) (ground (arith, valid.within));
            live = All-insert_at _ at fresh xs alive live;
          },
          refl,
          absent,
          ground (arith, valid.within),
          λ q. find_level-insert_at q at fresh xs absent,
        )
        | inl full ↦ rw full (elim (Bool-cases (at == 0)) [
          | inl front ↦
              rw front (
                inr
                  (absent, ground arith, AllBetter-count s p xs valid.sorted there (ground arith)))
          | inr behind ↦ rw behind (
              evict-Places s p qty n sb.capacity xs valid live alive absent there (ground arith)
                (ground arith))
        ])
      ]

-- What an add does to a valid side, on every branch.
pub place-Places :
    (s : Side) (p : Price) (qty n : ℕ) (sb : SideBook)
    → IsValid s n sb
    → 0 < n
    → 0 < qty
    → qty ≤ u32_max
    → Places s p qty n sb (place s p qty n sb)
unfolding place
place-Places s p qty n sb v named h k =
    let at = count_worse s p sb.levels in
    rw (find_pos-count_worse s p sb.levels v.sorted)
      (elim (Bool-cases (level_there sb.levels at p)) [
        | inl there ↦ rw there (join-Places s p qty n sb v named h k there)
        | inr missing ↦ rw missing (create-Places s p qty n sb v named h k missing)
      ])
