-- ===== src/Book/MarketBooks/Global.antt =====
-- market_books.hpp, all books and the order table: the invariant, and what keeps it.
use mathlib.Core.Path.{subst}
use opti_trade_engine.Prelude.{
  ℕ, ◌+◌, ◌≤◌, ◌<◌, ◌≡◌, ◌≢◌, ◌⊎◌, refl, sym, ap, ◌∙◌, Bool, false, List, [], ◌∷◌, Option, some,
  ◌==◌, if◌then◌else◌, arith, All, All-imp, Bool-cases, inl, inr,
}
use opti_trade_engine.Core.Types.{Price, Qty, OrderRef, Locate, Side, u32_max}
use opti_trade_engine.Book.Ladder.{no_level}
use opti_trade_engine.Book.Ladder.View.{find_level-All}
use opti_trade_engine.Book.OrderBook.{OrderBook, side_book, add_order, take}
use opti_trade_engine.Book.OrderBook.Invariant.{side_ok}
use opti_trade_engine.Book.OrderBook.Ids.{add_order-issues, take-next_id}
use opti_trade_engine.Book.MarketBooks.{OrderRecord, find_order, erase_order, shrink_order}
use opti_trade_engine.Book.MarketBooks.Held.{mine, mine_lem, part, held, part-held, just_same}
use opti_trade_engine.Book.MarketBooks.Tally.{Tally, not_mine_level, not_mine_locate}
use opti_trade_engine.Book.MarketBooks.OneBook.{order_at, add_order-Tally, take-Tally}

-- A live order has shares, and its level, if it has one, was issued by the book of its locate.
abbrev pub Known : (Locate → Option OrderBook) → OrderRef × OrderRecord → Type 0
Known books (ref, o) =
    (0 < o.qty)
    × (o.qty ≤ u32_max)
    × ((o.level ≡ no_level) ⊎ ((b : OrderBook) × (books o.locate ≡ some b) × (o.level < b.next_id)))

pub record Sound (books : Locate → Option OrderBook) (os : List (OrderRef × OrderRecord))
    : Type 0 where
  pub tallies : (l : Locate) (b : OrderBook) → books l ≡ some b → Tally l b os
  pub known : All (Known books) os

-- One book is replaced, with a change to the table that only concerns its locate.
pub replace-Sound :
    (books books' : Locate → Option OrderBook) (os os' : List (OrderRef × OrderRecord)) (l : Locate)
    (b' : OrderBook)
    → Sound books os
    → books' l ≡ some b'
    → ((k : Locate) → k ≢ l → books' k ≡ books k)
    → Tally l b' os'
    → ((k : Locate) (s : Side) (p : Price) (id : ℕ) → k ≢ l → held k s p id os' ≡ held k s p id os)
    → All (Known books') os'
    → Sound books' os'
replace-Sound books books' os os' l b' v at others t same kn = record {
  tallies = λ k b e. elim (Bool-cases (k == l)) [
    | inl here ↦
        let kl : l ≡ k = ground arith in
        let bb : b' ≡ b = just_same (sym at ∙ ap books' kl ∙ e) in
        subst (λ (x : Locate). Tally x b os') kl (subst (λ (x : OrderBook). Tally l x os') bb t)
    | inr other ↦
        let kl : k ≢ l = ground arith in
        let old = v.tallies k b (sym (others k kl) ∙ e) in
        record { valid = old.valid; exact = λ s p x h. same k s p x.id kl ∙ old.exact s p x h }
  ];
  known = kn;
}

-- The facts about known orders survive a book whose next id is no smaller.
pub Known-mono :
    (books books' : Locate → Option OrderBook) (l : Locate) (b' : OrderBook)
    → books' l ≡ some b'
    → ((k : Locate) → k ≢ l → books' k ≡ books k)
    → ((b : OrderBook) → books l ≡ some b → b.next_id ≤ b'.next_id)
    → (o : OrderRef × OrderRecord) → Known books o
    → Known books' o
Known-mono books books' l b' at others grow (ref, o) (q, f, inl z) = (q, f, inl z)
Known-mono books books' l b' at others grow (ref, o) (q, f, inr (b, e, i)) = (
  q,
  f,
  inr (elim (Bool-cases (o.locate == l)) [
    | inl here ↦
        let kl : o.locate ≡ l = ground arith in
        (b', ap books' kl ∙ at, omega (arith, i, grow b (sym (ap books kl) ∙ e)))
    | inr other ↦ (b, others o.locate (ground arith) ∙ e, i)
  ]),
)

-- An id that was not issued is no order's.
pub unissued :
    (books : Locate → Option OrderBook) (l : Locate) (id : ℕ)
    → 0 < id
    → ((b : OrderBook) → books l ≡ some b → b.next_id ≤ id)
    → (os : List (OrderRef × OrderRecord)) → All (Known books) os
    → (s : Side) (p : Price) → held l s p id os ≡ 0
unfolding held part
unissued books l id pos_id grow [] kn s p = refl
unissued books l id pos_id grow ((ref, o) ∷ os) kn s p =
    let rest = unissued books l id pos_id grow os kn.1 s p in
    elim (Bool-cases (mine l s p id o)) [
      | inr no_match ↦ rw no_match (omega (arith, rest))
      | inl m ↦
          let (loc, _, _, lv) = mine_lem l s p id o m in
          elim kn.0.2 [
            | inl z ↦ absurd (omega (arith, lv))
            | inr (b, e, i) ↦ absurd (omega (arith, lv, i, grow b (sym (ap books loc) ∙ e)))
          ]
    ]

elsewhere :
    (k : Locate) (s : Side) (p : Price) (id : ℕ) (o : OrderRecord) (ref : OrderRef)
    (os : List (OrderRef × OrderRecord))
    → o.locate ≢ k
    → held k s p id ((ref, o) ∷ os) ≡ held k s p id os
unfolding held part
elsewhere k s p id o ref os h = rw (not_mine_locate k s p id o h) (omega arith)

-- A new order on the book of a locate; `b` is that book, or a new one where there was none.
pub add-Sound :
    (books books' : Locate → Option OrderBook) (os : List (OrderRef × OrderRecord)) (l : Locate)
    (b : OrderBook) (s : Side) (p : Price) (qty : Qty) (ref : OrderRef)
    → Sound books os
    → Tally l b os
    → 0 < qty
    → qty ≤ u32_max
    → ((b0 : OrderBook) → books l ≡ some b0 → b0.next_id ≤ b.next_id)
    → books' l ≡ some (add_order s p qty b).0
    → ((k : Locate) → k ≢ l → books' k ≡ books k)
    → Sound books' ((ref, order_at l s p qty (add_order s p qty b).1) ∷ os)
add-Sound books books' os l b s p qty ref v t h f grow at others =
    let (up, new) = add_order-issues s p qty b t.valid f in
    let o = order_at l s p qty (add_order s p qty b).1 in
    replace-Sound books books' os ((ref, o) ∷ os) l (add_order s p qty b).0 v at others
      (add_order-Tally l b s p qty ref os t h f
        (unissued books l b.next_id t.valid.named grow os v.known))
      (λ k s' p' id kl. elsewhere k s' p' id o ref os (λ e. kl (sym e)))
      (
        (h, f, inr ((add_order s p qty b).0, at, new)),
        All-imp (Known books) (Known books')
            (Known-mono books books' l (add_order s p qty b).0 at others
              (λ b0 e. omega (arith, grow b0 e, up)))
            os v.known,
      )

-- What an order's level loses when its shares go down by `n`.
abbrev pub Less :
    OrderRecord → ℕ → List (OrderRef × OrderRecord) → List (OrderRef × OrderRecord) → Type 0
Less o n os' os =
    (l : Locate) (s : Side) (p : Price) (id : ℕ)
    → held l s p id os' + (if mine l s p id o then n else 0) ≡ held l s p id os

Less-elsewhere :
    (o : OrderRecord) (n : ℕ) (os' os : List (OrderRef × OrderRecord))
    → Less o n os' os
    → (k : Locate) (s : Side) (p : Price) (id : ℕ) → mine k s p id o ≡ false
    → held k s p id os' ≡ held k s p id os
Less-elsewhere o n os' os d k s p id m =
    let e : held k s p id os' + 0 ≡ held k s p id os = rw m at (d k s p id) in omega (arith, e)

-- Shares of an order on the ladder are taken off its level.
pub take-Sound :
    (books books' : Locate → Option OrderBook) (os os' : List (OrderRef × OrderRecord))
    (b : OrderBook) (o : OrderRecord) (n : ℕ) (whole : Bool) (ref : OrderRef)
    → Sound books os
    → find_order ref os ≡ some o
    → 0 < n
    → n ≤ o.qty
    → o.level ≢ no_level
    → books o.locate ≡ some b
    → Less o n os' os
    → books' o.locate ≡ some (take o.side o.price n o.level whole b).0
    → ((k : Locate) → k ≢ o.locate → books' k ≡ books k)
    → All (Known books) os'
    → Sound books' os'
take-Sound books books' os os' b o n whole ref v found h f lv e d at others kn =
    let b' = (take o.side o.price n o.level whole b).0 in
    replace-Sound books books' os os' o.locate b' v at others
      (take-Tally o.locate b o n whole os os' (v.tallies o.locate b e) f refl lv
        (λ s p id. part-held o.locate s p id ref os o found) (d o.locate) h)
      (λ k s p id kl.
        Less-elsewhere o n os' os d k s p id (not_mine_locate k s p id o (λ e. kl (sym e))))
      (All-imp (Known books) (Known books')
        (Known-mono books books' o.locate b' at others (λ b0 e0.
          let same : b0 ≡ b = just_same (sym e0 ∙ e) in
          omega (
            arith,
            ap (λ (x : OrderBook). x.next_id) same,
            take-next_id o.side o.price n o.level whole b,
          )))
        os' kn)

-- Shares of an order that is on no level.
pub off-Sound :
    (books : Locate → Option OrderBook) (os os' : List (OrderRef × OrderRecord)) (o : OrderRecord)
    (n : ℕ)
    → Sound books os
    → o.level ≡ no_level
    → Less o n os' os
    → All (Known books) os'
    → Sound books os'
off-Sound books os os' o n v z d kn = record {
  tallies = λ l b e.
      let t = v.tallies l b e in
      record {
        valid = t.valid;
        exact = λ s p x at.
            let lv = find_level-All _ p (side_book s b).levels (side_ok s b t.valid).live at in
            Less-elsewhere o n os' os d l s p x.id
              (not_mine_level l s p x.id o (λ k. absurd (omega (arith, k, z, lv.named))))
            ∙ t.exact s p x at;
      };
  known = kn;
}

pub All-erase_order :
    (P : OrderRef × OrderRecord → Type 0) (ref : OrderRef) (os : List (OrderRef × OrderRecord))
    → All P os
    → All P (erase_order ref os)
unfolding erase_order
All-erase_order P ref [] a = tt
All-erase_order P ref ((k, o) ∷ os) a = elim (Bool-cases (k == ref)) [
  | inl e ↦ rw e a.1
  | inr e ↦ rw e (a.0, All-erase_order P ref os a.1)
]

pub Known-shrink_order :
    (books : Locate → Option OrderBook) (ref : OrderRef) (n : ℕ) (o : OrderRecord)
    (os : List (OrderRef × OrderRecord))
    → find_order ref os ≡ some o
    → n < o.qty
    → All (Known books) os
    → All (Known books) (shrink_order ref n os)
unfolding shrink_order find_order
Known-shrink_order books ref n o [] h f a = tt
Known-shrink_order books ref n o ((k, x) ∷ os) h f a = elim (Bool-cases (k == ref)) [
  | inl e ↦
      let same : x ≡ o = just_same (rw e at h) in
      let q : x.qty ≡ o.qty = ap (λ (y : OrderRecord). y.qty) same in
      rw e ((omega (arith, q), omega (arith, a.0.1), a.0.2), a.1)
  | inr e ↦ rw e (a.0, Known-shrink_order books ref n o os (rw e at h) f a.1)
]
