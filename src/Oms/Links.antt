-- ===== src/Oms/Links.antt =====
-- order_manager.hpp, link() and unlink(): the links of the entries are the list of the working
-- orders, in the order of their ids.
use opti_trade_engine.Prelude.{
  ℕ, zero, suc, ◌+◌, ◌≤◌, ◌<◌, ◌≡◌, ◌≢◌, refl, sym, ◌∙◌, ap, Bool, true, false, not, List, [], ◌∷◌,
  ◌++◌, ◌==◌, if◌then◌else◌, arith, length, get_or, set, length-set, get_or-set, get_or-set_self,
  get_or-set_ne, Bool-cases, inl, inr, All, All-imp,
}
use opti_trade_engine.Core.Types.{u32_max}
use opti_trade_engine.Oms.State.{Entry, Link, Manager, blank_entry, no_link, none_slot}
use opti_trade_engine.Oms.Manager.{entry_at, link_at, set_next, set_prev, link, unlink}
use opti_trade_engine.Oms.Ledger.{one}
use opti_trade_engine.Oms.Slots.Ring.{occurs, occurs-push, All-push}
use opti_trade_engine.Oms.Links.Chain.{
  Forwards, Backwards, Distinct, without, next-prev, prev-next, first-prev, prev-first, next-last,
  last-next,
}
use opti_trade_engine.Oms.Links.Edit.{
  past, occurs-without, All-without, Forwards-without, Backwards-without, Forwards-push,
  Backwards-push,
}
pub mod Chain
pub mod Edit
pub mod Keep
pub mod Append

-- The values of `f` along a list rise, above `low` and below `high`.
abbrev pub Rising : (ℕ → ℕ) → ℕ → ℕ → List ℕ → Type 0
Rising f low high [] = low < high
Rising f low high (i ∷ is) = (low < f i) × Rising f (f i) high is

abbrev pub id_at : List Entry → ℕ → ℕ
id_at os i = (get_or os i blank_entry).info.id

abbrev pub next_at : List Link → ℕ → ℕ
next_at ls i = (link_at ls i).next

abbrev pub prev_at : List Link → ℕ → ℕ
prev_at ls i = (link_at ls i).prev

pub record Linked (os : List Entry) (ls : List Link) (head tail next_id : ℕ) : Type 0 where
  pub working : List ℕ
  pub fits : length ls ≡ length os
  pub few : length os < u32_max
  pub inside : All (λ i. i < length os) working
  pub once : (i : ℕ) → i < length os → occurs i working ≡ one (get_or os i blank_entry)
  pub forwards : Forwards none_slot (next_at ls) head working
  pub backwards : Backwards (prev_at ls) none_slot tail working
  pub rising : Rising (id_at os) 0 next_id working

pub Rising-eq :
    (f g : ℕ → ℕ) (low high : ℕ) (is : List ℕ)
    → ((i : ℕ) → 0 < occurs i is → g i ≡ f i)
    → Rising f low high is
    → Rising g low high is
unfolding occurs
Rising-eq f g low high [] same r = r
Rising-eq f g low high (i ∷ is) same r =
    let e = same i (ground arith) in
    (rw e r.0, rw e (Rising-eq f g (f i) high is (λ j m. same j (omega (arith, m))) r.1))

pub Rising-low :
    (f : ℕ → ℕ) (low low' high : ℕ) (is : List ℕ)
    → low ≤ low'
    → Rising f low' high is
    → Rising f low high is
Rising-low f low low' high [] h r = omega arith
Rising-low f low low' high (i ∷ is) h r = (omega (arith, r.0), r.1)

pub Rising-without :
    (f : ℕ → ℕ) (s low high : ℕ) (is : List ℕ)
    → Rising f low high is
    → Rising f low high (without s is)
unfolding without
Rising-without f s low high [] r = r
Rising-without f s low high (i ∷ is) r = elim (Bool-cases (i == s)) [
  | inl here ↦
      rw here
        (Rising-without f s low high is (Rising-low f low (f i) high is (omega (arith, r.0)) r.1))
  | inr there ↦ rw there (r.0, Rising-without f s (f i) high is r.1)
]

pub Rising-push :
    (f : ℕ → ℕ) (s low high : ℕ) (is : List ℕ)
    → f s ≡ high
    → Rising f low high is
    → Rising f low (high + 1) (is ++ s ∷ [])
Rising-push f s low high [] e r = (omega (arith, e, r), omega (arith, e))
Rising-push f s low high (i ∷ is) e r = (r.0, Rising-push f s (f i) high is e r.1)

pub outside : (n i : ℕ) (is : List ℕ) → All (λ j. j < n) is → n ≤ i → occurs i is ≡ 0
unfolding occurs
outside n i [] a h = refl
outside n i (j ∷ is) a h = ground (arith, a.0, outside n i is a.1 h)

-- A cell of the links after a write.
pub link_here :
    (ls : List Link) (i j : ℕ) (l : Link)
    → j < length ls
    → (i == j) ≡ true
    → link_at (set ls i l) j ≡ l
link_here ls i j l h here =
    let ij : i ≡ j = ground arith in rw ij (get_or-set_self ls j l no_link h)

pub link_there :
    (ls : List Link) (i j : ℕ) (l : Link) → (i == j) ≡ false → link_at (set ls i l) j ≡ link_at ls j
link_there ls i j l there = let apart : i ≢ j = ground arith in get_or-set_ne ls i j l no_link apart

module _ (ls : List Link) (i j n : ℕ) (h : j < length ls) where
  pub next-set_next : next_at (set_next ls i n) j ≡ (if i == j then n else next_at ls j)
  next-set_next = elim (Bool-cases (i == j)) [
    | inl here ↦ rw here (ap (λ (l : Link). l.next) (link_here ls i j _ h here))
    | inr there ↦ rw there (ap (λ (l : Link). l.next) (link_there ls i j _ there))
  ]

  pub prev-set_next : prev_at (set_next ls i n) j ≡ prev_at ls j
  prev-set_next = elim (Bool-cases (i == j)) [
    | inl here ↦
        let ij : i ≡ j = ground arith in
        ap (λ (l : Link). l.prev) (link_here ls i j _ h here) ∙ ap (prev_at ls) ij
    | inr there ↦ ap (λ (l : Link). l.prev) (link_there ls i j _ there)
  ]

  prev-set_prev : prev_at (set_prev ls i n) j ≡ (if i == j then n else prev_at ls j)
  prev-set_prev = elim (Bool-cases (i == j)) [
    | inl here ↦ rw here (ap (λ (l : Link). l.prev) (link_here ls i j _ h here))
    | inr there ↦ rw there (ap (λ (l : Link). l.prev) (link_there ls i j _ there))
  ]

  next-set_prev : next_at (set_prev ls i n) j ≡ next_at ls j
  next-set_prev = elim (Bool-cases (i == j)) [
    | inl here ↦
        let ij : i ≡ j = ground arith in
        ap (λ (l : Link). l.next) (link_here ls i j _ h here) ∙ ap (next_at ls) ij
    | inr there ↦ ap (λ (l : Link). l.next) (link_there ls i j _ there)
  ]

-- A write under a test, as `unlink` makes them.
pub length-if_set_next :
    (b : Bool) (ls : List Link) (i n : ℕ) → length (if b then ls else set_next ls i n) ≡ length ls
length-if_set_next true ls i n = refl
length-if_set_next false ls i n = length-set ls i _

length-if_set_prev :
    (b : Bool) (ls : List Link) (i n : ℕ) → length (if b then ls else set_prev ls i n) ≡ length ls
length-if_set_prev true ls i n = refl
length-if_set_prev false ls i n = length-set ls i _

next-if_set_prev :
    (b : Bool) (ls : List Link) (i j n : ℕ)
    → j < length ls
    → next_at (if b then ls else set_prev ls i n) j ≡ next_at ls j
next-if_set_prev true ls i j n h = refl
next-if_set_prev false ls i j n h = next-set_prev ls i j n h

pub prev-if_set_next :
    (b : Bool) (ls : List Link) (i j n : ℕ)
    → j < length ls
    → prev_at (if b then ls else set_next ls i n) j ≡ prev_at ls j
prev-if_set_next true ls i j n h = refl
prev-if_set_next false ls i j n h = prev-set_next ls i j n h

pub next-if_set_next :
    (b : Bool) (ls : List Link) (i j n : ℕ)
    → j < length ls
    → (b ≡ true → i ≢ j)
    → next_at (if b then ls else set_next ls i n) j ≡ (if i == j then n else next_at ls j)
next-if_set_next true ls i j n h apart =
    let e : (i == j) ≡ false = ground (arith, apart refl) in rw e refl
next-if_set_next false ls i j n h apart = next-set_next ls i j n h

prev-if_set_prev :
    (b : Bool) (ls : List Link) (i j n : ℕ)
    → j < length ls
    → (b ≡ true → i ≢ j)
    → prev_at (if b then ls else set_prev ls i n) j ≡ (if i == j then n else prev_at ls j)
prev-if_set_prev true ls i j n h apart =
    let e : (i == j) ≡ false = ground (arith, apart refl) in rw e refl
prev-if_set_prev false ls i j n h apart = prev-set_prev ls i j n h

-- The links that `unlink` leaves at the other working orders.
module _ (m : Manager) (slot j : ℕ) (h : j < length m.links) (real : j ≢ none_slot)
    (other : j ≢ slot) where
  not_here : (slot == j) ≡ false
  not_here = ground arith

  pub next-unlink :
      next_at (unlink slot m).links j
      ≡ (if prev_at m.links slot == j then next_at m.links slot else next_at m.links j)
  unfolding unlink
  next-unlink =
      let own = link_at m.links slot in
      let first = own.prev == none_slot in
      let before = if first then m.links else set_next m.links own.prev own.next in
      ap (λ (l : Link). l.next) (link_there _ slot j no_link not_here)
      ∙ next-if_set_prev (own.next == none_slot) before own.next j own.prev
          (rw (length-if_set_next first m.links own.prev own.next) h)
      ∙ next-if_set_next first m.links own.prev j own.next h (λ e. ground (arith, e))

  pub prev-unlink :
      prev_at (unlink slot m).links j
      ≡ (if next_at m.links slot == j then prev_at m.links slot else prev_at m.links j)
  unfolding unlink
  prev-unlink =
      let own = link_at m.links slot in
      let first = own.prev == none_slot in
      let before = if first then m.links else set_next m.links own.prev own.next in
      let kept = prev-if_set_next first m.links own.prev j own.next h in
      ap (λ (l : Link). l.prev) (link_there _ slot j no_link not_here)
      ∙ prev-if_set_prev (own.next == none_slot) before own.next j own.prev
          (rw (length-if_set_next first m.links own.prev own.next) h) (λ e. ground (arith, e))
      ∙ ap (λ (x : ℕ). if own.next == j then own.prev else x) kept

pub length-unlink : (m : Manager) (slot : ℕ) → length (unlink slot m).links ≡ length m.links
unfolding unlink
length-unlink m slot =
    let own = link_at m.links slot in
    let first = own.prev == none_slot in
    length-set _ slot no_link
    ∙ length-if_set_prev (own.next == none_slot)
        (if first then m.links else set_next m.links own.prev own.next) own.next own.prev
    ∙ length-if_set_next first m.links own.prev own.next
