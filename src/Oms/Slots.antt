-- ===== src/Oms/Slots.antt =====
-- order_manager.hpp, the slots of the order table: the used ones come first, the ring holds each
-- finished one once, and the tables of ids and tokens name used ones.
use native.Mathlib.Nat.{mod-lt}
use opti_trade_engine.Prelude.{
  ℕ, zero, suc, ◌+◌, ◌-◌, ◌%◌, ◌≤◌, ◌<◌, ◌≡◌, ◌≢◌, refl, sym, ◌∙◌, ap, Bool, true, false, ◌&&◌,
  ◌||◌, not, List, [], ◌∷◌, ◌++◌, Option, some, none, ◌==◌, if◌then◌else◌, arith, length, get_or,
  set, All, All-imp, length-set, get_or-set, Bool-cases, Option-cases, inl, inr, leb, ltb,
}
use opti_trade_engine.Core.Table.{find, erase, insert, has}
use opti_trade_engine.Oms.Types.{is_terminal}
use opti_trade_engine.Oms.State.{Entry, blank_entry}
use opti_trade_engine.Oms.Slots.Ring.{window, occurs, turn-lt, window-push, occurs-push, All-push}
pub mod Ring

abbrev pub done : Entry → Bool
done e = not (e.info.id == 0) && is_terminal e.info.status

abbrev pub no_id : Entry → Bool
no_id e = e.info.id == 0

abbrev pub Below : ℕ → ℕ × ℕ → Type 0
Below n (k, slot) = slot < n

pub record Slots (os : List Entry) (finished : List ℕ) (head count fresh open_count : ℕ)
    (by_id tokens : List (ℕ × ℕ)) : Type 0 where
  pub ring : length finished ≡ length os
  pub head_in : 0 < length os → head < length os
  pub once :
      (i : ℕ)
      → i < length os
      → occurs i (window (length os) finished head count)
        ≡ (if done (get_or os i blank_entry) then 1 else 0)
  pub inside : All (λ i. i < length os) (window (length os) finished head count)
  pub total : count + open_count ≡ fresh
  pub few : fresh ≤ length os
  pub used : (i : ℕ) → i < fresh → ((get_or os i blank_entry).info.id == 0) ≡ false
  pub unused : (i : ℕ) → fresh ≤ i → ((get_or os i blank_entry).info.id == 0) ≡ true
  pub ids : All (Below fresh) by_id
  pub names : All (Below fresh) tokens

-- What a table names is in it.
pub find-All :
    (P : ℕ × ℕ → Type 0) (k slot : ℕ) (m : List (ℕ × ℕ))
    → All P m
    → find k m ≡ some slot
    → P (k, slot)
find-All P k slot [] a h = cc
find-All P k slot ((j, x) ∷ m) a h = elim (Bool-cases (j == k)) [
  | inl same ↦
      let kept : ◌≡◌ {A = Option ℕ} (some x) (some slot) = rw same at h in
      let here = ap (λ (o : Option ℕ). elim o [ none ↦ x | some y ↦ y ]) kept in
      let key : j ≡ k = ground arith in rw (← key, ← here) a.0
  | inr other ↦ find-All P k slot m a.1 (rw other at h)
]

pub All-erase : (P : ℕ × ℕ → Type 0) (k : ℕ) (m : List (ℕ × ℕ)) → All P m → All P (erase k m)
All-erase P k [] a = tt
All-erase P k ((j, x) ∷ m) a = elim (Bool-cases (j == k)) [
  | inl same ↦ rw same (All-erase P k m a.1)
  | inr other ↦ rw other (a.0, All-erase P k m a.1)
]

pub All-insert :
    (P : ℕ × ℕ → Type 0) (max k slot : ℕ) (m : List (ℕ × ℕ))
    → All P m
    → P (k, slot)
    → All P (insert max k slot m).0
All-insert P max k slot m a p = elim (Bool-cases (has k m || leb max (length m))) [
  | inl full ↦ rw full a
  | inr room ↦ rw room (p, a)
]

-- What a write keeps of the cell, it keeps of every cell.
pub kept_cell {ℓ} :
    {B : Type ℓ} (f : Entry → B) (os : List Entry) (i j : ℕ) (e : Entry)
    → i < length os
    → f e ≡ f (get_or os i blank_entry)
    → f (get_or (set os i e) j blank_entry) ≡ f (get_or os j blank_entry)
kept_cell f os i j e h same = elim (Bool-cases (i == j)) [
  | inl here ↦
      let ij : i ≡ j = ground arith in
      ap f (get_or-set os i j e blank_entry h)
      ∙ rw here (same ∙ ap (λ (k : ℕ). f (get_or os k blank_entry)) ij)
  | inr there ↦ ap f (get_or-set os i j e blank_entry h) ∙ rw there refl
]

-- A property of a cell after a write.
pub cell_of {ℓ} :
    {B : Type ℓ} (f : Entry → B) (os : List Entry) (i j : ℕ) (e : Entry)
    → i < length os
    → f (get_or (set os i e) j blank_entry) ≡ (if i == j then f e else f (get_or os j blank_entry))
cell_of f os i j e h = elim (Bool-cases (i == j)) [
  | inl here ↦ rw here (ap f (get_or-set os i j e blank_entry h ∙ rw here refl))
  | inr there ↦ rw there (ap f (get_or-set os i j e blank_entry h ∙ rw there refl))
]

module _ (os : List Entry) (finished : List ℕ) (head count fresh open_count : ℕ)
    (by_id tokens : List (ℕ × ℕ))
    (v : Slots os finished head count fresh open_count by_id tokens) where
  -- An entry that stays finished or not, with its id.
  pub put-Slots :
      (i : ℕ) (e : Entry)
      → i < length os
      → (e.info.id == 0) ≡ ((get_or os i blank_entry).info.id == 0)
      → done e ≡ done (get_or os i blank_entry)
      → Slots (set os i e) finished head count fresh open_count by_id tokens
  put-Slots i e h same_id same_done = record {
    ring = v.ring ∙ sym (length-set os i e);
    head_in = λ f. rw (length-set os i e) (v.head_in (rw (length-set os i e) at f));
    once = λ j k. rw (length-set os i e) (
        v.once j (rw (length-set os i e) at k)
        ∙ ap (λ (b : Bool). if b then 1 else 0) (sym (kept_cell done os i j e h same_done)));
    inside = rw (length-set os i e) v.inside;
    total = v.total;
    few = rw (length-set os i e) v.few;
    used = λ j k. kept_cell (λ x. x.info.id == 0) os i j e h same_id ∙ v.used j k;
    unused = λ j k. kept_cell (λ x. x.info.id == 0) os i j e h same_id ∙ v.unused j k;
    ids = v.ids;
    names = v.names;
  }

  once_more :
      (i j : ℕ) (e : Entry)
      → i < length os
      → done (get_or os i blank_entry) ≡ false
      → done e ≡ true
      → j < length os
      → occurs j (window (length os) finished head count) + (if j == i then 1 else 0)
        ≡ (if done (get_or (set os i e) j blank_entry) then 1 else 0)
  once_more i j e h working ends k = elim (Bool-cases (i == j)) [
    | inl here ↦
        let ij : i ≡ j = ground arith in
        let old : done (get_or os j blank_entry) ≡ false = rw (← ij) working in
        let new : done (get_or (set os i e) j blank_entry) ≡ true =
          cell_of done os i j e h ∙ rw here ends in
        rw new (ap (λ (x : ℕ). x + (if j == i then 1 else 0)) (v.once j k) ∙ rw old (ground arith))
    | inr there ↦
        let new : done (get_or (set os i e) j blank_entry) ≡ done (get_or os j blank_entry) =
          cell_of done os i j e h ∙ rw there refl in
        rw new (ap (λ (x : ℕ). x + (if j == i then 1 else 0)) (v.once j k) ∙ ground arith)
  ]

  -- A working entry is finished: its slot goes behind the ring.
  pub end-Slots :
      (i : ℕ) (e : Entry) (tokens' : List (ℕ × ℕ))
      → i < fresh
      → 0 < open_count
      → done (get_or os i blank_entry) ≡ false
      → done e ≡ true
      → All (Below fresh) tokens'
      → Slots
          (set os i e)
          (set finished ((head + count) % length finished) i)
          head
          (count + 1)
          fresh
          (open_count - 1)
          by_id
          tokens'
  end-Slots i e tokens' used_slot some_open working ends names =
      let n = length os in
      let h : i < n = omega (arith, v.few) in
      let len = length-set os i e in
      let first = v.head_in (omega (arith, v.few)) in
      let room : count < n = omega (arith, v.total, v.few) in
      let pushed : window n (set finished ((head + count) % length finished) i) head (count + 1)
          ≡ window n finished head count ++ i ∷ [] =
        rw v.ring (
          ap (window n (set finished ((head + count) % n) i) head) (omega arith)
          ∙ window-push finished n head count i v.ring first room) in
      let same_id : (e.info.id == 0) ≡ ((get_or os i blank_entry).info.id == 0) =
        ground (arith, v.used i used_slot, ends) in
      record {
        ring = length-set finished _ i ∙ v.ring ∙ sym len;
        head_in = λ f. rw len first;
        once = λ j k.
            rw (len, pushed)
              (occurs-push j i (window n finished head count)
                ∙ once_more i j e h working ends (rw len at k));
        inside =
            rw (len, pushed) (All-push (λ x. x < n) i (window n finished head count) v.inside h);
        total = omega (arith, v.total);
        few = rw len v.few;
        used = λ j k. kept_cell (λ x. x.info.id == 0) os i j e h same_id ∙ v.used j k;
        unused = λ j k. kept_cell (λ x. x.info.id == 0) os i j e h same_id ∙ v.unused j k;
        ids = v.ids;
        names = names;
      }

  -- A slot that was never used is taken.
  pub take_fresh-Slots :
      (e : Entry) (by_id' tokens' : List (ℕ × ℕ))
      → fresh < length os
      → (e.info.id == 0) ≡ false
      → done e ≡ false
      → All (Below (fresh + 1)) by_id'
      → All (Below (fresh + 1)) tokens'
      → Slots (set os fresh e) finished head count (fresh + 1) (open_count + 1) by_id' tokens'
  take_fresh-Slots e by_id' tokens' h real works ids names =
      let len = length-set os fresh e in
      let was : done e ≡ done (get_or os fresh blank_entry) =
        ground (arith, works, v.unused fresh (omega arith)) in
      record {
        ring = v.ring ∙ sym len;
        head_in = λ f. rw len (v.head_in (rw len at f));
        once = λ j k. rw (len, kept_cell done os fresh j e h was) (v.once j (rw len at k));
        inside = rw len v.inside;
        total = omega (arith, v.total);
        few = rw len (omega arith);
        used = λ j k. cell_of no_id os fresh j e h ∙ ground (arith, v.used j);
        unused = λ j k. cell_of no_id os fresh j e h ∙ ground (arith, v.unused j);
        ids = ids;
        names = names;
      }

-- The slot of the oldest finished order is taken.
module _ (os : List Entry) (finished : List ℕ) (head c fresh open_count : ℕ)
    (by_id tokens : List (ℕ × ℕ))
    (v : Slots os finished head (suc c) fresh open_count by_id tokens) where
  abbrev pub oldest : ℕ
  oldest = get_or finished head 0

  pub oldest-done : (oldest < length os) × (done (get_or os oldest blank_entry) ≡ true)
  unfolding window occurs
  oldest-done =
      let inside : oldest < length os = v.inside.0 in (inside, ground (arith, v.once oldest inside))

  pub oldest-lt-fresh : oldest < fresh
  oldest-lt-fresh = ground (arith, v.unused oldest, oldest-done.1)

  once_less :
      (e : Entry)
      → done e ≡ false
      → (j : ℕ) → j < length os
      → occurs j (window (length os) finished ((head + 1) % length os) c)
        ≡ (if done (get_or (set os oldest e) j blank_entry) then 1 else 0)
  unfolding window occurs
  once_less e works j k = elim (Bool-cases (oldest == j)) [
    | inl here ↦
        let ij : oldest ≡ j = ground arith in
        let old : done (get_or os j blank_entry) ≡ true = rw (← ij) oldest-done.1 in
        let new : done (get_or (set os oldest e) j blank_entry) ≡ false =
          cell_of done os oldest j e oldest-done.0 ∙ rw here works in
        rw new (ground (arith, v.once j k, old))
    | inr there ↦
        let new : done (get_or (set os oldest e) j blank_entry) ≡ done (get_or os j blank_entry) =
          cell_of done os oldest j e oldest-done.0 ∙ rw there refl in
        rw new (ground (arith, v.once j k))
  ]

  pub take_oldest-Slots :
      (e : Entry) (by_id' tokens' : List (ℕ × ℕ))
      → (e.info.id == 0) ≡ false
      → done e ≡ false
      → All (Below fresh) by_id'
      → All (Below fresh) tokens'
      → Slots
          (set os oldest e)
          finished
          ((head + 1) % length finished)
          c
          fresh
          (open_count + 1)
          by_id'
          tokens'
  unfolding window occurs
  take_oldest-Slots e by_id' tokens' real works ids names =
      let len = length-set os oldest e in
      let h = oldest-done.0 in
      let first : head < length os = v.head_in (omega arith) in
      let was : no_id e ≡ no_id (get_or os oldest blank_entry) = ground (arith, oldest-done.1) in
      record {
        ring = v.ring ∙ sym len;
        head_in = λ f. rw (len, v.ring) (mod-lt (head + 1) (omega arith));
        once = λ j k. rw (len, v.ring) (once_less e works j (rw len at k));
        inside = rw (len, v.ring) v.inside.1;
        total = omega (arith, v.total);
        few = rw len v.few;
        used = λ j k. kept_cell no_id os oldest j e h was ∙ v.used j k;
        unused = λ j k. kept_cell no_id os oldest j e h was ∙ v.unused j k;
        ids = ids;
        names = names;
      }
