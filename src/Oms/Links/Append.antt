-- ===== src/Oms/Links/Append.antt =====
-- order_manager.hpp, link(): a new order is put at the end of the list of working orders.
use opti_trade_engine.Prelude.{
  ℕ, ◌+◌, ◌<◌, ◌≡◌, ◌≢◌, refl, sym, ◌∙◌, ap, true, false, List, [], ◌∷◌, ◌++◌, ◌==◌, if◌then◌else◌,
  arith, length, get_or, set, length-set, Bool-cases, inl, inr, All,
}
use opti_trade_engine.Oms.State.{Entry, Link, Manager, blank_entry, none_slot}
use opti_trade_engine.Oms.Manager.{link}
use opti_trade_engine.Oms.Ledger.{one}
use opti_trade_engine.Oms.Slots.{cell_of}
use opti_trade_engine.Oms.Slots.Ring.{occurs, occurs-push, All-push}
use opti_trade_engine.Oms.Links.Chain.{Forwards, Backwards, next-last, last-next, last_in}
use opti_trade_engine.Oms.Links.Edit.{past, Forwards-push, Backwards-push}
use opti_trade_engine.Oms.Links.{
  Rising-eq, Rising-push, Linked, id_at, next_at, prev_at, link_here, link_there, next-if_set_next,
  prev-if_set_next, length-if_set_next,
}
use opti_trade_engine.Oms.Links.Keep.{real_slots, in_range, distinct}

real_member : (z t : ℕ) (is : List ℕ) → All (λ i. i ≢ z) is → 0 < occurs t is → t ≢ z
unfolding occurs
real_member z t [] a k = elim k [ ]
real_member z t (i ∷ is) a k = elim (Bool-cases (t == i)) [
  | inl here ↦ ground (arith, a.0)
  | inr there ↦ real_member z t is a.1 (ground arith)
]

-- The two ends of the list are both there, or neither is.
ends_agree :
    (z : ℕ) (next prev : ℕ → ℕ) (c t : ℕ) (is : List ℕ)
    → All (λ i. i ≢ z) is
    → Forwards z next c is
    → Backwards prev z t is
    → (c == z) ≡ (t == z)
ends_agree z next prev c t [] a f b = ground arith
ends_agree z next prev c t (i ∷ is) a f b = elim (last_in z next prev i t is b.1) [
  | inl here ↦ ground (arith, here, a.0, f.0)
  | inr later ↦ ground (arith, real_member z t is a.1 later, a.0, f.0)
]

module _ (m : Manager) (os : List Entry) (slot n : ℕ) (e : Entry)
    (v : Linked os m.links m.head m.tail n) (h : slot < length os)
    (idle : one (get_or os slot blank_entry) ≡ 0) (works_now : one e ≡ 1) (id : e.info.id ≡ n) where
  absent : occurs slot v.working ≡ 0
  absent = v.once slot h ∙ idle

  apart : (j : ℕ) → 0 < occurs j v.working → j ≢ slot
  apart j k same = ground (arith, absent, ap (λ (i : ℕ). occurs i v.working) same)

  abbrev own : List Link
  own = set m.links slot (record { prev = m.tail; next = none_slot })

  tail_apart : m.tail ≢ slot
  tail_apart same =
      elim (last_in none_slot (next_at m.links) (prev_at m.links) none_slot m.tail v.working
        v.backwards) [
          | inl none_on ↦ omega (arith, none_on, same, h, v.few)
          | inr there ↦ apart m.tail there same
        ]

  next_pushed :
      (j : ℕ)
      → 0 < occurs j v.working
      → next_at (link slot m).links j ≡ past none_slot slot (next_at m.links j)
  unfolding link
  next_pushed j k =
      let in_os = in_range _ _ _ _ _ v j k in
      let in_own : j < length own = rw (length-set m.links slot _) (omega (arith, v.fits, in_os)) in
      let other : (slot == j) ≡ false = ground (arith, apart j k) in
      let there =
        next-last none_slot (next_at m.links) (prev_at m.links) j m.head none_slot m.tail v.working
          (real_slots _ _ _ _ _ v) v.forwards v.backwards k in
      let back =
        last-next none_slot (next_at m.links) (prev_at m.links) j m.head none_slot m.tail v.working
          (distinct _ _ _ _ _ v) v.forwards v.backwards k in
      next-if_set_next (m.tail == none_slot) own m.tail j slot in_own
        (λ e. ground (arith, e, in_os, v.few))
      ∙ ap (λ (x : ℕ). if m.tail == j then slot else x)
          (ap (λ (l : Link). l.next) (link_there m.links slot j _ other))
      ∙ ground (arith, there, back)

  prev_pushed : (j : ℕ) → 0 < occurs j v.working → prev_at (link slot m).links j ≡ prev_at m.links j
  unfolding link
  prev_pushed j k =
      let in_own : j < length own =
        rw (length-set m.links slot _) (omega (arith, v.fits, in_range _ _ _ _ _ v j k)) in
      let other : (slot == j) ≡ false = ground (arith, apart j k) in
      prev-if_set_next (m.tail == none_slot) own m.tail j slot in_own
      ∙ ap (λ (l : Link). l.prev) (link_there m.links slot j _ other)

  own_next : next_at (link slot m).links slot ≡ none_slot
  unfolding link
  own_next =
      let in_links : slot < length m.links = omega (arith, v.fits, h) in
      let in_own : slot < length own = rw (length-set m.links slot _) in_links in
      let same : (slot == slot) ≡ true = ground arith in
      let other : (m.tail == slot) ≡ false = ground (arith, tail_apart) in
      next-if_set_next (m.tail == none_slot) own m.tail slot slot in_own (λ e. tail_apart)
      ∙ rw other (ap (λ (l : Link). l.next) (link_here m.links slot slot _ in_links same))

  own_prev : prev_at (link slot m).links slot ≡ m.tail
  unfolding link
  own_prev =
      let in_links : slot < length m.links = omega (arith, v.fits, h) in
      let in_own : slot < length own = rw (length-set m.links slot _) in_links in
      let same : (slot == slot) ≡ true = ground arith in
      prev-if_set_next (m.tail == none_slot) own m.tail slot slot in_own
      ∙ ap (λ (l : Link). l.prev) (link_here m.links slot slot _ in_links same)

  new_id : id_at (set os slot e) slot ≡ e.info.id
  new_id =
      let same : (slot == slot) ≡ true = ground arith in
      cell_of (λ x. x.info.id) os slot slot e h ∙ rw same refl

  old_ids : (i : ℕ) → 0 < occurs i v.working → id_at (set os slot e) i ≡ id_at os i
  old_ids i k =
      let other : (slot == i) ≡ false = ground (arith, apart i k) in
      cell_of (λ x. x.info.id) os slot i e h ∙ rw other refl

  pub link-Linked :
      Linked (set os slot e) (link slot m).links (link slot m).head (link slot m).tail (n + 1)
  unfolding link
  link-Linked =
      let k = length-set os slot e in
      let ends =
        ends_agree none_slot (next_at m.links) (prev_at m.links) m.head m.tail v.working
          (real_slots _ _ _ _ _ v) v.forwards v.backwards in
      let new_head : (if m.tail == none_slot then slot else m.head) ≡ past none_slot slot m.head =
        ground (arith, ends) in
      record {
        working = v.working ++ slot ∷ [];
        fits =
            length-if_set_next (m.tail == none_slot) own m.tail slot
            ∙ length-set m.links slot _
            ∙ v.fits
            ∙ sym k;
        few = rw k v.few;
        inside = rw k (All-push (λ i. i < length os) slot v.working v.inside h);
        once = λ i j. ground (
          arith,
          occurs-push i slot v.working,
          v.once i (rw k at j),
          cell_of one os slot i e h,
          works_now,
          absent,
        );
        forwards = rw new_head (
            Forwards-push none_slot (next_at m.links) (next_at (link slot m).links) slot m.head
              v.working next_pushed own_next (real_slots _ _ _ _ _ v) v.forwards);
        backwards =
            Backwards-push (prev_at m.links) (prev_at (link slot m).links) slot none_slot m.tail
              v.working prev_pushed own_prev v.backwards;
        rising =
            Rising-push (id_at (set os slot e)) slot 0 n v.working (new_id ∙ id)
              (Rising-eq (id_at os) (id_at (set os slot e)) 0 n v.working old_ids v.rising);
      }
