-- ===== src/Oms/Links/Keep.antt =====
-- order_manager.hpp, link() and unlink(): they keep the list of working orders.
use mathlib.Core.Path.{subst}
use opti_trade_engine.Prelude.{
  ℕ, ◌<◌, ◌≡◌, ◌≢◌, sym, ◌∙◌, List, arith, length, get_or, set, length-set, All, All-imp,
}
use opti_trade_engine.Oms.State.{Entry, Link, Manager, blank_entry, none_slot}
use opti_trade_engine.Oms.Manager.{entry_at, unlink}
use opti_trade_engine.Oms.Ledger.{one}
use opti_trade_engine.Oms.Slots.{kept_cell, cell_of}
use opti_trade_engine.Oms.Slots.Ring.{occurs}
use opti_trade_engine.Oms.Links.Chain.{
  Backwards, Distinct, without, next-prev, prev-next, first-prev, prev-first, next-last, last-next,
  next-apart,
}
use opti_trade_engine.Oms.Links.Edit.{
  past, occurs-without, All-without, Forwards-without, Backwards-without,
}
use opti_trade_engine.Oms.Links.{
  Rising-eq, Rising-without, Linked, id_at, next_at, prev_at, outside, next-unlink, prev-unlink,
  length-unlink,
}

-- An entry that keeps its id and that works as before.
pub put-Linked :
    (os : List Entry) (ls : List Link) (head tail next_id slot : ℕ) (e : Entry)
    → Linked os ls head tail next_id
    → slot < length os
    → (get_or os slot blank_entry).info.id ≡ e.info.id
    → one (get_or os slot blank_entry) ≡ one e
    → Linked (set os slot e) ls head tail next_id
put-Linked os ls head tail next_id slot e v h id same =
    let n = length-set os slot e in
    record {
      working = v.working;
      fits = v.fits ∙ sym n;
      few = rw n v.few;
      inside = rw n v.inside;
      once = λ i k. v.once i (rw n at k) ∙ sym (kept_cell one os slot i e h (sym same));
      forwards = v.forwards;
      backwards = v.backwards;
      rising =
          Rising-eq (id_at os) (id_at (set os slot e)) 0 next_id v.working
            (λ i m. kept_cell (λ x. x.info.id) os slot i e h (sym id)) v.rising;
    }

-- What the list says of its slots.
module _ (os : List Entry) (ls : List Link) (head tail next_id : ℕ)
    (v : Linked os ls head tail next_id) where
  pub real_slots : All (λ i. i ≢ none_slot) v.working
  real_slots =
      All-imp (λ i. i < length os) (λ i. i ≢ none_slot) (λ i k. omega (arith, v.few)) v.working
        v.inside

  pub in_range : (i : ℕ) → 0 < occurs i v.working → i < length os
  in_range i k = ground (arith, outside (length os) i v.working v.inside)

  pub distinct : Distinct v.working
  distinct i = ground (arith, v.once i, outside (length os) i v.working v.inside)

-- An order that is finished: it is unlinked, and the rest of the list is as it was.
module _ (m : Manager) (slot : ℕ) (e : Entry) (v : Linked m.orders m.links m.head m.tail m.next_id)
    (h : slot < length m.orders) (id : (entry_at m slot).info.id ≡ e.info.id)
    (was : one (entry_at m slot) ≡ 1) (gone : one e ≡ 0) where
  mine : 0 < occurs slot v.working
  mine = omega (arith, v.once slot h, was)

  slot_real : slot ≢ none_slot
  slot_real = omega (arith, h, v.few)

  next_apart : next_at m.links slot ≢ slot
  next_apart =
      next-apart none_slot (next_at m.links) (prev_at m.links) slot m.head v.working
        (distinct _ _ _ _ _ v) v.forwards mine slot_real

  prev_apart : prev_at m.links slot ≢ slot
  prev_apart e = next_apart (
      prev-next none_slot (next_at m.links) (prev_at m.links) slot slot m.head m.tail v.working
        v.forwards v.backwards mine slot_real e)

  -- The links of the others.
  next_past :
      (j : ℕ)
      → 0 < occurs j v.working
      → j ≢ slot
      → next_at (unlink slot m).links j ≡ past slot (next_at m.links slot) (next_at m.links j)
  next_past j k other =
      let z = none_slot in
      let in_links : j < length m.links = omega (arith, v.fits, in_range _ _ _ _ _ v j k) in
      let real : j ≢ none_slot = omega (arith, v.few, in_range _ _ _ _ _ v j k) in
      let there =
        prev-next z (next_at m.links) (prev_at m.links) slot j m.head m.tail v.working v.forwards
          v.backwards mine real in
      let back =
        next-prev z (next_at m.links) (prev_at m.links) j slot m.head z m.tail v.working v.forwards
          v.backwards k slot_real in
      next-unlink m slot j in_links real other ∙ ground (arith, there, back)

  prev_past :
      (j : ℕ)
      → 0 < occurs j v.working
      → j ≢ slot
      → prev_at (unlink slot m).links j ≡ past slot (prev_at m.links slot) (prev_at m.links j)
  prev_past j k other =
      let z = none_slot in
      let in_links : j < length m.links = omega (arith, v.fits, in_range _ _ _ _ _ v j k) in
      let real : j ≢ none_slot = omega (arith, v.few, in_range _ _ _ _ _ v j k) in
      let there =
        prev-next z (next_at m.links) (prev_at m.links) j slot m.head m.tail v.working v.forwards
          v.backwards k slot_real in
      let back =
        next-prev z (next_at m.links) (prev_at m.links) slot j m.head z m.tail v.working v.forwards
          v.backwards mine real in
      prev-unlink m slot j in_links real other ∙ ground (arith, there, back)

  head_past : (unlink slot m).head ≡ past slot (next_at m.links slot) m.head
  unfolding unlink
  head_past =
      let z = none_slot in
      let there =
        prev-first z (next_at m.links) (prev_at m.links) slot m.head m.tail v.working
          (real_slots _ _ _ _ _ v) v.forwards v.backwards mine in
      let back =
        first-prev z (next_at m.links) (prev_at m.links) slot m.head m.tail v.working v.forwards
          v.backwards mine in
      ground (arith, there, back)

  tail_past : (unlink slot m).tail ≡ past slot (prev_at m.links slot) m.tail
  unfolding unlink
  tail_past =
      let z = none_slot in
      let there =
        next-last z (next_at m.links) (prev_at m.links) slot m.head z m.tail v.working
          (real_slots _ _ _ _ _ v) v.forwards v.backwards mine in
      let back =
        last-next z (next_at m.links) (prev_at m.links) slot m.head z m.tail v.working
          (distinct _ _ _ _ _ v) v.forwards v.backwards mine in
      ground (arith, there, back)

  pub unlink-Linked :
      Linked
        (set m.orders slot e)
        (unlink slot m).links
        (unlink slot m).head
        (unlink slot m).tail
        m.next_id
  unlink-Linked =
      let n = length-set m.orders slot e in
      let empty_head : past slot (next_at m.links slot) none_slot ≡ none_slot =
        ground (arith, slot_real) in
      let before : past slot (prev_at m.links slot) none_slot ≡ none_slot =
        ground (arith, slot_real) in
      record {
        working = without slot v.working;
        fits = length-unlink m slot ∙ v.fits ∙ sym n;
        few = rw n v.few;
        inside = rw n (All-without (λ i. i < length m.orders) slot v.working v.inside);
        once = λ i k. ground (
          arith,
          occurs-without i slot v.working,
          v.once i (rw n at k),
          cell_of one m.orders slot i e h,
          gone,
        );
        forwards = rw head_past (
            Forwards-without none_slot (next_at m.links) (next_at (unlink slot m).links) slot m.head
              v.working slot_real next_apart next_past v.forwards);
        backwards = rw tail_past (
            subst
              (λ (p : ℕ).
                Backwards (prev_at (unlink slot m).links) p
                  (past slot (prev_at m.links slot) m.tail) (without slot v.working))
              before
              (Backwards-without (prev_at m.links) (prev_at (unlink slot m).links) slot none_slot
                m.tail v.working prev_apart prev_past v.backwards));
        rising =
            Rising-eq (id_at m.orders) (id_at (set m.orders slot e)) 0 m.next_id
              (without slot v.working)
              (λ i k. kept_cell (λ x. x.info.id) m.orders slot i e h (sym id))
              (Rising-without (id_at m.orders) slot 0 m.next_id v.working v.rising);
      }
