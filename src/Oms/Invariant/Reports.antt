-- ===== src/Oms/Invariant/Reports.antt =====
-- order_manager.hpp: every report of the exchange keeps the invariant.
use opti_trade_engine.Prelude.{
  ℕ, ◌+◌, ◌-◌, ◌≤◌, ◌<◌, ◌≡◌, refl, sym, ◌∙◌, false, ◌&&◌, ◌||◌, not, ◌==◌, if◌then◌else◌, ltb,
  arith, min, max,
}
use opti_trade_engine.Core.Types.{Nanos, max_order_qty}
use opti_trade_engine.Core.Table.{erase}
use opti_trade_engine.Ouch.Messages
use opti_trade_engine.Ouch.Messages.{Token, Executed, Canceled, Rejected, Replaced, Outbound}
use opti_trade_engine.Risk.Engine.{on_fill}
use opti_trade_engine.Risk.Engine.Cells.{table_size}
use opti_trade_engine.Risk.Engine.Counts.{same-Moves}
use opti_trade_engine.Risk.Engine.Working.{on_fill-Keeps}
use opti_trade_engine.Oms.Types.{is_terminal, filled, rejected}
use opti_trade_engine.Oms.State.{Entry, Manager}
use opti_trade_engine.Oms.Manager.{
  Match, entry_at, put, invalid, outcome_of, end_of_life, sync_ledger, notify, drop_replacement,
  clamped_if, seen_match,
}
use opti_trade_engine.Oms.Manager.Reports.{
  is_state, confirmed, accepted_entry, canceled_entry, live_again, resumed, accept, on_accepted,
  executed_entry, no_fact, tell_fill, keep_working, execute, on_executed, cancel_shares,
  on_canceled, give_reason, reject, on_rejected, replaced_entry, swap_token, bad_replaced,
  on_replaced, on_report,
}
use opti_trade_engine.Oms.Ledger.{Facts, keep-Books}
use opti_trade_engine.Oms.Slots.{Below, All-erase}
use opti_trade_engine.Oms.Invariant.{
  IsValid, aside-IsValid, entry-Facts, store-IsValid, sync-IsValid, end-IsValid, names-kept,
}
use opti_trade_engine.Oms.Invariant.Notices.{
  IsValid-if, notify-IsValid, invalid-IsValid, resolved-IsValid, active-IsValid,
  is_terminal-confirm, is_terminal-back_to_live, is_terminal-outcome_of,
}
use opti_trade_engine.Oms.Invariant.Entries.{
  closed-Facts, confirmed-Facts, accepted_entry-Facts, synced-Facts, tell_fill-IsValid,
  give_reason-IsValid, fact_bounds, renamed-Slots, replaced_within, executed_within, less_within,
}

module _ (m : Manager) (slot : ℕ) (v : IsValid m) (h : slot < m.fresh)
    (working : is_terminal (entry_at m slot).info.status ≡ false) where
  abbrev at_slot : Entry
  at_slot = entry_at m slot

  abbrev facts : Facts (table_size m.risk) at_slot
  facts = entry-Facts m slot v h

  cum_fits : at_slot.info.cum_qty ≤ at_slot.info.req.qty
  cum_fits = omega (arith, facts.within)

  cum_small : at_slot.info.cum_qty ≤ max_order_qty
  cum_small = omega (arith, facts.within, facts.size)

  accept-IsValid : (a : Messages.Accepted) (now : Nanos) → IsValid (accept slot a now m)
  unfolding accept
  accept-IsValid a now =
      let seen = accepted_entry at_slot a now in
      let dead_order = end_of_life slot seen (outcome_of seen) m in
      let live_order = put slot (confirmed seen) m in
      let kept = if a.order_state == b'D' then dead_order else live_order in
      IsValid-if (at_slot.accepted || not (is_state a.order_state)) (invalid m) (notify slot kept)
        (λ refused. invalid-IsValid m v)
        (λ fine. notify-IsValid slot kept (
          IsValid-if (a.order_state == b'D') dead_order live_order
            (λ dead.
              end-IsValid m slot seen (outcome_of seen) v h refl refl refl refl working
                (is_terminal-outcome_of seen)
                (closed-Facts _ seen _ facts.used facts.on_table cum_fits facts.size facts.priced
                  (is_terminal-outcome_of seen)))
            (λ alive.
              store-IsValid m slot (confirmed seen) m.risk v h refl refl refl
                (sym (is_terminal-confirm at_slot.info.status))
                (same-Moves m.risk _ _ at_slot.reserved _ v.books.sound)
                (confirmed-Facts _ seen (accepted_entry-Facts _ at_slot a now facts)))))

  execute-IsValid : (x : Executed) (now : Nanos) → IsValid (execute slot x now m)
  unfolding execute executed_entry
  execute-IsValid x now =
      let done = executed_entry at_slot x now in
      let req = at_slot.info.req in
      let k = on_fill-Keeps m.risk req.locate req.side x.shares x.price v.books.sound in
      let risk = on_fill m.risk req.locate req.side x.shares x.price in
      let filling : Manager = record (clamped_if (ltb at_slot.info.leaves_qty x.shares) m) {
        risk = risk;
      } in
      let w : IsValid filling = record {
        books = keep-Books m.risk risk m.orders m.open_count v.books k;
        slots = v.slots;
        list = v.list;
        start = v.start;
      } in
      let f = entry-Facts filling slot w h in
      let ended = end_of_life slot done filled filling in
      let working_on = keep_working slot done filling in
      let over = done.info.leaves_qty == 0 in
      IsValid-if (no_fact at_slot x || seen_match at_slot x.match) (invalid m)
        (tell_fill x now slot (if over then ended else working_on)) (λ no. invalid-IsValid m v)
        (λ fine.
          let b = fact_bounds at_slot x fine cum_small in
          let size : max req.qty (at_slot.info.cum_qty + x.shares) ≤ max_order_qty =
            omega (arith, b.1, facts.size) in
          tell_fill-IsValid x now slot _ (
            IsValid-if over ended working_on
              (λ all.
                end-IsValid filling slot done filled w h refl refl refl refl working refl (
                  closed-Facts _ done filled f.used f.on_table (omega arith) size (λ p. refl) refl))
              (λ some_left.
                sync-IsValid filling slot (confirmed done) w h refl refl refl refl
                  (sym (is_terminal-confirm at_slot.info.status))
                  (synced-Facts _ (confirmed done) f.used f.on_table
                    (executed_within at_slot.info.leaves_qty at_slot.info.cum_qty req.qty x.shares
                      facts.within)
                    size f.replacing (λ p. refl)
                    (is_terminal-confirm at_slot.info.status ∙ working)))))

  cancel_shares-IsValid : (c : Canceled) (now : Nanos) → IsValid (cancel_shares slot c now m)
  unfolding cancel_shares
  cancel_shares-IsValid c now =
      let less = canceled_entry at_slot c now in
      let qty = min c.decrement at_slot.info.leaves_qty in
      let counted = clamped_if (not (qty == c.decrement)) m in
      let w : IsValid counted = aside-IsValid m _ _ _ _ v in
      let ended = end_of_life slot less (outcome_of less) counted in
      let working_on = keep_working slot less counted in
      let over = less.info.leaves_qty == 0 in
      let kept = if over then ended else working_on in
      IsValid-if (c.decrement == 0) (invalid m) (notify slot kept) (λ no. invalid-IsValid m v)
        (λ fine. notify-IsValid slot kept (
          IsValid-if over ended working_on
            (λ all.
              end-IsValid counted slot less (outcome_of less) w h refl refl refl refl working
                (is_terminal-outcome_of less)
                (closed-Facts _ less _ facts.used facts.on_table cum_fits facts.size facts.priced
                  (is_terminal-outcome_of less)))
            (λ some_left.
              sync-IsValid counted slot (confirmed less) w h refl refl refl refl
                (sym (is_terminal-confirm at_slot.info.status))
                (synced-Facts _ (confirmed less) facts.used facts.on_table
                  (less_within at_slot.info.leaves_qty at_slot.info.cum_qty at_slot.info.req.qty qty
                    facts.within)
                  facts.size facts.replacing facts.priced
                  (is_terminal-confirm at_slot.info.status ∙ working)))))

  -- The token of a replacement, or the old token, is forgotten.
  dropped-IsValid : IsValid (drop_replacement at_slot m)
  dropped-IsValid = record {
    books = v.books;
    slots = renamed-Slots m v (names-kept at_slot m v);
    list = v.list;
    start = v.start;
  }

  reject-IsValid :
      (found : Match) (r : Rejected) (now : Nanos)
      → found.slot ≡ slot
      → IsValid (reject found r now m)
  unfolding reject
  reject-IsValid found r now same =
      let dropped = drop_replacement at_slot m in
      let again = sync_ledger slot (live_again at_slot) dropped in
      let ended = end_of_life slot at_slot rejected m in
      let kept = give_reason slot r.reason now again in
      let gone = give_reason slot r.reason now ended in
      rw same (
        IsValid-if found.replacement (notify slot kept)
          (if at_slot.acked then invalid m else notify slot gone)
          (λ replacing. notify-IsValid slot kept (
            give_reason-IsValid again slot r.reason now
              (sync-IsValid dropped slot (live_again at_slot) dropped-IsValid h refl refl refl refl
                working
                (synced-Facts _ (live_again at_slot) facts.used facts.on_table facts.within
                  facts.size (omega arith) facts.priced refl))
              h))
          (λ active_one.
            IsValid-if at_slot.acked (invalid m) (notify slot gone) (λ known. invalid-IsValid m v)
              (λ never_seen. notify-IsValid slot gone (
                give_reason-IsValid ended slot r.reason now
                  (end-IsValid m slot at_slot rejected v h refl refl refl refl working refl (
                    closed-Facts _ at_slot rejected facts.used facts.on_table cum_fits facts.size
                      facts.priced refl))
                  h))))

  swap_token-IsValid : (a : Messages.Accepted) (now : Nanos) → IsValid (swap_token slot a now m)
  unfolding swap_token replaced_entry
  swap_token-IsValid a now =
      let swapped = replaced_entry at_slot a now in
      let asked = at_slot.replace_qty - at_slot.info.cum_qty in
      let over = not (a.order_state == b'D') && ltb asked a.shares in
      let erased : Manager = record (clamped_if over m) { tokens = erase at_slot.token m.tokens } in
      let w : IsValid erased = record {
        books = v.books;
        slots = renamed-Slots m v (All-erase (Below m.fresh) at_slot.token m.tokens v.slots.names);
        list = v.list;
        start = v.start;
      } in
      let ended = end_of_life slot swapped (outcome_of swapped) erased in
      let working_on = sync_ledger slot (resumed swapped) erased in
      let none_left = swapped.info.leaves_qty == 0 in
      let kept = if none_left then ended else working_on in
      let size : max at_slot.replace_qty at_slot.info.cum_qty ≤ max_order_qty =
        omega (arith, facts.replacing, cum_small) in
      notify-IsValid slot kept (
        IsValid-if none_left ended working_on
          (λ none.
            end-IsValid erased slot swapped (outcome_of swapped) w h refl refl refl refl working
              (is_terminal-outcome_of swapped)
              (closed-Facts _ swapped _ facts.used facts.on_table (omega arith) size facts.priced
                (is_terminal-outcome_of swapped)))
          (λ some_left.
            sync-IsValid erased slot (resumed swapped) w h refl refl refl refl
              (sym (is_terminal-back_to_live at_slot.info.status))
              (synced-Facts _ (resumed swapped) facts.used facts.on_table
                (replaced_within (a.order_state == b'D') a.shares at_slot.replace_qty
                  at_slot.info.cum_qty)
                size (omega arith) facts.priced
                (is_terminal-back_to_live at_slot.info.status ∙ working))))

-- Every report keeps the invariant.
pub on_report-IsValid :
    (x : Outbound) (now : Nanos) (m : Manager) → IsValid m → IsValid (on_report x now m)
unfolding on_report on_accepted on_executed on_canceled on_rejected on_replaced
on_report-IsValid (Messages.accepted a) now m v =
    active-IsValid a.token m _ v (λ slot h working. accept-IsValid m slot v h working a now)
on_report-IsValid (Messages.executed x) now m v =
    active-IsValid x.token m _ v (λ slot h working. execute-IsValid m slot v h working x now)
on_report-IsValid (Messages.canceled c) now m v =
    active-IsValid c.token m _ v (λ slot h working. cancel_shares-IsValid m slot v h working c now)
on_report-IsValid (Messages.rejected r) now m v =
    resolved-IsValid r.token m _ v
      (λ found h working. reject-IsValid m found.slot v h working found r now refl)
on_report-IsValid (Messages.replaced rp) now m v =
    resolved-IsValid rp.a.token m _ v (λ found h working.
      IsValid-if (bad_replaced rp found m) (invalid m) (swap_token found.slot rp.a now m)
        (λ no. invalid-IsValid m v) (λ fine. swap_token-IsValid m found.slot v h working rp.a now))
