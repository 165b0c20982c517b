-- ===== src/Oms/Invariant/Notices.antt =====
-- order_manager.hpp: the notices to the listener, the counters and the orders that reports name.
use opti_trade_engine.Prelude.{
  ℕ, ◌<◌, ◌≡◌, refl, Bool, true, false, ◌∷◌, some, if◌then◌else◌, leb, arith, Bool-cases,
  Option-cases, inl, inr,
}
use opti_trade_engine.Core.Table.{find}
use opti_trade_engine.Ouch.Messages.{Token}
use opti_trade_engine.Ouch.Token.{from_id, to_id}
use opti_trade_engine.Oms.Types.{
  OrderStatus, is_terminal, pending_new, live, pending_cancel, pending_replace, filled, canceled,
  rejected, Notice,
}
use opti_trade_engine.Oms.State.{Entry, Manager}
use opti_trade_engine.Oms.Manager.{
  Match, entry_at, resolve, resolved, active, match_id, match_slot, token_eq, invalid, late,
  unknown, outcome_of, tell, notify,
}
use opti_trade_engine.Oms.Manager.Reports.{confirm, back_to_live}
use opti_trade_engine.Oms.Slots.{find-All, Below}
use opti_trade_engine.Oms.Invariant.{IsValid, aside-IsValid}

-- A report's order is in a used slot.
match_slot-lt :
    (m : Manager) (id slot : ℕ) (found : Match)
    → slot < m.fresh
    → match_slot m id (some slot) ≡ some found
    → found.slot < m.fresh
match_slot-lt m id slot found h e = ground (arith, h)

resolve-lt :
    (t : Token) (m : Manager) (found : Match)
    → IsValid m
    → resolve t m ≡ some found
    → found.slot < m.fresh
unfolding resolve
resolve-lt t m found v e = elim (Option-cases (to_id t)) [
  | inl none_there ↦ cc (rw none_there at e)
  | inr (id, is) ↦
      let e' : match_id m t (some id) ≡ some found = rw is at e in
      elim (Bool-cases (token_eq (from_id id) t)) [
        | inl ours ↦ elim (Option-cases (find id m.tokens)) [
          | inl none_there ↦ cc (rw (ours, none_there) at e')
          | inr (slot, there) ↦
              match_slot-lt m id slot found
                (find-All (Below m.fresh) id slot m.tokens v.slots.names there)
                (rw (ours, there) at e')
        ]
        | inr other ↦ cc (rw other at e')
      ]
]

pub IsValid-if :
    (b : Bool) (x y : Manager)
    → (b ≡ true → IsValid x)
    → (b ≡ false → IsValid y)
    → IsValid (if b then x else y)
IsValid-if true x y there else_there = there refl
IsValid-if false x y there else_there = else_there refl

pub tell-IsValid : (n : Notice) (m : Manager) → IsValid m → IsValid (tell n m)
tell-IsValid n m v =
    IsValid-if m.has_listener (record m { heard = n ∷ m.heard }) m
      (λ heard. aside-IsValid m _ _ _ _ v) (λ alone. v)

pub notify-IsValid : (slot : ℕ) (m : Manager) → IsValid m → IsValid (notify slot m)
notify-IsValid slot m v = tell-IsValid _ m v

pub invalid-IsValid : (m : Manager) → IsValid m → IsValid (invalid m)
invalid-IsValid m v = aside-IsValid m _ _ _ _ v

late-IsValid : (m : Manager) → IsValid m → IsValid (late m)
late-IsValid m v = aside-IsValid m _ _ _ _ v

unknown-IsValid : (m : Manager) → IsValid m → IsValid (unknown m)
unknown-IsValid m v = aside-IsValid m _ _ _ _ v

-- A handler that keeps the invariant for the order of the report.
pub resolved-IsValid :
    (t : Token) (m : Manager) (handle : Match → Manager)
    → IsValid m
    → ((found : Match)
        → found.slot < m.fresh
        → is_terminal (entry_at m found.slot).info.status ≡ false
        → IsValid (handle found))
    → IsValid (resolved (resolve t m) m handle)
resolved-IsValid t m handle v keeps = elim (Option-cases (resolve t m)) [
  | inl nothing ↦ rw nothing (unknown-IsValid m v)
  | inr (found, is) ↦ rw is (
      IsValid-if (is_terminal (entry_at m found.slot).info.status) (late m) (handle found)
        (λ ended. late-IsValid m v) (λ working. keeps found (resolve-lt t m found v is) working))
]

pub active-IsValid :
    (t : Token) (m : Manager) (handle : ℕ → Manager)
    → IsValid m
    → ((slot : ℕ)
        → slot < m.fresh
        → is_terminal (entry_at m slot).info.status ≡ false
        → IsValid (handle slot))
    → IsValid (active t m handle)
unfolding active
active-IsValid t m handle v keeps = resolved-IsValid t m _ v (λ found h working.
    IsValid-if found.replacement (invalid m) (handle found.slot) (λ early. invalid-IsValid m v)
      (λ current. keeps found.slot h working))

pub is_terminal-confirm : (s : OrderStatus) → is_terminal (confirm s) ≡ is_terminal s
is_terminal-confirm pending_new = refl
is_terminal-confirm live = refl
is_terminal-confirm pending_cancel = refl
is_terminal-confirm pending_replace = refl
is_terminal-confirm filled = refl
is_terminal-confirm canceled = refl
is_terminal-confirm rejected = refl

pub is_terminal-back_to_live : (s : OrderStatus) → is_terminal (back_to_live s) ≡ is_terminal s
is_terminal-back_to_live pending_new = refl
is_terminal-back_to_live live = refl
is_terminal-back_to_live pending_cancel = refl
is_terminal-back_to_live pending_replace = refl
is_terminal-back_to_live filled = refl
is_terminal-back_to_live canceled = refl
is_terminal-back_to_live rejected = refl

pub is_terminal-outcome_of : (e : Entry) → is_terminal (outcome_of e) ≡ true
is_terminal-outcome_of e = elim (Bool-cases (leb e.info.req.qty e.info.cum_qty)) [
  | inl all ↦ rw all refl
  | inr part ↦ rw part refl
]
