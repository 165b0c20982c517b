-- ===== src/Oms/Dropped.antt =====
-- order_manager.hpp, the reports that no handler acts on: those whose token names no order, and those
-- for a finished one.
use mathlib.Core.Path.{subst}
use opti_trade_engine.Prelude.{
  ℕ, ◌+◌, ◌≤◌, ◌≡◌, refl, sym, ap, ◌∙◌, true, false, Option, none, some, ◌==◌, ltb, if◌then◌else◌,
  arith, Bool-cases, inl, inr, ◌⊎◌, at_if,
}
use opti_trade_engine.Core.Types.{Nanos}
use opti_trade_engine.Core.Table.{find}
use opti_trade_engine.Ouch.Messages as Messages
use opti_trade_engine.Ouch.Messages.{Token, Outbound}
use opti_trade_engine.Ouch.Token.{max_id, from_id, to_id, to_id-from_id, scan}
use opti_trade_engine.Ouch.Token as Tokens
use opti_trade_engine.Ouch.Fields.{put_token}
use opti_trade_engine.Oms.Types.{is_terminal}
use opti_trade_engine.Oms.State.{Manager}
use opti_trade_engine.Oms.Manager.{
  Match, entry_at, token_eq, match_slot, match_id, resolve, resolved, active,
}
use opti_trade_engine.Oms.Manager.Reports.{
  on_accepted, on_executed, on_canceled, on_rejected, on_replaced, on_report,
}

-- The token that a report goes by.
abbrev pub report_token : Outbound → Token
report_token (Messages.accepted a) = a.token
report_token (Messages.replaced rp) = rp.a.token
report_token (Messages.canceled c) = c.token
report_token (Messages.executed x) = x.token
report_token (Messages.rejected r) = r.token

-- The token is the number of an order in the slot: the one it goes by, or that of a replacement in
-- flight.
pub record Named (m : Manager) (t : Token) (slot : ℕ) : Type 0 where
  pub id : ℕ
  pub few : id ≤ max_id
  pub spelt : t ≡ from_id id
  pub held : find id m.tokens ≡ some slot
  pub current : ((entry_at m slot).token ≡ id) ⊎ ((entry_at m slot).next_token ≡ id)

token_eq_refl : (t : Token) → token_eq t t ≡ true
unfolding token_eq
token_eq_refl t = ground arith

token_eq_sound : (t u : Token) → token_eq t u ≡ true → t ≡ u
unfolding token_eq
token_eq_sound t u h =
    let e0 : t.t0 ≡ u.t0 = ground (arith, h) in
    let e1 : t.t1 ≡ u.t1 = ground (arith, h) in
    let e2 : t.t2 ≡ u.t2 = ground (arith, h) in
    let e3 : t.t3 ≡ u.t3 = ground (arith, h) in
    let e4 : t.t4 ≡ u.t4 = ground (arith, h) in
    let e5 : t.t5 ≡ u.t5 = ground (arith, h) in
    let e6 : t.t6 ≡ u.t6 = ground (arith, h) in
    let e7 : t.t7 ≡ u.t7 = ground (arith, h) in
    let e8 : t.t8 ≡ u.t8 = ground (arith, h) in
    let e9 : t.t9 ≡ u.t9 = ground (arith, h) in
    let e10 : t.t10 ≡ u.t10 = ground (arith, h) in
    let e11 : t.t11 ≡ u.t11 = ground (arith, h) in
    let e12 : t.t12 ≡ u.t12 = ground (arith, h) in
    let e13 : t.t13 ≡ u.t13 = ground (arith, h) in
    λ i. record {
      t0 = e0 i;
      t1 = e1 i;
      t2 = e2 i;
      t3 = e3 i;
      t4 = e4 i;
      t5 = e5 i;
      t6 = e6 i;
      t7 = e7 i;
      t8 = e8 i;
      t9 = e9 i;
      t10 = e10 i;
      t11 = e11 i;
      t12 = e12 i;
      t13 = e13 i;
    }

to_id-invalid : to_id Tokens.invalid ≡ none
unfolding to_id scan put_token
to_id-invalid = refl

module _ (m : Manager) (t : Token) where
  -- A token whose digits are read as a number that is too long is no such token.
  spelt_few : (id : ℕ) → to_id t ≡ some id → from_id id ≡ t → id ≤ max_id
  unfolding from_id
  spelt_few id read is = elim (Bool-cases (ltb max_id id)) [
    | inl long ↦
        let blank : Tokens.invalid ≡ t = rw long at is in
        let no : ◌≡◌ {A = Option ℕ} none (some id) = sym to_id-invalid ∙ ap to_id blank ∙ read in
        absurd (cc no)
    | inr short ↦ ground arith
  ]

  -- What a lookup of the token has found.
  Finds : Option Match → Type 0
  Finds none = (slot : ℕ) → ¬ Named m t slot
  Finds (some found) = Named m t found.slot

  same_id : (id slot : ℕ) → to_id t ≡ some id → (n : Named m t slot) → id ≡ n.id
  same_id id slot read n =
      let is : ◌≡◌ {A = Option ℕ} (some id) (some n.id) =
        sym read ∙ ap to_id n.spelt ∙ to_id-from_id n.id n.few in
      cc is

  match_slot-Finds :
      (id : ℕ) (o : Option ℕ)
      → to_id t ≡ some id
      → from_id id ≡ t
      → find id m.tokens ≡ o
      → Finds (match_slot m id o)
  unfolding Finds
  match_slot-Finds id none read is held = λ slot n.
      let no : ◌≡◌ {A = Option ℕ} none (some slot) =
        sym held ∙ ap (λ (k : ℕ). find k m.tokens) (same_id id slot read n) ∙ n.held in
      absurd (cc no)
  match_slot-Finds id (some place) read is held =
      let few = spelt_few id read is in
      let e = entry_at m place in
      at_if Finds (e.token == id) (some record { slot = place; replacement = false })
        (if e.next_token == id then some record { slot = place; replacement = true } else none)
        (λ own. record {
          id = id;
          few = few;
          spelt = sym is;
          held = held;
          current = inl (ground arith);
        })
        (λ other.
          at_if Finds (e.next_token == id) (some record { slot = place; replacement = true }) none
            (λ next. record {
              id = id;
              few = few;
              spelt = sym is;
              held = held;
              current = inr (ground arith);
            })
            (λ neither slot n.
              let there : ◌≡◌ {A = Option ℕ} (some place) (some slot) =
                sym held ∙ ap (λ (k : ℕ). find k m.tokens) (same_id id slot read n) ∙ n.held in
              let at : place ≡ slot = cc there in
              let now =
                subst
                  (λ (k : ℕ). ((entry_at m k).token ≡ n.id) ⊎ ((entry_at m k).next_token ≡ n.id))
                  (sym at) n.current in
              elim now [
                | inl a ↦ ground (arith, a, other, same_id id slot read n)
                | inr b ↦ ground (arith, b, neither, same_id id slot read n)
              ]))

  match_id-Finds : (o : Option ℕ) → to_id t ≡ o → Finds (match_id m t o)
  unfolding Finds
  match_id-Finds none read = λ slot n.
      let no : ◌≡◌ {A = Option ℕ} none (some n.id) =
        sym read ∙ ap to_id n.spelt ∙ to_id-from_id n.id n.few in
      absurd (cc no)
  match_id-Finds (some id) read =
      at_if Finds (token_eq (from_id id) t) (match_slot m id (find id m.tokens)) none
        (λ h. match_slot-Finds id (find id m.tokens) read (token_eq_sound (from_id id) t h) refl)
        (λ h slot n.
          let own : from_id id ≡ t = ap from_id (same_id id slot read n) ∙ sym n.spelt in
          let yes : token_eq (from_id id) t ≡ true =
            ap (λ (u : Token). token_eq u t) own ∙ token_eq_refl t in
          absurd (cc (yes, h)))

  resolve-Finds : Finds (resolve t m)
  unfolding resolve
  resolve-Finds = match_id-Finds (to_id t) refl

-- What a report does whose token names no order, and what it does if that order is finished.
abbrev pub Filed : Token → Manager → Manager → Type 0
Filed t m m' =
    (((slot : ℕ) → ¬ Named m t slot)
      × (m' ≡ record m { stats = record m.stats { unknown_tokens = m.stats.unknown_tokens + 1 } }))
    ⊎ ((slot : ℕ) × Named m t slot
        × (is_terminal (entry_at m slot).info.status ≡ true)
        × (m' ≡ record m { stats = record m.stats { late_reports = m.stats.late_reports + 1 } }))
    ⊎ ((slot : ℕ) × Named m t slot × (is_terminal (entry_at m slot).info.status ≡ false))

resolved-Filed :
    (m : Manager) (t : Token) (o : Option Match) (handle : Match → Manager)
    → Finds m t o
    → Filed t m (resolved o m handle)
unfolding Finds
resolved-Filed m t none handle f = inl (f, refl)
resolved-Filed m t (some found) handle f =
    elim (Bool-cases (is_terminal (entry_at m found.slot).info.status)) [
      | inl over ↦ inr (inl (found.slot, f, over, rw over refl))
      | inr working ↦ inr (inr (found.slot, f, working))
    ]

-- A report whose token names no order changes only the count of unknown tokens, and one that names a
-- finished order changes only the count of late reports; any other report names an order that is not
-- finished.
pub on_report-dropped :
    (x : Outbound) (now : Nanos) (m : Manager) → Filed (report_token x) m (on_report x now m)
unfolding on_report on_accepted on_executed on_canceled on_rejected on_replaced active
on_report-dropped (Messages.accepted a) now m = resolved-Filed m _ _ _ (resolve-Finds m a.token)
on_report-dropped (Messages.executed x) now m = resolved-Filed m _ _ _ (resolve-Finds m x.token)
on_report-dropped (Messages.canceled c) now m = resolved-Filed m _ _ _ (resolve-Finds m c.token)
on_report-dropped (Messages.rejected r) now m = resolved-Filed m _ _ _ (resolve-Finds m r.token)
on_report-dropped (Messages.replaced rp) now m = resolved-Filed m _ _ _ (resolve-Finds m rp.a.token)
