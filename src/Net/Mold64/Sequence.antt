-- ===== src/Net/Mold64/Sequence.antt =====
-- net/mold64.hpp, SequenceTracker: the accounting of a session's sequence numbers.
use opti_trade_engine.Prelude.{
  ℕ, ◌+◌, ◌-◌, ◌^◌, ◌<◌, ◌≤◌, ◌≡◌, true, List, [], ◌∷◌, arith, All, min, max,
}
use opti_trade_engine.Core.Wire.{Bytes}
use opti_trade_engine.Net.Mold64.{
  Header, SequenceTracker, on_packet, advance_of, same_session, max64,
}

unfoldable pub track : SequenceTracker → List Header → SequenceTracker
track t [] = t
track t (h ∷ hs) = track (on_packet t h).0 hs

-- The messages that the packets were reported to skip.
unfoldable pub missed : SequenceTracker → List Header → ℕ
missed t [] = 0
missed t (h ∷ hs) = (on_packet t h).1.missing + missed (on_packet t h).0 hs

-- The messages of the packets that were not expected before: those from `expected` on.
unfoldable pub fresh : SequenceTracker → List Header → ℕ
fresh t [] = 0
fresh t (h ∷ hs) =
    ((h.sequence + advance_of h) - max t.expected h.sequence) + fresh (on_packet t h).0 hs

-- A packet of the session whose sequence numbers fit 64 bits.
abbrev pub InSession : Bytes → Header → Type 0
InSession session h = (same_session h.session session ≡ true) × (h.sequence + advance_of h < 2 ^ 64)

-- What a packet of the session does to a tracker.
step_lem :
    (t : SequenceTracker) (h : Header)
    → t.synced ≡ true
    → InSession t.session h
    → t.missing ≤ max64
    → t.expected < 2 ^ 64
    → ((on_packet t h).0.synced ≡ true)
      × ((on_packet t h).0.session ≡ t.session)
      × ((on_packet t h).0.expected
          ≡ t.expected
            + ((h.sequence + advance_of h) - max t.expected h.sequence)
            + (on_packet t h).1.missing)
      × ((on_packet t h).0.missing ≡ min max64 (t.missing + (on_packet t h).1.missing))
      × ((on_packet t h).0.missing ≤ max64)
      × ((on_packet t h).0.expected < 2 ^ 64)
unfolding on_packet
step_lem t h sy (same, fits) m x = ground arith

-- For every synchronised tracker with counters in range and every list of packets of its session
-- whose sequence numbers fit 64 bits, in any order and with any repetition: the sequence number
-- expected at the end is the one expected at the start plus the messages first seen (those at or
-- past the number then expected) plus the messages reported missing, so that each number between
-- the two is counted exactly once; and `missing` has grown by the messages reported missing,
-- saturating at 2 ^ 64 - 1.
pub track-accounts :
    (hs : List Header) (t : SequenceTracker)
    → t.synced ≡ true
    → t.missing ≤ max64
    → t.expected < 2 ^ 64
    → All (InSession t.session) hs
    → ((track t hs).expected ≡ t.expected + fresh t hs + missed t hs)
      × ((track t hs).missing ≡ min max64 (t.missing + missed t hs))
unfolding track fresh missed
track-accounts [] t s m x a = (omega arith, omega arith)
track-accounts (h ∷ hs) t s m x a =
    let (s', e, p, q, m', x') = step_lem t h s a.0 m x in
    let (r, u) = track-accounts hs (on_packet t h).0 s' m' x' (rw e a.1) in
    (omega (arith, p, r), omega (arith, q, u))
