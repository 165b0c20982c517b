-- ===== src/Net/Tests.antt =====
-- Runs of include/optitrade/net/mold64.hpp on small packets, and the theorems at those runs.
use opti_trade_engine.Prelude.{
  ℕ, ◌+◌, ◌≡◌, ◌<◌, ◌^◌, refl, true, false, ◌-◌, List, [], ◌∷◌, some, arith, length, min, replicate,
}
use opti_trade_engine.Core.Wire.{Bytes, ok}
use opti_trade_engine.Net.Mold64.{
  Header, payload, kind_of, parse_header, for_each_message, new_builder, add, finish,
  SequenceTracker, max64, same_session, advance_of,
}
use opti_trade_engine.Net.Mold64.Blocks.{numbered, Accepts, for_each_message-Accepts}
use opti_trade_engine.Net.Mold64.Takes.{fits, add_each, answers, picked, add_each-small}
use opti_trade_engine.Net.Mold64.Packets.{for_each_message-finish}
use opti_trade_engine.Net.Mold64.Sequence.{track, fresh, missed, track-accounts}

abbrev session : Bytes
session = 49 ∷ 50 ∷ 51 ∷ 52 ∷ 53 ∷ 54 ∷ 55 ∷ 56 ∷ 57 ∷ 48 ∷ []

abbrev buffer : Bytes
buffer = replicate 30 0

-- The second message is too long for what the first leaves of the buffer.
abbrev messages : List Bytes
messages = (1 ∷ 2 ∷ 3 ∷ []) ∷ replicate 9 7 ∷ [] ∷ []

second_refused : answers 10 0 messages ≡ true ∷ false ∷ true ∷ []
unfolding answers fits
second_refused = refl

for_each_message-finish_example :
    let (b, flags) = add_each (new_builder buffer session 100) messages in
    let taken = picked flags messages in
    (flags ≡ answers (length buffer - 20) 0 messages)
    × (length b.buf ≡ length buffer)
    × (for_each_message (finish b).1 ≡ record {
      status = ok;
      hdr = some (record {
        session = session;
        sequence = 100;
        count = length taken;
        kind = kind_of (length taken);
      });
      calls = numbered 100 0 taken;
    })
    × ((m : Bytes) → add (finish b).0 m ≡ ((finish b).0, false))
for_each_message-finish_example =
    for_each_message-finish buffer session 100 messages refl (omega arith) (omega arith)

add_each-small_example :
    let b = new_builder (replicate 19 5) session 100 in
    (b.buf ≡ replicate 19 5)
    × (add_each b messages ≡ (b, replicate (length messages) false))
    × (finish b ≡ (b, []))
add_each-small_example = add_each-small (replicate 19 5) session 100 messages (omega arith)

-- Twenty bytes that announce no message.
abbrev quiet : Bytes
quiet =
    49 ∷ 50 ∷ 51 ∷ 52 ∷ 53 ∷ 54 ∷ 55 ∷ 56 ∷ 57 ∷ 48 ∷ 0 ∷ 0 ∷ 0 ∷ 0 ∷ 0 ∷ 0 ∷ 0 ∷ 100 ∷ 0 ∷ 0 ∷ []

for_each_message-Accepts_example : Accepts quiet (parse_header quiet) (for_each_message quiet)
for_each_message-Accepts_example = for_each_message-Accepts quiet (omega arith)

-- A tracker that expects 100; then a gap of 5, a repeat, and a packet that overlaps.
abbrev tracker : SequenceTracker
tracker = record {
  session = session;
  expected = 100;
  gaps = 0;
  missing = 0;
  duplicates = 0;
  synced = true;
}

abbrev packet : ℕ → ℕ → Header
packet sequence count = record {
  session = session;
  sequence = sequence;
  count = count;
  kind = payload;
}

abbrev packets : List Header
packets = packet 105 3 ∷ packet 105 3 ∷ packet 107 4 ∷ []

in_session :
    (sequence count : ℕ)
    → sequence + count < 2 ^ 64
    → (same_session session session ≡ true)
      × (sequence + advance_of (packet sequence count) < 2 ^ 64)
unfolding same_session advance_of
in_session sequence count h = (refl, h)

track-accounts_example :
    ((track tracker packets).expected ≡ 100 + fresh tracker packets + missed tracker packets)
    × ((track tracker packets).missing ≡ min max64 (0 + missed tracker packets))
track-accounts_example = track-accounts packets tracker refl (omega arith) (omega arith) (
  in_session 105 3 (omega arith),
  (in_session 105 3 (omega arith), (in_session 107 4 (omega arith), tt)),
)
