-- ===== src/Net/Mold64.antt =====
-- include/optitrade/net/mold64.hpp: datagram framing and loss detection. A session is the list of
-- its ten bytes; a write into a caller's buffer returns the buffer as it is after the write.
use opti_trade_engine.Prelude.{
  ℕ, zero, suc, ◌+◌, ◌-◌, ◌%◌, ◌^◌, Bool, true, false, ◌&&◌, ◌||◌, not, List, [], ◌∷◌, ◌++◌, Option,
  none, some, ltb, leb, ◌==◌, if◌then◌else◌, length, take, drop,
}
use opti_trade_engine.Core.Wire.{
  Bytes, load16, load64, store16, store64, DecodeStatus, ok, truncated, bad_length,
}
pub mod Builder
pub mod Splices
pub mod Blocks
pub mod Takes
pub mod Packets
pub mod Sequence

abbrev pub header_size : ℕ
header_size = 20

abbrev pub session_size : ℕ
session_size = 10

abbrev pub end_of_session_count : ℕ
end_of_session_count = 0xffff

abbrev pub max_message_count : ℕ
max_message_count = 0xfffe

abbrev pub max_message_size : ℕ
max_message_size = 0xffff

pub data Kind : Type 0 where
  payload heartbeat end_of_session : Kind

pub record Header : Type 0 where
  pub session : Bytes
  pub sequence : ℕ
  pub count : ℕ
  pub kind : Kind

unfoldable pub kind_of : ℕ → Kind
kind_of count =
    if count == 0
    then heartbeat
    else if count == end_of_session_count
    then end_of_session
    else payload

-- None is `truncated`, with the output untouched.
unfoldable pub parse_header : Bytes → Option Header
unfolding kind_of load16 load64
parse_header packet =
    if ltb (length packet) header_size
    then none
    else some (record {
      session = take session_size packet;
      sequence = load64 packet 10;
      count = load16 packet 18;
      kind = kind_of (load16 packet 18);
    })

-- The loop over `n` blocks of what is left of the packet.
unfoldable pub walk : ℕ → Bytes → DecodeStatus
walk zero rest = if length rest == 0 then ok else bad_length
walk (suc n) rest =
    let len = load16 rest 0 in
    let next = walk n (drop (2 + len) rest) in
    if ltb (length rest) 2 then truncated else if ltb (length rest - 2) len then truncated else next

unfoldable pub validate_blocks : Bytes → Header → DecodeStatus
unfolding walk
validate_blocks packet h = elim h.kind [
  | payload ↦ walk h.count (drop header_size packet)
  | heartbeat ↦ if length packet == header_size then ok else bad_length
  | end_of_session ↦ if length packet == header_size then ok else bad_length
]

-- One call of the handler.
pub record Delivery : Type 0 where
  pub seq : ℕ
  pub message : Bytes

-- The delivering loop, from block `i` on.
unfoldable pub deliver : ℕ → ℕ → ℕ → Bytes → List Delivery
deliver zero sequence i rest = []
deliver (suc n) sequence i rest =
    let len = load16 rest 0 in
    record { seq = (sequence + i) % 2 ^ 64; message = take len (drop 2 rest) }
    ∷ deliver n sequence (i + 1) (drop (2 + len) rest)

-- The status, the header if it was read, and the calls of the handler.
pub record Feed : Type 0 where
  pub status : DecodeStatus
  pub hdr : Option Header
  pub calls : List Delivery

unfoldable pub deliver_all : Bytes → Header → List Delivery
unfolding deliver
deliver_all packet h = elim h.kind [
  | payload ↦ deliver h.count h.sequence 0 (drop header_size packet)
  | heartbeat ↦ []
  | end_of_session ↦ []
]

-- What follows the validation of the blocks.
unfoldable pub validated : Bytes → Header → DecodeStatus → Feed
unfolding deliver_all
validated packet h ok = record { status = ok; hdr = some h; calls = deliver_all packet h }
validated packet h st = record { status = st; hdr = some h; calls = [] }

-- What follows the reading of the header.
unfoldable pub parsed : Bytes → Option Header → Feed
unfolding validated validate_blocks
parsed packet none = record { status = truncated; hdr = none; calls = [] }
parsed packet (some h) = validated packet h (validate_blocks packet h)

unfoldable pub for_each_message : Bytes → Feed
unfolding parse_header parsed
for_each_message packet = parsed packet (parse_header packet)

-- memcpy to an offset.
unfoldable pub write_at : Bytes → ℕ → Bytes → Bytes
write_at buf i src = take i buf ++ (src ++ drop (i + length src) buf)

-- The buffer and the number of bytes written.
unfoldable pub write_header : Bytes → Bytes → ℕ → ℕ → Bytes × ℕ
unfolding write_at store16 store64
write_header out session sequence count = if ltb (length out) header_size then (out, 0) else (
  write_at (write_at (write_at out 0 session) 10 (store64 sequence)) 18 (store16 count),
  header_size,
)

unfoldable pub write_heartbeat : Bytes → Bytes → ℕ → Bytes × ℕ
unfolding write_header
write_heartbeat out session next_sequence = write_header out session next_sequence 0

unfoldable pub write_end_of_session : Bytes → Bytes → ℕ → Bytes × ℕ
unfolding write_header
write_end_of_session out session next_sequence =
    write_header out session next_sequence end_of_session_count

pub record PacketBuilder : Type 0 where
  pub buf : Bytes
  pub size : ℕ
  pub count : ℕ
  pub sealed : Bool

unfoldable pub new_builder : Bytes → Bytes → ℕ → PacketBuilder
unfolding write_header
new_builder buffer session first_seq =
    let h = write_header buffer session first_seq 0 in
    record { buf = h.0; size = h.1; count = 0; sealed = false }

unfoldable pub refuses : PacketBuilder → Bytes → Bool
refuses b message =
    b.sealed
    || (b.size == 0)
    || leb max_message_count b.count
    || ltb max_message_size (length message)
    || ltb (length b.buf - b.size) (2 + length message)

unfoldable pub add : PacketBuilder → Bytes → PacketBuilder × Bool
unfolding refuses write_at store16
add b message =
    let need = 2 + length message in
    if refuses b message then (b, false) else (
      record b {
        buf = write_at (write_at b.buf b.size (store16 (length message))) (b.size + 2) message;
        size = b.size + need;
        count = b.count + 1;
      },
      true,
    )

unfoldable pub seal : PacketBuilder → PacketBuilder
unfolding write_at store16
seal b =
    if b.sealed then b else record b { buf = write_at b.buf 18 (store16 b.count); sealed = true }

-- The builder and the finished packet.
unfoldable pub finish : PacketBuilder → PacketBuilder × Bytes
unfolding seal
finish b = if b.size == 0 then (b, []) else (seal b, take b.size (seal b).buf)

pub data SequenceResult : Type 0 where
  in_order gap duplicate session_changed : SequenceResult

pub record SequenceCheck : Type 0 where
  pub result : SequenceResult
  pub expected : ℕ
  pub received : ℕ
  pub missing : ℕ

pub record SequenceTracker : Type 0 where
  pub session : Bytes
  pub expected : ℕ
  pub gaps : ℕ
  pub missing : ℕ
  pub duplicates : ℕ
  pub synced : Bool

abbrev pub new_tracker : SequenceTracker
new_tracker = record {
  session = 0 ∷ 0 ∷ 0 ∷ 0 ∷ 0 ∷ 0 ∷ 0 ∷ 0 ∷ 0 ∷ 0 ∷ [];
  expected = 0;
  gaps = 0;
  missing = 0;
  duplicates = 0;
  synced = false;
}

abbrev pub max64 : ℕ
max64 = 0xffffffffffffffff

unfoldable pub same_session : Bytes → Bytes → Bool
same_session [] [] = true
same_session [] (y ∷ ys) = false
same_session (x ∷ xs) [] = false
same_session (x ∷ xs) (y ∷ ys) = (x == y) && same_session xs ys

-- Only real messages advance the sequence.
unfoldable pub advance_of : Header → ℕ
advance_of h = elim h.kind [ payload ↦ h.count | heartbeat ↦ 0 | end_of_session ↦ 0 ]

abbrev check_of : SequenceResult → ℕ → ℕ → ℕ → SequenceCheck
check_of res exp rec mis = record { result = res; expected = exp; received = rec; missing = mis }

unfoldable pub on_packet : SequenceTracker → Header → SequenceTracker × SequenceCheck
unfolding advance_of same_session
on_packet t h =
    let end = (h.sequence + advance_of h) % 2 ^ 64 in
    let skipped = h.sequence - t.expected in
    if not t.synced
    then (
      record t { synced = true; session = h.session; expected = end },
      check_of in_order h.sequence h.sequence 0,
    )
    else if not (same_session h.session t.session)
    then (
      record t { session = h.session; expected = end },
      check_of session_changed t.expected h.sequence 0,
    )
    else if h.sequence == t.expected
    then (record t { expected = end }, check_of in_order t.expected h.sequence 0)
    else if ltb t.expected h.sequence
    then (
      record t {
        gaps = (t.gaps + 1) % 2 ^ 64;
        missing = if ltb (max64 - skipped) t.missing then max64 else t.missing + skipped;
        expected = end;
      },
      check_of gap t.expected h.sequence skipped,
    )
    else (
      record t {
        duplicates = (t.duplicates + 1) % 2 ^ 64;
        expected = if ltb t.expected end then end else t.expected;
      },
      check_of duplicate t.expected h.sequence 0,
    )
