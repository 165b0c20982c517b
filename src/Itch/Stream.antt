-- ===== src/Itch/Stream.antt =====
-- include/optitrade/itch/decoder.hpp, decode_stream: repeated [u16 length][message]. The loop holds
-- `rest`, the buffer from `consumed` on; what the handler is called with is the list `out`.
use opti_trade_engine.Prelude.{
  ℕ, zero, suc, ◌+◌, ◌-◌, List, [], ◌∷◌, ◌++◌, ltb, if◌then◌else◌, length, take, drop,
}
use opti_trade_engine.Core.Wire.{Bytes, load16, DecodeStatus, ok}
use opti_trade_engine.Itch.Messages.{Message, frame_header_size}
use opti_trade_engine.Itch.Decoder.{Decoded, delivered, failed, decode}
pub mod Frames
pub mod Resume

pub record StreamResult : Type 0 where
  pub consumed : ℕ
  pub messages : ℕ
  pub skipped : ℕ
  pub last_error : DecodeStatus
  pub out : List Message

abbrev pub nothing_yet : StreamResult
nothing_yet = record { consumed = 0; messages = 0; skipped = 0; last_error = ok; out = [] }

-- One complete frame of `len` bytes whose message decoded so.
unfoldable pub absorb : StreamResult → ℕ → Decoded → StreamResult
absorb r len (delivered m) = record r {
  consumed = r.consumed + (frame_header_size + len);
  messages = r.messages + 1;
  out = r.out ++ m ∷ [];
}
absorb r len (failed st) = record r {
  consumed = r.consumed + (frame_header_size + len);
  skipped = r.skipped + 1;
  last_error = st;
}

-- A round takes at least the two bytes of a length prefix, so the length of the buffer is enough
-- fuel.
unfoldable pub stream_loop : ℕ → Bytes → StreamResult → StreamResult
stream_loop zero rest r = r
stream_loop (suc fuel) rest r =
    let len = load16 rest 0 in
    let available = length rest - frame_header_size in
    let body = take len (drop frame_header_size rest) in
    let go_on =
      stream_loop fuel (drop (frame_header_size + len) rest) (absorb r len (decode body)) in
    if ltb (length rest) frame_header_size then r else if ltb available len then r else go_on

unfoldable pub decode_stream : Bytes → StreamResult
unfolding stream_loop
decode_stream buf = stream_loop (length buf) buf nothing_yet
