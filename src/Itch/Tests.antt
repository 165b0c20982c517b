-- ===== src/Itch/Tests.antt =====
-- Runs of include/optitrade/itch on concrete bytes, and the theorems at those runs.
use opti_trade_engine.Prelude.{
  ◌+◌, ◌≡◌, refl, inl, false, List, [], ◌∷◌, ◌++◌, some, arith, length, drop,
}
use opti_trade_engine.Prelude.Int.{pos}
use opti_trade_engine.Core.Types.{sell}
use opti_trade_engine.Core.Frames.{frames}
use opti_trade_engine.Core.Wire.{Bytes}
use opti_trade_engine.Itch.Messages
use opti_trade_engine.Itch.Messages.{Message, message_length}
use opti_trade_engine.Itch.Encoder.{encode}
use opti_trade_engine.Itch.Decoder.{decode, delivered, no_mpid}
use opti_trade_engine.Itch.Layout.{wire_length, Fits}
use opti_trade_engine.Itch.RoundTrip.{decode-encode}
use opti_trade_engine.Itch.Stream.{decode_stream}
use opti_trade_engine.Itch.Stream.Frames.{deliveries, decode_stream-frames}
use opti_trade_engine.Itch.Stream.Resume.{decode_stream-resume}

abbrev header : Messages.Header
header = record { locate = 7; tracking = 1; timestamp = 34200000000000 }

abbrev order : Messages.AddOrder
order = record {
  h = header;
  ref = 42;
  side = sell;
  shares = 300;
  symbol = record {
    c0 = b'A';
    c1 = b'A';
    c2 = b'P';
    c3 = b'L';
    c4 = b' ';
    c5 = b' ';
    c6 = b' ';
    c7 = b' ';
  };
  price = pos 1500000;
  has_attribution = false;
  mpid = no_mpid;
}

order-Fits : Fits (Messages.add_order order)
order-Fits = (
  record { locate = omega arith; tracking = omega arith; timestamp = omega arith },
  omega arith,
  omega arith,
  (λ e. absurd (omega arith)),
  (1500000, refl, omega arith),
  (λ e. refl),
)

decode-encode_example :
    (bs : Bytes) × (encode (Messages.add_order order) 64 ≡ some bs)
    × (length bs ≡ wire_length (Messages.add_order order))
    × (decode bs ≡ delivered (Messages.add_order order))
unfolding wire_length
decode-encode_example = decode-encode (Messages.add_order order) 64 order-Fits (omega arith)

-- A deletion, a message of an unknown type, and the first byte of a third frame.
abbrev deletion : Bytes
deletion = b'D' ∷ 0 ∷ 7 ∷ 0 ∷ 1 ∷ 0 ∷ 0 ∷ 0 ∷ 0 ∷ 0 ∷ 9 ∷ 0 ∷ 0 ∷ 0 ∷ 0 ∷ 0 ∷ 0 ∷ 0 ∷ 42 ∷ []

abbrev bodies : List Bytes
bodies = deletion ∷ (b'Z' ∷ []) ∷ []

decode_stream-frames_example :
    ((decode_stream (frames bodies ++ (0 ∷ []))).consumed ≡ length (frames bodies))
    × ((decode_stream (frames bodies ++ (0 ∷ []))).out ≡ deliveries bodies)
    × ((decode_stream (frames bodies ++ (0 ∷ []))).messages ≡ length (deliveries bodies))
    × ((decode_stream (frames bodies ++ (0 ∷ []))).messages
          + (decode_stream (frames bodies ++ (0 ∷ []))).skipped
        ≡ length bodies)
decode_stream-frames_example =
    decode_stream-frames bodies (0 ∷ []) (omega arith, (omega arith, tt)) (inl (omega arith))

-- The stream is cut inside its first frame.
abbrev arrived : Bytes
arrived = 0 ∷ 1 ∷ []

abbrev later : Bytes
later = b'Z' ∷ 0 ∷ []

decode_stream-resume_example :
    ((decode_stream (arrived ++ later)).out
      ≡ (decode_stream arrived).out
        ++ (decode_stream (drop (decode_stream arrived).consumed arrived ++ later)).out)
    × ((decode_stream (arrived ++ later)).consumed
        ≡ (decode_stream arrived).consumed
          + (decode_stream (drop (decode_stream arrived).consumed arrived ++ later)).consumed)
decode_stream-resume_example =
    decode_stream-resume arrived later (omega arith, (omega arith, tt))
      (omega arith, (omega arith, tt))
