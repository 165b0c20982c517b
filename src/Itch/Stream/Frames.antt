-- ===== src/Itch/Stream/Frames.antt =====
-- decode_stream of itch/decoder.hpp on any buffer: it is complete frames and then a partial one.
use opti_trade_engine.Prelude.{
  ℕ, zero, suc, ◌+◌, ◌-◌, ◌<◌, ◌≤◌, ◌≡◌, refl, sym, ◌∙◌, ◌⊎◌, inl, inr, List, [], ◌∷◌, ◌++◌, ltb,
  if◌then◌else◌, length, arith, All, take-append, append_assoc, length-append, append_nil,
}
use opti_trade_engine.Core.Wire.{Bytes, load16, store16}
use opti_trade_engine.Core.Frames.{
  frames, Short, load16-frame, drop_frame, length-frames, length-frame,
}
use opti_trade_engine.Itch.Messages.{Message}
use opti_trade_engine.Itch.Decoder.{Decoded, delivered, failed, decode}
use opti_trade_engine.Itch.Stream.{StreamResult, nothing_yet, absorb, stream_loop, decode_stream}

unfoldable pub with_delivery : Decoded → List Message → List Message
with_delivery (delivered m) ms = m ∷ ms
with_delivery (failed st) ms = ms

-- The messages of the bodies that decode.
unfoldable pub deliveries : List Bytes → List Message
unfolding with_delivery
deliveries [] = []
deliveries (b ∷ bs) = with_delivery (decode b) (deliveries bs)

-- Too short for its own length prefix.
abbrev pub Partial : Bytes → Type 0
Partial tail = (length tail < 2) ⊎ (length tail < 2 + load16 tail 0)

absorb_all : StreamResult → List Bytes → StreamResult
absorb_all r [] = r
absorb_all r (b ∷ bs) = absorb_all (absorb r (length b) (decode b)) bs

stops : (fuel : ℕ) (tail : Bytes) (r : StreamResult) → Partial tail → stream_loop fuel tail r ≡ r
unfolding stream_loop
stops zero tail r h = refl
stops (suc fuel) tail r (inl h) = ground arith
stops (suc fuel) tail r (inr h) = ground arith

-- Both tests pass on a complete frame.
go_on :
    (n l k : ℕ) (r s : StreamResult)
    → n ≡ 2 + (l + k)
    → (if ltb n 2 then r else if ltb (n - 2) l then r else s) ≡ s
go_on n l k r s h = ground arith

takes :
    (fuel : ℕ) (b more : Bytes) (r : StreamResult)
    → Short b
    → stream_loop (suc fuel) (store16 (length b) ++ (b ++ more)) r
      ≡ stream_loop fuel more (absorb r (length b) (decode b))
unfolding stream_loop store16
takes fuel b more r h = rw (load16-frame b (b ++ more) h) (
    rw (take-append b more) (
      rw (drop_frame b more) (
        go_on (length (store16 (length b) ++ (b ++ more))) (length b) (length more) r _
          (omega (arith, length-append b more)))))

-- Enough fuel for the frames reads them all and stops at the tail.
runs :
    (bs : List Bytes) (tail : Bytes) (fuel : ℕ) (r : StreamResult)
    → All Short bs
    → Partial tail
    → length bs ≤ fuel
    → stream_loop fuel (frames bs ++ tail) r ≡ absorb_all r bs
unfolding frames absorb_all
runs [] tail fuel r a p k = stops fuel tail r p
runs (b ∷ bs) tail zero r a p k = absurd (omega arith)
runs (b ∷ bs) tail (suc fuel) r a p k =
    rw (append_assoc (store16 (length b)) (b ++ frames bs) tail) (
      rw (append_assoc b (frames bs) tail) (
        takes fuel b (frames bs ++ tail) r a.0
        ∙ runs bs tail fuel (absorb r (length b) (decode b)) a.1 p (omega arith)))

-- What reading `n` frames of `size` bytes with the messages `ms` adds to a result.
abbrev Absorbed : StreamResult → ℕ → List Message → ℕ → StreamResult → Type 0
Absorbed r size ms n s =
    (s.consumed ≡ r.consumed + size)
    × (s.out ≡ r.out ++ ms)
    × (s.messages ≡ r.messages + length ms)
    × (s.messages + s.skipped ≡ r.messages + r.skipped + n)

absorb_next :
    (l size n : ℕ) (ms : List Message) (r s : StreamResult) (d : Decoded)
    → Absorbed (absorb r l d) size ms n s
    → (total : ℕ) → total ≡ 2 + (l + size)
    → Absorbed r total (with_delivery d ms) (suc n) s
unfolding absorb with_delivery
absorb_next l size n ms r s (delivered m) (c, o, g, k) total e =
    (omega (arith, c, e), o ∙ append_assoc r.out (m ∷ []) ms, omega (arith, g), omega (arith, k))
absorb_next l size n ms r s (failed st) (c, o, g, k) total e =
    (omega (arith, c, e), o, g, omega (arith, k))

absorb_all_lem :
    (bs : List Bytes) (r : StreamResult)
    → Absorbed r (length (frames bs)) (deliveries bs) (length bs) (absorb_all r bs)
unfolding absorb_all deliveries frames
absorb_all_lem [] r = (omega arith, sym (append_nil r.out), omega arith, omega arith)
absorb_all_lem (b ∷ bs) r =
    absorb_next (length b) (length (frames bs)) (length bs) (deliveries bs) r
      (absorb_all (absorb r (length b) (decode b)) bs) (decode b)
      (absorb_all_lem bs (absorb r (length b) (decode b))) (length (frames (b ∷ bs)))
      (length-frame b bs)

-- For every list of frame bodies of less than 2 ^ 16 bytes and every tail too short to be a frame:
-- decoding the framed bodies followed by the tail consumes exactly the frames, delivers the
-- messages of the bodies that decode, in order, and counts each body once, as a message or skipped.
pub decode_stream-frames :
    (bs : List Bytes) (tail : Bytes)
    → All Short bs
    → Partial tail
    → ((decode_stream (frames bs ++ tail)).consumed ≡ length (frames bs))
      × ((decode_stream (frames bs ++ tail)).out ≡ deliveries bs)
      × ((decode_stream (frames bs ++ tail)).messages ≡ length (deliveries bs))
      × ((decode_stream (frames bs ++ tail)).messages + (decode_stream (frames bs ++ tail)).skipped
          ≡ length bs)
unfolding decode_stream
decode_stream-frames bs tail a p =
    rw
      (runs bs tail (length (frames bs ++ tail)) nothing_yet a p
        (omega (arith, length-append (frames bs) tail, length-frames bs)))
      (let (c, o, g, k) = absorb_all_lem bs nothing_yet in
        (omega (arith, c), o, omega (arith, g), omega (arith, k)))
