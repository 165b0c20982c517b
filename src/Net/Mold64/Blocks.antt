-- ===== src/Net/Mold64/Blocks.antt =====
-- net/mold64.hpp, the receiving side: what for_each_message accepts and what it delivers.
use opti_trade_engine.Prelude.{
  ℕ, zero, suc, ◌+◌, ◌-◌, ◌%◌, ◌^◌, ◌<◌, ◌≤◌, ◌≡◌, ◌≢◌, ◌⊎◌, refl, sym, ap, ◌∙◌, List, [], ◌∷◌,
  ◌++◌, ltb, ◌==◌, if◌then◌else◌, length, take, drop, arith, All, take-append, append_nil, inl, inr,
  length-take, length-drop, take-append-drop, Option, some, none,
}
use opti_trade_engine.Core.Wire.{
  Bytes, load16, store16, DecodeStatus, ok, truncated, unknown_type, bad_length, bad_field,
}
use opti_trade_engine.Core.Frames.{
  frames, Short, IsByte, load16-frame, drop_frame, length-frame, store16-load16, load16_bound,
  All-drop, rejoin,
}
use opti_trade_engine.Net.Mold64.{
  deliver_all, validated, parsed, Header, Kind, payload, heartbeat, end_of_session, walk, deliver,
  Delivery, Feed, for_each_message, validate_blocks, advance_of, header_size, parse_header,
}

-- The deliveries of the messages, numbered from `sequence` on.
unfoldable pub numbered : ℕ → ℕ → List Bytes → List Delivery
numbered sequence i [] = []
numbered sequence i (b ∷ bs) =
    record { seq = (sequence + i) % 2 ^ 64; message = b } ∷ numbered sequence (i + 1) bs

-- Both tests of a block pass.
block_fits :
    (n l k : ℕ) (s : DecodeStatus)
    → n ≡ 2 + (l + k)
    → (if ltb n 2 then truncated else if ltb (n - 2) l then truncated else s) ≡ s
block_fits n l k s h = ground arith

pub walk-frames : (bs : List Bytes) → All Short bs → walk (length bs) (frames bs) ≡ ok
unfolding walk frames
walk-frames [] a = refl
walk-frames (b ∷ bs) a = rw (load16-frame b (b ++ frames bs) a.0) (
    rw (drop_frame b (frames bs)) (
      block_fits (length (store16 (length b) ++ (b ++ frames bs))) (length b) (length (frames bs)) _
        (length-frame b bs)
      ∙ walk-frames bs a.1))

pub deliver-frames :
    (bs : List Bytes) (sequence i : ℕ)
    → All Short bs
    → deliver (length bs) sequence i (frames bs) ≡ numbered sequence i bs
unfolding deliver frames numbered store16
deliver-frames [] sequence i a = refl
deliver-frames (b ∷ bs) sequence i a = rw (load16-frame b (b ++ frames bs) a.0) (
    rw (drop_frame b (frames bs))
      (rw (take-append b (frames bs)) (rw (deliver-frames bs sequence (i + 1) a.1) refl)))

-- What a walk accepts is that many frames.
abbrev Blocks : ℕ → Bytes → Type 0
Blocks n rest = (bs : List Bytes) × (rest ≡ frames bs) × (length bs ≡ n) × All Short bs

passed :
    (n l : ℕ) (s : DecodeStatus)
    → (if ltb n 2 then truncated else if ltb (n - 2) l then truncated else s) ≡ ok
    → (2 + l ≤ n) × (s ≡ ok)
passed n l s h = ground arith

walk-ok : (n : ℕ) (rest : Bytes) → All IsByte rest → walk n rest ≡ ok → Blocks n rest
unfolding walk frames
walk-ok zero [] a h = ([], refl, refl, tt)
walk-ok zero (x ∷ xs) a h = absurd (ground arith)
walk-ok (suc n) [] a h = absurd (ground arith)
walk-ok (suc n) (x ∷ []) a h = absurd (ground arith)
walk-ok (suc n) (x ∷ y ∷ rest) a h =
    let len = load16 (x ∷ y ∷ rest) 0 in
    let small : len < 2 ^ 16 = load16_bound x y rest a.0 a.1.0 in
    let (room, rec) =
      passed (length (x ∷ y ∷ rest)) len (walk n (drop (2 + len) (x ∷ y ∷ rest))) h in
    let two : 2 + len ≡ suc (suc len) = omega arith in
    let next : drop (2 + len) (x ∷ y ∷ rest) ≡ drop len rest = rw two refl in
    let full : length (take len rest) ≡ len = ground (arith, length-take len rest) in
    let (bs, e, c, s) =
      walk-ok n (drop len rest) (All-drop len rest a.1.1) (ap (walk n) (sym next) ∙ rec) in
    (
      take len rest ∷ bs,
      rejoin x y len (take len rest) (drop len rest) rest (frames bs) [] (take-append-drop len rest)
            (e ∙ sym (append_nil (frames bs))) full (store16-load16 x y rest a.0 a.1.0)
          ∙ append_nil (store16 (length (take len rest)) ++ (take len rest ++ frames bs)),
      ap suc c,
      (rw full small, s),
    )

-- What is promised of a feed of a packet whose header is `o`.
abbrev pub Accepts : Bytes → Option Header → Feed → Type 0
Accepts packet o feed =
    ((feed.status ≡ ok)
      × ((h : Header) × (bs : List Bytes) × (feed.hdr ≡ some h)
          × (o ≡ some h)
          × (drop header_size packet ≡ frames bs)
          × (length bs ≡ advance_of h)
          × (feed.calls ≡ numbered h.sequence 0 bs)))
    ⊎ ((feed.status ≢ ok) × (feed.calls ≡ []))

-- A packet that is its header alone.
alone :
    (packet : Bytes)
    → (if length packet == header_size then ok else bad_length) ≡ ok
    → drop header_size packet ≡ []
alone packet h = empty (drop header_size packet) (ground (arith, length-drop header_size packet))
  where
    empty : (xs : Bytes) → length xs ≡ 0 → xs ≡ []
    empty [] e = refl
    empty (x ∷ xs) e = absurd (omega arith)

blocks_of :
    (packet session : Bytes) (sequence count : ℕ) (k : Kind)
    → All IsByte packet
    → validate_blocks packet
        (record { session = session; sequence = sequence; count = count; kind = k })
      ≡ ok
    → (bs : List Bytes) × (drop header_size packet ≡ frames bs)
      × (length bs
          ≡ advance_of (record { session = session; sequence = sequence; count = count; kind = k }))
      × (deliver_all packet
            (record { session = session; sequence = sequence; count = count; kind = k })
          ≡ numbered sequence 0 bs)
unfolding validate_blocks advance_of frames numbered deliver_all
blocks_of packet se sq c heartbeat a h = ([], alone packet h, refl, refl)
blocks_of packet se sq c end_of_session a h = ([], alone packet h, refl, refl)
blocks_of packet se sq c payload a h =
    let (bs, e, l, s) = walk-ok c (drop header_size packet) (All-drop header_size packet a) h in
    (bs, e, l, rw e (ap (λ (n : ℕ). deliver n sq 0 (frames bs)) (sym l) ∙ deliver-frames bs sq 0 s))

validated-Accepts :
    (packet : Bytes) (h : Header) (st : DecodeStatus)
    → All IsByte packet
    → validate_blocks packet h ≡ st
    → Accepts packet (some h) (validated packet h st)
unfolding validated
validated-Accepts packet h ok a e =
    let (bs, f, l, d) = blocks_of packet h.session h.sequence h.count h.kind a e in
    inl (refl, (h, bs, refl, refl, f, l, d))
validated-Accepts packet h truncated a e = inr ((λ s. absurd (ground arith)), refl)
validated-Accepts packet h unknown_type a e = inr ((λ s. absurd (ground arith)), refl)
validated-Accepts packet h bad_length a e = inr ((λ s. absurd (ground arith)), refl)
validated-Accepts packet h bad_field a e = inr ((λ s. absurd (ground arith)), refl)

parsed-Accepts :
    (packet : Bytes) (o : Option Header) → All IsByte packet → Accepts packet o (parsed packet o)
unfolding parsed
parsed-Accepts packet none a = inr ((λ s. absurd (ground arith)), refl)
parsed-Accepts packet (some h) a = validated-Accepts packet h (validate_blocks packet h) a refl

-- For every packet of bytes, one of two things. It is accepted: its header was read, what follows
-- the header is exactly as many length-prefixed messages as the header announces (none for a
-- heartbeat or an end of session), and the handler was called once for each, in order, the k-th
-- with the header's sequence number plus k, modulo 2 ^ 64. Or it is not, and the handler was not
-- called.
pub for_each_message-Accepts :
    (packet : Bytes)
    → All IsByte packet
    → Accepts packet (parse_header packet) (for_each_message packet)
unfolding for_each_message
for_each_message-Accepts packet a = parsed-Accepts packet (parse_header packet) a
