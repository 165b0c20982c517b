-- ===== src/Net/Mold64/Packets.antt =====
-- net/mold64.hpp, the sending side against the receiving side: what a PacketBuilder finishes is
-- what for_each_message delivers.
use opti_trade_engine.Prelude.{
  ℕ, ◌+◌, ◌-◌, ◌^◌, ◌<◌, ◌≤◌, ◌≡◌, refl, sym, ap, ◌∙◌, Bool, true, false, List, [], ◌∷◌, ◌++◌, ◌==◌,
  if◌then◌else◌, length, take, drop, arith, All, append_assoc, length-append, some,
}
use opti_trade_engine.Core.Wire.{
  Bytes, load16, load32, load64, store16, store32, store64, load64-store64, load16-store16, ok,
}
use opti_trade_engine.Core.Frames.{frames, Short}
use opti_trade_engine.Net.Mold64.{
  kind_of, payload, for_each_message, parsed, validated, parse_header, validate_blocks, walk,
  deliver, deliver_all, write_at, PacketBuilder, new_builder, add, seal, finish,
}
use opti_trade_engine.Net.Mold64.Blocks.{numbered, walk-frames, deliver-frames}
use opti_trade_engine.Net.Mold64.Splices.{
  drop_add, take_all, write_at-append, load16_skip, load64_skip, head, length-head,
}
use opti_trade_engine.Net.Mold64.Builder.{Built, length-store64, roomy, new_builder-Built}
use opti_trade_engine.Net.Mold64.Takes.{add_each, answers, picked, add_each-Holds, add-finish}

-- Sealing writes the count into the header and nothing else.
reseal :
    (session : Bytes) (sequence count : ℕ) (f j : Bytes)
    → length session ≡ 10
    → write_at ((head session sequence 0 ++ f) ++ j) 18 (store16 count)
      ≡ (head session sequence count ++ f) ++ j
unfolding head store16
reseal session sequence count f j e =
    let q = store64 sequence in
    let lay : (c : ℕ)
        → ((session ++ (q ++ store16 c)) ++ f) ++ j ≡ (session ++ q) ++ (store16 c ++ (f ++ j)) =
      λ c.
        append_assoc (session ++ (q ++ store16 c)) f j
        ∙ append_assoc session (q ++ store16 c) (f ++ j)
        ∙ ap (λ l. session ++ l) (append_assoc q (store16 c) (f ++ j))
        ∙ sym (append_assoc session q (store16 c ++ (f ++ j))) in
    ap (λ l. write_at l 18 (store16 count)) (lay 0)
    ∙ write_at-append 18 (session ++ q) (store16 0 ++ (f ++ j)) (store16 count)
        (omega (arith, length-append session q, length-store64 sequence))
    ∙ sym (lay count)

module _ (session : Bytes) (sequence count : ℕ) (f : Bytes) (e : length session ≡ 10) where
  length_of_packet : length (head session sequence count ++ f) ≡ 20 + length f
  length_of_packet =
      omega
        (arith, length-append (head session sequence count) f, length-head session sequence count e)

  session_of : take 10 (head session sequence count ++ f) ≡ session
  unfolding head
  session_of =
      ap (take 10) (append_assoc session (store64 sequence ++ store16 count) f)
      ∙ take_all 10 session ((store64 sequence ++ store16 count) ++ f) (sym e)

  sequence_of : sequence < 2 ^ 64 → load64 (head session sequence count ++ f) 10 ≡ sequence
  unfolding head load64 load32 load16 store64 store32 store16
  sequence_of h =
      ap (λ l. load64 l 10) (append_assoc session (store64 sequence ++ store16 count) f)
      ∙ load64_skip 10 0 session ((store64 sequence ++ store16 count) ++ f) (omega (arith, e))
      ∙ load64-store64 sequence h

  count_of : count < 2 ^ 16 → load16 (head session sequence count ++ f) 18 ≡ count
  unfolding head load16 store64 store32 store16
  count_of h =
      ap (λ l. load16 l 18) (append_assoc session (store64 sequence ++ store16 count) f)
      ∙ load16_skip 18 8 session ((store64 sequence ++ store16 count) ++ f) (omega (arith, e))
      ∙ load16-store16 count h

  parse_header-head :
      sequence < 2 ^ 64
      → count < 2 ^ 16
      → parse_header (head session sequence count ++ f)
        ≡ some
            (record { session = session; sequence = sequence; count = count; kind = kind_of count })
  unfolding parse_header
  parse_header-head hs hc =
      rw (roomy (length (head session sequence count ++ f)) (omega (arith, length_of_packet))) (λ i.
        some (record {
          session = session_of i;
          sequence = sequence_of hs i;
          count = count_of hc i;
          kind = kind_of (count_of hc i);
        }))

  drop-head : drop 20 (head session sequence count ++ f) ≡ f
  drop-head =
      drop_add 20 0 (head session sequence count) f
        (omega (arith, length-head session sequence count e))

payload_count : (n : ℕ) → 0 < n → n ≤ 0xfffe → kind_of n ≡ payload
unfolding kind_of
payload_count n h k = ground arith

exactly : (n : ℕ) → n ≡ 20 → (n == 20) ≡ true
exactly n h = ground arith

received :
    (session : Bytes) (sequence : ℕ) (ms : List Bytes)
    → length session ≡ 10
    → sequence < 2 ^ 64
    → All Short ms
    → length ms ≤ 0xfffe
    → for_each_message (head session sequence (length ms) ++ frames ms) ≡ record {
      status = ok;
      hdr = some (record {
        session = session;
        sequence = sequence;
        count = length ms;
        kind = kind_of (length ms);
      });
      calls = numbered sequence 0 ms;
    }
unfolding for_each_message parsed validated validate_blocks kind_of numbered frames deliver_all
received session sequence [] e s a c =
    rw (parse_header-head session sequence 0 [] e s (omega arith)) (
      rw
        (exactly (length (head session sequence 0 ++ []))
          (length_of_packet session sequence 0 [] e))
        refl)
received session sequence (m ∷ ms) e s a c =
    rw (parse_header-head session sequence (length (m ∷ ms)) (frames (m ∷ ms)) e s (omega arith)) (
      rw (payload_count (length (m ∷ ms)) (omega arith) c) (
        rw
          (ap (walk (length (m ∷ ms)))
              (drop-head session sequence (length (m ∷ ms)) (frames (m ∷ ms)) e)
            ∙ walk-frames (m ∷ ms) a)
          (λ i. record {
            status = ok;
            hdr = some (record {
              session = session;
              sequence = sequence;
              count = length (m ∷ ms);
              kind = payload;
            });
            calls =
                (ap (deliver (length (m ∷ ms)) sequence 0)
                      (drop-head session sequence (length (m ∷ ms)) (frames (m ∷ ms)) e)
                    ∙ deliver-frames (m ∷ ms) sequence 0 a)
                  i;
          })))

unless : {A : Type 0} (t : Bool) (x y : A) → t ≡ false → (if t then x else y) ≡ y
unless t x y e = rw e refl

occupied : (n k : ℕ) → n ≡ 20 + k → (n == 0) ≡ false
occupied n k e = ground arith

finished :
    (b : PacketBuilder) (session : Bytes) (sequence room : ℕ) (ms : List Bytes)
    → Built b session sequence room ms
    → length session ≡ 10
    → (finish b).1 ≡ head session sequence (length ms) ++ frames ms
unfolding finish seal
finished b session sequence room ms u e =
    let h = head session sequence (length ms) in
    let sealed_buf : (seal b).buf ≡ (h ++ frames ms) ++ u.junk =
      ap (λ (x : PacketBuilder). x.buf) (unless b.sealed b _ u.unsealed)
      ∙ ap (λ (n : ℕ). write_at b.buf 18 (store16 n)) u.count
      ∙ ap (λ l. write_at l 18 (store16 (length ms))) u.contents
      ∙ reseal session sequence (length ms) (frames ms) u.junk e in
    ap (λ (x : PacketBuilder × Bytes). x.1) (unless (b.size == 0) _ _ (occupied b.size _ u.size))
    ∙ ap (take b.size) sealed_buf
    ∙ take_all b.size (h ++ frames ms) u.junk (
        omega
          (arith, u.size, length-append h (frames ms), length-head session sequence (length ms) e))

-- For every buffer of at least the 20 bytes of a header, session of 10 bytes, 64-bit first sequence
-- number and list of messages: the answers of a builder are that it takes a message if the packet has
-- fewer than 65534, the message has less than 2 ^ 16 bytes and its block fits what is left of the
-- buffer. The buffer keeps its length. The packet that is finished is accepted and delivers exactly the
-- messages that were taken, in order, numbered from the first sequence number, under a header with
-- that session, sequence number and count; and then no further message is taken.
pub for_each_message-finish :
    (buffer session : Bytes) (sequence : ℕ) (ms : List Bytes)
    → length session ≡ 10
    → sequence < 2 ^ 64
    → 20 ≤ length buffer
    → let (b, flags) = add_each (new_builder buffer session sequence) ms in
      let taken = picked flags ms in
      (flags ≡ answers (length buffer - 20) 0 ms)
      × (length b.buf ≡ length buffer)
      × (for_each_message (finish b).1 ≡ record {
        status = ok;
        hdr = some (record {
          session = session;
          sequence = sequence;
          count = length taken;
          kind = kind_of (length taken);
        });
        calls = numbered sequence 0 taken;
      })
      × ((m : Bytes) → add (finish b).0 m ≡ ((finish b).0, false))
unfolding frames
for_each_message-finish buffer session sequence ms e s room =
    let start = new_builder buffer session sequence in
    let b = (add_each start ms).0 in
    let taken = picked (add_each start ms).1 ms in
    let (flags, h) = add_each-Holds start session sequence (length buffer) [] ms e (record {
      built = new_builder-Built buffer session sequence e room;
      short = tt;
      few = omega arith;
      inside = room;
    }) in
    let u = h.built in
    (
      flags,
      u.capacity,
      ap for_each_message (finished b session sequence (length buffer) taken u e)
          ∙ received session sequence taken e s h.short h.few,
      λ m. add-finish b m (occupied b.size (length (frames taken)) u.size),
    )
