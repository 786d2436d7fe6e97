-- ===== src/Connector/Wire/RoundTrip.antt =====
-- What the actor writes is what `MsgIn::recv` gives (connector/mod.rs).
use tansiv.Base.{
  All, ℕ, ◌+◌, ◌*◌, ◌≤◌, ◌<◌, ◌^◌, ◌≡◌, refl, ap, ◌∙◌, sym, inl, inr, some, List, ◌++◌, arith, leb,
  le→leb, true, length, length-append, take_append, drop_append, ok,
}
use mathlib.Core.List.{append_assoc}
use tansiv.Duration.{as_secs, subsec_nanos, nanos_per_sec, duration_limit}
use tansiv.BufferPool.{allocate_buffer, deref, deref_mut}
use tansiv.BufferPool.Alloc.{busy_count, allocate_buffer_free, allocate_buffer-Served}
use tansiv.BufferPool.Bytes.{bytes, reset, new, get_mut}
use tansiv.BufferPool.Bytes.Slices.{length-write_at, deref-deref_mut_self}
use tansiv.Connector.{
  Codec, Handle, Pool, Reader, Time, MsgIn, FromTansivMsg, read_exact, read_prefixed_size, allocate,
  decode, new_deliver_packet, new_goto_deadline, release, recv_into, recv,
}
use tansiv.Connector.Stream.{goto_of-bounds}
use tansiv.Connector.Wire.{
  Encoder, InRange, create_end_simulation, create_goto_deadline, create_deliver_packet,
  prepare_deliver_packet,
}
use tansiv.Context.Application.{Packet, deserialize}

-- A message of the actor.
pub data ActorMsg : Type 0 where
  packet : Packet → ActorMsg
  deadline : ℕ → ActorMsg
  end : ActorMsg

-- The addresses of a packet have 32 bits and its payload is bytes; a deadline fits in a `Duration`.
abbrev pub Fits : ActorMsg → Type 0
Fits (packet p) = (p.src < 2 ^ 32) × (p.dst < 2 ^ 32) × All (λ b. b < 256) p.payload
Fits (deadline d) = d < duration_limit
Fits end = Unit

-- The flags and the bytes of a pool have room for one more buffer of a size.
pub record Room (pool : Pool) (size : ℕ) : Type 0 where
  pub whole : pool.buffer_size * pool.num_buffers ≤ length pool.buffers
  pub fits : size ≤ pool.buffer_size
  pub free : busy_count bytes pool < pool.num_buffers

-- A served buffer of a whole pool has the size asked for, and lies within the pool.
pub record Placed (pool : Pool) (size : ℕ) (b : Handle) : Type 0 where
  pub whole : pool.buffer_size * pool.num_buffers ≤ length pool.buffers
  pub sized : b.inner.size ≡ size
  pub fits : size ≤ pool.buffer_size
  pub below : b.index < pool.num_buffers

pub served-Placed :
    (pool : Pool) (size : ℕ) {b : Handle} {after : Pool}
    → pool.buffer_size * pool.num_buffers ≤ length pool.buffers
    → allocate_buffer bytes pool size ≡ ok (b, after)
    → Placed after size b
unfolding reset new get_mut
served-Placed pool size {b} {after} whole e =
    let s = allocate_buffer-Served bytes pool size e in
    let length_kept : length after.buffers ≡ length pool.buffers =
      ap (λ x. length x.1.buffers) s.same ∙ length-write_at pool.buffers _ _ in
    let buffer_size_kept : after.buffer_size ≡ pool.buffer_size =
      ap (λ x. x.1.buffer_size) s.same in
    let num_buffers_kept : after.num_buffers ≡ pool.num_buffers =
      ap (λ x. x.1.num_buffers) s.same in
    record {
      whole = rw (buffer_size_kept, num_buffers_kept, length_kept) whole;
      sized = ap (λ x. x.0.inner.size) s.same;
      fits = rw buffer_size_kept s.fits;
      below = rw num_buffers_kept s.below;
    }

pub allocate_buffer-Placed :
    (pool : Pool) (size : ℕ)
    → Room pool size
    → (b : Handle) × (after : Pool) × (allocate_buffer bytes pool size ≡ ok (b, after))
      × Placed after size b
allocate_buffer-Placed pool size r =
    let (b, after, e) = allocate_buffer_free bytes pool size r.fits r.free in
    (b, after, e, served-Placed pool size r.whole e)

pub read_exact-append :
    (r : Reader) (content rest : List ℕ)
    → r.bytes ≡ content ++ rest
    → read_exact r (length content) ≡ (ok content, record r { bytes = rest })
unfolding read_exact
read_exact-append r content rest e =
    let reaches : leb (length content) (length (content ++ rest)) ≡ true =
      le→leb (length content) (length (content ++ rest))
        (omega (arith, length-append content rest)) in
    rw (read_exact, e, reaches, take_append content rest, drop_append content rest) refl

module _ {codec : Codec} (enc : Encoder codec) where
  abbrev pub table : ActorMsg → FromTansivMsg
  table (packet p) = prepare_deliver_packet enc p.src p.dst p.payload
  table (deadline d) =
      FromTansivMsg.goto_deadline
        (some (record { time = some (record { seconds = as_secs d; nseconds = subsec_nanos d }) }))
  table end = FromTansivMsg.end_simulation

  table-InRange : (a : ActorMsg) → Fits a → InRange (table a)
  table-InRange (packet p) h = ((h.0, h.1), h.2)
  table-InRange (deadline d) h = (omega arith, omega arith)
  table-InRange end h = tt

  -- The bytes of a message on the stream.
  abbrev pub written : ActorMsg → List ℕ
  written (packet p) = create_deliver_packet enc p.src p.dst p.payload
  written (deadline d) = create_goto_deadline enc d
  written end = create_end_simulation enc

  -- What the client has of the message: the same deadline or end, or a packet whose buffer reads as the
  -- same source, destination and payload, and lies within its slot.
  abbrev pub Reads : Pool → ActorMsg → MsgIn → Type 0
  Reads pool (packet p) m =
      (b : Handle) × (m ≡ MsgIn.deliver_packet b)
      × (deserialize codec pool b ≡ some p)
      × (b.inner.size ≤ pool.buffer_size)
  Reads pool (deadline d) m = m ≡ MsgIn.goto_deadline d
  Reads pool end m = m ≡ MsgIn.end_simulation

  decode-table :
      (a : ActorMsg) (pool : Pool) (b : Handle)
      → Fits a
      → b.inner.size ≤ pool.buffer_size
      → codec.root (deref bytes pool b) ≡ some (table a)
      → (m : MsgIn) × (decode codec (deref bytes pool b) b ≡ ok m)
        × Reads (release codec (ok m) b pool) a m
  unfolding decode new_deliver_packet new_goto_deadline deserialize
  decode-table (packet p) pool b h z e = (
    MsgIn.deliver_packet b,
    rw (decode, e, new_deliver_packet) refl,
    (b, refl, rw (deserialize, e) refl, z),
  )
  decode-table (deadline d) pool b h z e =
      let time : Time = record { seconds = as_secs d; nseconds = subsec_nanos d } in
      elim (goto_of-bounds codec time (omega arith)) [
        | inr (q, over) ↦ absurd (omega arith)
        | inl (q, below) ↦
            let whole : as_secs d * nanos_per_sec + subsec_nanos d ≡ d = omega arith in
            (MsgIn.goto_deadline d, rw (decode, e, new_goto_deadline, q, whole) refl, refl)
      ]
  decode-table end pool b h z e = (MsgIn.end_simulation, rw (decode, e) refl, refl)

  -- The bytes of a message, whatever they are, are decoded from the buffer that they are read into.
  pub recv_into-run :
      (content rest : List ℕ) (b : Handle) (r : Reader) (pool : Pool)
      → r.bytes ≡ content ++ rest
      → Placed pool (length content) b
      → recv_into codec (length content) b r pool ≡ (
        decode codec content b,
        record r { bytes = rest },
        release codec (decode codec content b) b (deref_mut bytes pool b content),
      )
  unfolding recv_into deref_mut
  recv_into-run content rest b r pool s p =
      let same : deref bytes (deref_mut bytes pool b content) b ≡ content =
        deref-deref_mut_self pool b content p.whole (omega (arith, p.sized, p.fits)) p.below
          (sym p.sized) in
      let exact = read_exact-append r content rest s in
      rw (recv_into, ap (λ x. x.0) exact, ap (λ x. x.1) exact, same) refl

  recv_into-written :
      (a : ActorMsg) (content rest : List ℕ) (b : Handle) (r : Reader) (pool : Pool)
      → Fits a
      → codec.root content ≡ some (table a)
      → r.bytes ≡ content ++ rest
      → Placed pool (length content) b
      → let (msg, r', pool') = recv_into codec (length content) b r pool in
        (m : MsgIn) × (msg ≡ ok m) × Reads pool' a m × (r'.bytes ≡ rest)
  unfolding deref_mut
  recv_into-written a content rest b r pool h e s p =
      let filled = deref_mut bytes pool b content in
      let same : deref bytes filled b ≡ content =
        deref-deref_mut_self pool b content p.whole (omega (arith, p.sized, p.fits)) p.below
          (sym p.sized) in
      let (m, q, reads) =
        decode-table a filled b h (omega (arith, p.sized, p.fits)) (ap codec.root same ∙ e) in
      let decoded : decode codec content b ≡ ok m = ap (λ c. decode codec c b) (sym same) ∙ q in
      rw (recv_into-run content rest b r pool s p) (m, decoded, rw decoded reads, refl)

  -- The bytes behind the prefix.
  abbrev pub body_of : ActorMsg → List ℕ
  body_of a = enc.body (table a)

  written-eq : (a : ActorMsg) → written a ≡ enc.prefix (length (body_of a)) ++ body_of a
  unfolding create_deliver_packet create_goto_deadline create_end_simulation
  written-eq (packet p) = refl
  written-eq (deadline d) = refl
  written-eq end = refl

  -- A message takes the four bytes of its size, at least.
  pub length-written : (a : ActorMsg) → 4 ≤ length (written a)
  length-written a = omega (
    arith,
    ap length (written-eq a),
    length-append (enc.prefix (length (body_of a))) (body_of a),
    enc.length-prefix (length (body_of a)),
  )

  pub read_prefixed_size-written :
      (r : Reader) (rest : List ℕ) (n : ℕ)
      → n < 2 ^ 32
      → r.bytes ≡ enc.prefix n ++ rest
      → read_prefixed_size codec r ≡ (ok n, record r { bytes = rest })
  unfolding read_prefixed_size
  read_prefixed_size-written r rest n small s =
      let first : read_exact r 4 ≡ (ok (enc.prefix n), record r { bytes = rest }) =
        ap (read_exact r) (sym (enc.length-prefix n)) ∙ read_exact-append r (enc.prefix n) rest s in
      rw
        (
          read_prefixed_size,
          ap (λ x. x.0) first,
          ap (λ x. x.1) first,
          enc.read_scalar-prefix n small,
        )
        refl

  pub recv-written :
      (a : ActorMsg) (rest : List ℕ) (r : Reader) (pool : Pool)
      → Fits a
      → length (body_of a) < 2 ^ 32
      → r.bytes ≡ written a ++ rest
      → Room pool (length (body_of a))
      → (m : MsgIn) × ((recv codec r pool).0 ≡ ok m)
        × Reads (recv codec r pool).2 a m
        × ((recv codec r pool).1.bytes ≡ rest)
  unfolding recv allocate
  recv-written a rest r pool h small s room =
      let content = body_of a in
      let size = enc.prefix (length content) in
      let front : r.bytes ≡ size ++ (content ++ rest) =
        s ∙ ap (λ l. l ++ rest) (written-eq a) ∙ append_assoc size content rest in
      let (b, after, e, placed) = allocate_buffer-Placed pool (length content) room in
      let (m, q, reads, left) =
        recv_into-written a content rest b (record r { bytes = content ++ rest }) after h
          (enc.root-body (table a) (table-InRange a h)) refl placed in
      let sized = read_prefixed_size-written r (content ++ rest) (length content) small front in
      let received : recv codec r pool
          ≡ recv_into codec (length content) b (record r { bytes = content ++ rest }) after =
        rw (recv, ap (λ x. x.0) sized, allocate, e, ap (λ x. x.1) sized) refl in
      rw received (m, q, reads, left)
