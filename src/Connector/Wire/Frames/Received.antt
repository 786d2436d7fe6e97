-- ===== src/Connector/Wire/Frames/Received.antt =====
-- What the client writes is what `MsgOut::recv` gives (connector/mod.rs).
use tansiv.Base.{
  ℕ, ◌+◌, ◌*◌, ◌<◌, ◌^◌, ◌≡◌, refl, ap, ◌∙◌, sym, inl, inr, Option, List, ◌++◌, arith, length, ok,
}
use mathlib.Core.List.{append_assoc}
use tansiv.Duration.{nanos_per_sec}
use tansiv.BufferPool
use tansiv.BufferPool.{BufferPool, Buffer, allocate_buffer, deref, deref_mut}
use tansiv.BufferPool.Alloc.{busy_count, allocate_buffer_free}
use tansiv.BufferPool.Bytes.{bytes}
use tansiv.BufferPool.Bytes.Slices.{deref-deref_mut_self}
use tansiv.BufferPool.Builders.{Flatbuffers, builders}
use tansiv.Connector.{Codec, Handle, Pool, Reader, Time, allocate}
use tansiv.Connector.Send
use tansiv.Connector.Send.{Frame, MsgOut, frame_of, finish}
use tansiv.Connector.Stream.{goto_of-bounds}
use tansiv.Connector.Wire.{Encoder}
use tansiv.Connector.Wire.Actor.{
  ToTansivMsg, packet_out, content_out, keep_builder, read_out, recv_out,
}
use tansiv.Connector.Wire.Frames.{Sender, FrameFits, ToInRange, table, frame_bytes}
use tansiv.Connector.Wire.RoundTrip.{
  Room, Placed, allocate_buffer-Placed, read_exact-append, read_prefixed_size-written,
}

module _ {codec : Codec} (enc : Encoder codec) (F : Flatbuffers)
    {root : List ℕ → Option ToTansivMsg} (out : Sender root) where
  -- The message of a frame, rebuilt in a buffer.
  abbrev pub rebuilt : Frame → Buffer (builders F) → MsgOut F
  rebuilt Frame.at_deadline b = MsgOut.at_deadline
  rebuilt (Frame.send_packet src dst seconds nseconds payload) b =
      let time = seconds * nanos_per_sec + nseconds in
      MsgOut.send_packet (finish F (Send.new F src dst time payload b) time)

  pub frame_of-rebuilt :
      (f : Frame) (b : Buffer (builders F)) → FrameFits f → frame_of F (rebuilt f b) ≡ f
  unfolding finish Send.new
  frame_of-rebuilt Frame.at_deadline b h = refl
  frame_of-rebuilt (Frame.send_packet src dst seconds nseconds payload) b h = ground arith

  pub table-ToInRange : (f : Frame) → FrameFits f → ToInRange (table f)
  table-ToInRange Frame.at_deadline h = tt
  table-ToInRange (Frame.send_packet src dst seconds nseconds payload) h =
      ((h.0, h.1), (h.2, omega arith), h.4)

  content_out-table :
      (f : Frame) (b : Buffer (builders F))
      → FrameFits f
      → content_out codec F root (table f) b ≡ ok (rebuilt f b)
  unfolding content_out packet_out
  content_out-table Frame.at_deadline b h = refl
  content_out-table (Frame.send_packet src dst seconds nseconds payload) b h =
      let time : Time = record { seconds = seconds; nseconds = nseconds } in
      elim (goto_of-bounds codec time h.2) [
        | inl (q, below) ↦ rw (content_out, packet_out, q) refl
        | inr (q, over) ↦ absurd (omega arith)
      ]

  -- What the two pools are when the actor has received a message: its bytes were in the buffer `b`, and
  -- the message is rebuilt in `fb`.
  abbrev pub after_pool : Pool → Handle → List ℕ → Pool
  after_pool pool b content = BufferPool.drop bytes (deref_mut bytes pool b content) b

  -- The run of `MsgOut::recv` on a stream that starts with a message, where both pools serve a buffer.
  pub recv_out-served :
      (f : Frame) (rest : List ℕ) (r : Reader) (pool : Pool) (fb_pool : BufferPool (builders F))
      → FrameFits f
      → length (out.body (table f)) < 2 ^ 32
      → r.bytes ≡ frame_bytes enc out f ++ rest
      → (b : Handle) (served : Pool)
      → allocate_buffer bytes pool (length (out.body (table f))) ≡ ok (b, served)
      → Placed served (length (out.body (table f))) b
      → (fb : Buffer (builders F)) (fb_served : BufferPool (builders F))
      → allocate_buffer (builders F) fb_pool 0 ≡ ok (fb, fb_served)
      → recv_out codec F root (r, pool, fb_pool) ≡ (
        ok (rebuilt f fb),
        (
          record r { bytes = rest },
          after_pool served b (out.body (table f)),
          keep_builder codec F root (ok (rebuilt f fb)) fb fb_served,
        ),
      )
  unfolding recv_out read_out allocate frame_bytes
  recv_out-served f rest r pool fb_pool h small s b served e p fb fb_served fe =
      let content = out.body (table f) in
      let size = enc.prefix (length content) in
      let front : r.bytes ≡ size ++ (content ++ rest) = s ∙ append_assoc size content rest in
      let sized = read_prefixed_size-written enc r (content ++ rest) (length content) small front in
      let exact = read_exact-append (record r { bytes = content ++ rest }) content rest refl in
      let same : deref bytes (deref_mut bytes served b content) b ≡ content =
        deref-deref_mut_self served b content p.whole (omega (arith, p.sized, p.fits)) p.below
          (sym p.sized) in
      rw
        (
          recv_out,
          ap (λ x. x.0) sized,
          allocate,
          e,
          ap (λ x. x.1) sized,
          ap (λ x. x.0) exact,
          ap (λ x. x.1) sized,
          ap (λ x. x.1) exact,
          same,
          read_out,
          out.root-body (table f) (table-ToInRange f h),
          fe,
          content_out-table f fb h,
        )
        refl

  -- A message of the client that stands at the front of the stream is received by the actor as a message
  -- with the same contents, and the stream goes on behind it, whatever follows: where its fields are in
  -- range, its size fits in four bytes, and the actor has a free buffer of that size and a free builder.
  pub recv_out-frame_bytes :
      (f : Frame) (rest : List ℕ) (r : Reader) (pool : Pool) (fb_pool : BufferPool (builders F))
      → FrameFits f
      → length (out.body (table f)) < 2 ^ 32
      → r.bytes ≡ frame_bytes enc out f ++ rest
      → Room pool (length (out.body (table f)))
      → busy_count (builders F) fb_pool < fb_pool.num_buffers
      → let (result, after) = recv_out codec F root (r, pool, fb_pool) in
        (m : MsgOut F) × (result ≡ ok m) × (frame_of F m ≡ f) × (after.0.bytes ≡ rest)
  recv_out-frame_bytes f rest r pool fb_pool h small s room free =
      let (b, served, e, p) = allocate_buffer-Placed pool (length (out.body (table f))) room in
      let (fb, fb_served, fe) = allocate_buffer_free (builders F) fb_pool 0 (omega arith) free in
      let run = recv_out-served f rest r pool fb_pool h small s b served e p fb fb_served fe in
      (rebuilt f fb, ap (λ x. x.0) run, frame_of-rebuilt f fb h, ap (λ x. x.1.0.bytes) run)
