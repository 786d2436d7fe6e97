-- ===== src/TestActor/Turns.antt =====
-- What the test actor does in one turn, where its pools are quiet and its writes succeed
-- (connector/unix.rs, connector/mod.rs).
use tansiv.Base.{
  ℕ, ◌+◌, ◌*◌, ◌≤◌, ◌<◌, ◌≡◌, refl, ap, ◌∙◌, Option, none, some, List, ◌++◌, arith, length,
  length-replicate, ok,
}
use tansiv.Error.{IoError}
use tansiv.BufferPool
use tansiv.BufferPool.{InnerBuffer, BufferPool, Buffer, allocate_buffer, deref_mut}
use tansiv.BufferPool.Quiet.{
  Quiet, Lent, allocate_buffer-Quiet, busy_count-Quiet, allocate_buffer-Lent,
}
use tansiv.BufferPool.Bytes.{bytes, reset, new, get_mut, calloc}
use tansiv.BufferPool.Bytes.Slices.{length-write_at}
use tansiv.BufferPool.Builders.{Flatbuffers, builders}
use tansiv.Connector.{Codec, Handle, Pool, Reader, MsgIn, max_packet_size}
use tansiv.Connector.Send
use tansiv.Connector.Send.{Frame, MsgOut, finish}
use tansiv.Connector.Wire.{Encoder, bytes_in, drop_in, send_in}
use tansiv.Connector.Wire.Actor.{ToTansivMsg, keep_builder}
use tansiv.Connector.Wire.Frames.{Sender, FrameFits, table, frame_bytes}
use tansiv.Connector.Wire.Frames.Received.{rebuilt, after_pool, recv_out-served}
use tansiv.Connector.Wire.RoundTrip.{Room, allocate_buffer-Placed}
use tansiv.TestActor
use tansiv.TestActor.{TestActor, TestError, send, recv, write_all, send_control, discard}

module _ {codec : Codec} (enc : Encoder codec) (F : Flatbuffers)
    {root : List ℕ → Option ToTansivMsg} (out : Sender root) where
  abbrev Actor : Type 0
  Actor = TestActor enc F root

  -- No buffer is in use, there is one of each kind, and every write succeeds.
  pub record Ready (a : Actor) : Type 0 where
    pub quiet : Quiet bytes a.input_buffer_pool
    pub whole :
        a.input_buffer_pool.buffer_size * a.input_buffer_pool.num_buffers
        ≤ length a.input_buffer_pool.buffers
    pub sized : a.input_buffer_pool.buffer_size ≡ max_packet_size
    pub fb_quiet : Quiet (builders F) a.input_fb_buffer_pool
    pub fb_sized : 1 ≤ a.input_fb_buffer_pool.buffer_size
    pub fine : (n : ℕ) → a.outcome n ≡ none

  new-whole :
      (z n : ℕ)
      → (BufferPool.new bytes z n).buffer_size * (BufferPool.new bytes z n).num_buffers
        ≤ length (BufferPool.new bytes z n).buffers
  unfolding BufferPool.new calloc
  new-whole z n = omega (arith, length-replicate {A = ℕ} (z * n) 0)

  pub new-Quiet : (T : InnerBuffer) (z n : ℕ) → 0 < n → Quiet T (BufferPool.new T z n)
  unfolding BufferPool.new
  new-Quiet T z n h = record { idle = λ i. refl; some_buffer = h }

  pub new-Ready :
      (client : Reader) (outcome : ℕ → Option IoError)
      → ((n : ℕ) → outcome n ≡ none)
      → Ready (TestActor.new enc F root client outcome)
  unfolding TestActor.new BufferPool.new
  new-Ready client outcome fine = record {
    quiet = new-Quiet bytes max_packet_size 100 (omega arith);
    whole = new-whole max_packet_size 100;
    sized = refl;
    fb_quiet = new-Quiet (builders F) max_packet_size 100 (omega arith);
    fb_sized = omega arith;
    fine = fine;
  }

  -- A message without a buffer is written.
  pub send_control-written :
      (m : MsgIn) (b : List ℕ) (a : Actor)
      → bytes_in enc a.input_buffer_pool m ≡ some b
      → Ready a
      → (a' : Actor) × (send_control enc F root m a ≡ (ok tt, a'))
        × Ready a'
        × (a'.written ≡ a.written ++ b)
        × (a'.client ≡ a.client)
  unfolding send send_in write_all
  send_control-written m b a e r =
      let (fb, served, q, lent) =
        allocate_buffer-Quiet (builders F) a.input_fb_buffer_pool 1 r.fb_quiet r.fb_sized in
      let sent : send_in enc F a.input_buffer_pool a.input_fb_buffer_pool m
          ≡ (ok b, drop_in enc a.input_buffer_pool m, BufferPool.drop (builders F) served fb) =
        rw (send_in, q, e) refl in
      let after : Actor = record a {
        input_fb_buffer_pool = BufferPool.drop (builders F) served fb;
        attempts = a.attempts + 1;
        written = a.written ++ b;
      } in
      (
        after,
        rw (send, ap (λ x. x.0) sent, write_all, r.fine a.attempts, ap (λ x. x.2) sent) refl,
        record {
          quiet = r.quiet;
          whole = r.whole;
          sized = r.sized;
          fb_quiet = lent.back;
          fb_sized = rw lent.sized r.fb_sized;
          fine = r.fine;
        },
        refl,
        refl,
      )

  after_pool-kept :
      (pool served : Pool) (n : ℕ) (b : Handle) (content : List ℕ)
      → Lent bytes pool n b served
      → (length (after_pool enc F out served b content).buffers ≡ length pool.buffers)
        × ((after_pool enc F out served b content).buffer_size ≡ pool.buffer_size)
        × ((after_pool enc F out served b content).num_buffers ≡ pool.num_buffers)
        × Quiet bytes (after_pool enc F out served b content)
  unfolding deref_mut BufferPool.drop reset get_mut new
  after_pool-kept pool served n b content lent = (
    length-write_at served.buffers _ _
        ∙ ap (λ x. length x.1.buffers) lent.served.same
        ∙ length-write_at pool.buffers _ _,
    lent.sized,
    ap (λ x. x.1.num_buffers) lent.served.same,
    record { idle = lent.back.idle; some_buffer = lent.back.some_buffer },
  )

  discard-kept :
      (f : Frame) (a : Actor) (fb : Buffer (builders F)) (served : BufferPool (builders F))
      → discard enc F root (rebuilt enc F out f fb) (record a {
        input_fb_buffer_pool = keep_builder codec F root (ok (rebuilt enc F out f fb)) fb served;
      })
        ≡ record a { input_fb_buffer_pool = BufferPool.drop (builders F) served fb }
  unfolding finish Send.new
  discard-kept Frame.at_deadline a fb served = refl
  discard-kept (Frame.send_packet src dst seconds nseconds payload) a fb served = refl

  -- A message that is received and dropped leaves the actor as it was, but for what it has read.
  pub recv-read :
      (f : Frame) (rest : List ℕ) (a : Actor)
      → FrameFits f
      → length (out.body (table f)) ≤ max_packet_size
      → a.client.bytes ≡ frame_bytes enc out f ++ rest
      → Ready a
      → (fb : Buffer (builders F)) × (a' : Actor) × (recv enc F root a
          ≡ (ok (rebuilt enc F out f fb), a'))
        × Ready (discard enc F root (rebuilt enc F out f fb) a')
        × (a'.written ≡ a.written)
        × (a'.client.bytes ≡ rest)
  unfolding recv
  recv-read f rest a h small s r =
      let n = length (out.body (table f)) in
      let room : Room a.input_buffer_pool n = record {
        whole = r.whole;
        fits = rw r.sized small;
        free = omega (arith, busy_count-Quiet bytes r.quiet, r.quiet.some_buffer);
      } in
      let (b, served, e, placed) = allocate_buffer-Placed a.input_buffer_pool n room in
      let lent = allocate_buffer-Lent bytes a.input_buffer_pool n r.quiet e in
      let (fb, fb_served, fe, fb_lent) =
        allocate_buffer-Quiet (builders F) a.input_fb_buffer_pool 0 r.fb_quiet (omega arith) in
      let run =
        recv_out-served enc F out f rest a.client a.input_buffer_pool a.input_fb_buffer_pool h
          (omega arith) s b served e placed fb fb_served fe in
      let kept = after_pool-kept a.input_buffer_pool served n b (out.body (table f)) lent in
      let read : Actor = record a {
        client = record a.client { bytes = rest };
        input_buffer_pool = after_pool enc F out served b (out.body (table f));
      } in
      let after : Actor = record read {
        input_fb_buffer_pool = keep_builder codec F root (ok (rebuilt enc F out f fb)) fb fb_served;
      } in
      let ready : Ready
          (record read { input_fb_buffer_pool = BufferPool.drop (builders F) fb_served fb }) =
        record {
          quiet = kept.3;
          whole = rw (kept.0, kept.1, kept.2) r.whole;
          sized = kept.1 ∙ r.sized;
          fb_quiet = fb_lent.back;
          fb_sized = rw fb_lent.sized r.fb_sized;
          fine = r.fine;
        } in
      (fb, after, rw (recv, run) refl, rw (discard-kept f read fb fb_served) ready, refl, refl)
