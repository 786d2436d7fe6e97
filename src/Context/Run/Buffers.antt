-- ===== src/Context/Run/Buffers.antt =====
-- What the account of the buffers gives the application: `send` and the queue of packets only refuse
-- what there is no buffer for (lib.rs, buffer_pool.rs, output_msg_set.rs, waitfree_array_queue.rs).
use tansiv.Base.{
  ap, ◌∙◌, ℕ, ◌+◌, ◌≤◌, ◌<◌, ◌≡◌, refl, Option-cases, inl, inr, List, [], ◌∷◌, map, arith, length,
  Result, ok,
}
use tansiv.Error.{IoError}
use tansiv.BufferPool.{Buffer}
use tansiv.BufferPool.Alloc.{busy_count, allocate_buffer_free}
use tansiv.BufferPool.Bytes.{bytes}
use tansiv.BufferPool.Accounts.{busy_count-Account}
use tansiv.BufferPool.Builders.{Flatbuffers, builders}
use tansiv.OutputMsgSet.Listing.{pending, IsSettled, insert_cases, insert_refuses_iff_full}
use tansiv.InputQueue.{ArrayQueue}
use tansiv.Connector.{max_packet_size, Codec, Handle, Reader, MsgIn, recv}
use tansiv.Connector.Send.{Writer}
use tansiv.Connector.Send
use tansiv.Timer.Interface.{Timer}
use tansiv.Context.{Context, OutputMsg, handle_actor_msg, recv_msg}
use tansiv.Context.Application.{send, enqueue}
use tansiv.Context.Setup.{Config, new}
use tansiv.Context.Run.{Op, run}
use tansiv.Context.Run.Output.{buffers}
use tansiv.Context.Run.InputSteps.{Input, Pushed, deliver_packet-Pushed, recv_msg-Arrived}
use tansiv.Context.Run.Sound.{Sound, run-Sound_lem}
use tansiv.Context.Run.Created.{new-Sound_lem, new-shape}
use tansiv.Context.Run.Shapes.{run-shape}

module _ (codec : Codec) (F : Flatbuffers) (aq : ArrayQueue Handle) (tm : Timer) where
  abbrev Ctx : Type 0
  Ctx = Context codec F aq tm

  pub length-buffers :
      (ms : List (OutputMsg codec F aq tm)) → length (buffers codec F aq tm ms) ≡ length ms
  length-buffers [] = refl
  length-buffers (m ∷ ms) = omega (arith, length-buffers ms)

  -- The messages that wait to be sent.
  abbrev pub waiting : Ctx → ℕ
  waiting c = length (pending c.outgoing_messages) + length c.upcoming_messages

  -- Each busy buffer is that of one message that waits to be sent, or of one packet in the queue.
  pub record Accounted (c : Ctx) : Type 0 where
    pub sending : busy_count (builders F) c.output_buffer_pool ≡ waiting c
    pub receiving : busy_count bytes c.input_buffer_pool ≡ length (aq.items c.input_queue)

  pub Sound-Accounted : (c : Ctx) → Sound codec F aq tm c → Accounted c
  Sound-Accounted c v = record {
    sending = omega (
      arith,
      busy_count-Account (builders F) v.output.owned.account,
      length-buffers (pending c.outgoing_messages),
      length-buffers c.upcoming_messages,
    );
    receiving = omega (arith, busy_count-Account bytes v.input.account);
  }

  -- A set that holds fewer messages than the pool has buffers takes one more.
  enqueue_accepts :
      (c : Ctx) (dst t : ℕ) (msg : List ℕ) (b : Buffer (builders F))
      → IsSettled c.outgoing_messages
      → length (pending c.outgoing_messages) < c.outgoing_messages.num_slots
      → (enqueue codec F aq tm c dst t msg b).0 ≡ ok tt
  unfolding enqueue
  enqueue_accepts c dst t msg b v room =
      elim (Option-cases (
        tm.check_deadline_overrun c.timer_context t (map (λ m. m.send_time) c.upcoming_messages))) [
          | inr (later, p) ↦ rw (enqueue, p) refl
          | inl p ↦
              let m = Send.new F c.address dst t msg b in
              elim (insert_cases c.outgoing_messages m) [
                | inl (i, lt, free, e) ↦ rw (enqueue, p, e) refl
                | inr (all, e) ↦
                    absurd (omega (arith, (insert_refuses_iff_full c.outgoing_messages m v).0 e))
              ]
        ]

  send_accepts :
      (c : Ctx) (t dst : ℕ) (msg : List ℕ)
      → Sound codec F aq tm c
      → (tm.simulation_now c.timer_context).0 ≡ ok t
      → length msg ≤ c.output_buffer_pool.buffer_size
      → waiting c < c.output_buffer_pool.num_buffers
      → (send codec F aq tm c dst msg).0 ≡ ok tt
  unfolding send
  send_accepts c t dst msg v p fits room =
      let a = Sound-Accounted c v in
      let (b, pool, q) =
        allocate_buffer_free (builders F) c.output_buffer_pool (length msg) fits
          (omega (arith, a.sending)) in
      rw (send, p, q)
        (enqueue_accepts _ dst t msg b v.output.settled (omega (arith, v.output.owned.size)))

  -- A packet that the connector has received is always queued, at the end of the queue: there is room
  -- for each packet that the pool has a buffer for. So `handle_actor_msg` never drops a packet, where
  -- the account of the input pool is kept.
  pub received-Pushed :
      (c : Ctx) (d : Handle)
      → Input codec F aq tm c
      → (recv codec c.reader c.input_buffer_pool).0 ≡ ok (MsgIn.deliver_packet d)
      → Pushed codec F aq tm
          (recv_msg codec F aq tm c).1
          d
          (handle_actor_msg codec F aq tm (MsgIn.deliver_packet d) (recv_msg codec F aq tm c).1)
  received-Pushed c d v e =
      deliver_packet-Pushed codec F aq tm d (recv_msg codec F aq tm c).1
        (recv_msg-Arrived codec F aq tm c v _ e)

  module _ (connect : List ℕ → Result IoError (Reader × Writer))
      (make_timer : Config → Result IoError tm.T) (register : tm.T → Result IoError tm.T) where
    -- No buffer is lost: after any sequence of starts, sends, receptions and deadlines, whatever their
    -- outcome, on a context that `Context::new` has made, the busy buffers of the output pool are as many
    -- as the messages that wait to be sent, and those of the input pool as many as the packets in the
    -- queue.
    pub run-Accounted :
        (config : Config) (c : Ctx) (os : List Op)
        → new codec F aq tm connect make_timer register config ≡ ok c
        → Accounted (run codec F aq tm c os)
    run-Accounted config c os e = Sound-Accounted _ (
        run-Sound_lem codec F aq tm c os
          (new-Sound_lem codec F aq tm connect make_timer register config c e))

    -- After any sequence of operations on a context that `Context::new` has made, `send` accepts every
    -- message of at most `MAX_PACKET_SIZE` bytes, as long as the timer tells the time and fewer messages
    -- wait to be sent than the configured number of buffers: no earlier operation, whatever its outcome,
    -- takes a buffer or a slot for good.
    pub run-send_accepts :
        (config : Config) (c : Ctx) (os : List Op) (t dst : ℕ) (msg : List ℕ)
        → new codec F aq tm connect make_timer register config ≡ ok c
        → (tm.simulation_now (run codec F aq tm c os).timer_context).0 ≡ ok t
        → length msg ≤ max_packet_size
        → waiting (run codec F aq tm c os) < config.num_buffers
        → (send codec F aq tm (run codec F aq tm c os) dst msg).0 ≡ ok tt
    run-send_accepts config c os t dst msg e p fits room =
        let v = new-Sound_lem codec F aq tm connect make_timer register config c e in
        let same = run-shape codec F aq tm c os v.output.settled in
        let (size, number) = new-shape codec F aq tm connect make_timer register config c e in
        send_accepts (run codec F aq tm c os) t dst msg (run-Sound_lem codec F aq tm c os v) p
          (rw (ap (λ x. x.0) same ∙ size) fits) (rw (ap (λ x. x.1) same ∙ number) room)
