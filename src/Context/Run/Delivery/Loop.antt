-- ===== src/Context/Run/Delivery/Loop.antt =====
-- From the stream to the queue (lib.rs, connector/mod.rs).
use tansiv.Base.{
  ℕ, zero, suc, ◌<◌, ◌≡◌, refl, ap, ◌∙◌, sym, none, some, List, [], ◌∷◌, ◌++◌, arith, length,
  length-append, ok,
}
use mathlib.Core.List.{append_assoc, append-nil}
use tansiv.BufferPool.Builders.{Flatbuffers}
use tansiv.InputQueue.{ArrayQueue}
use tansiv.Connector.{Codec, Handle, MsgIn}
use tansiv.Connector.Wire.{Encoder}
use tansiv.Connector.Wire.Apart.{Held, Unspoilt, Unspoilt-trans, recv-Unspoilt}
use tansiv.Connector.Wire.RoundTrip.{packet, deadline, written, recv-written}
use tansiv.Timer.Interface.{Timer}
use tansiv.Context.{Context, AfterDeadline, handle_actor_msg, recv_msg, recv_loop, receive_phase}
use tansiv.Context.Application.{Packet, deserialize}
use tansiv.Context.Receiving.{announce-announced, notify-calls_after, calls_after}
use tansiv.Context.Run.InputSteps.{Input, recv_msg-Arrived, Pushed, deliver_packet-Pushed}
use tansiv.Context.Run.Delivery.{
  nothing, reads, stream, Ready, Ready-next, Enough, Enough-Room, Delivered, length-stream,
  Holds-busy,
}

module _ {codec : Codec} (enc : Encoder codec) (F : Flatbuffers) (aq : ArrayQueue Handle)
    (tm : Timer) where
  abbrev Ctx : Type 0
  Ctx = Context codec F aq tm

  -- The deadline ends the loop.
  last-Delivered :
      (fuel : ℕ) (c : Ctx) (d : ℕ) (rest : List ℕ)
      → Input codec F aq tm c
      → Enough enc F aq tm c [] d
      → c.reader.bytes ≡ stream enc [] d ++ rest
      → Delivered enc F aq tm [] d rest c (recv_loop codec F aq tm (suc fuel) c)
  unfolding recv_loop handle_actor_msg
  last-Delivered fuel c d rest v e s =
      let (m, q, received, left) =
        recv-written enc (deadline d) rest c.reader c.input_buffer_pool e.last.in_range
          e.last.prefix s (Enough-Room enc F aq tm c [] d (deadline d) v e e.last) in
      rw (recv_loop, q ∙ ap ok received, handle_actor_msg)
        (record {
          ended = refl;
          packets = ([], sym (append-nil (aq.items c.input_queue)), nothing);
          left = left;
          unspoilt = recv-Unspoilt codec c.reader c.input_buffer_pool;
        })

  -- A packet in front, with the lemma for what follows it.
  module _ (fuel : ℕ) (ps : List Packet) (d : ℕ) (rest : List ℕ)
      (later : (c : Ctx)
        → Input codec F aq tm c
        → Enough enc F aq tm c ps d
        → c.reader.bytes ≡ stream enc ps d ++ rest
        → Delivered enc F aq tm ps d rest c (recv_loop codec F aq tm fuel c)) where
    -- The packet in the buffer `b` is still there at the end.
    one_more :
        (p : Packet) (b : Handle) (c c₁ c₂ : Ctx) (r : AfterDeadline × Ctx)
        → Unspoilt c.input_buffer_pool c₁.input_buffer_pool
        → c₁.input_queue ≡ c.input_queue
        → Held c₁.input_buffer_pool b
        → deserialize codec c₁.input_buffer_pool b ≡ some p
        → Pushed codec F aq tm c₁ b (none, c₂)
        → Delivered enc F aq tm ps d rest c₂ r
        → Delivered enc F aq tm (p ∷ ps) d rest c r
    unfolding deserialize
    one_more p b c c₁ c₂ r u same held read push later_on =
        let (hs, items, readable) = later_on.packets in
        let u₂ : Unspoilt c₁.input_buffer_pool r.1.input_buffer_pool =
          rw (← push.pool) later_on.unspoilt in
        record {
          ended = later_on.ended;
          packets = (
            b ∷ hs,
            items
                ∙ ap (λ l. l ++ hs) (push.queued ∙ ap (λ k. aq.items k ++ b ∷ []) same)
                ∙ append_assoc (aq.items c.input_queue) (b ∷ []) hs,
            reads (rw (u₂.others b held).0 read) readable,
          );
          left = later_on.left;
          unspoilt =
              Unspoilt-trans c.input_buffer_pool c₁.input_buffer_pool r.1.input_buffer_pool u u₂;
        }

    turn :
        (p : Packet) (c : Ctx)
        → Input codec F aq tm c
        → Enough enc F aq tm c (p ∷ ps) d
        → c.reader.bytes ≡ stream enc (p ∷ ps) d ++ rest
        → Delivered enc F aq tm (p ∷ ps) d rest c (recv_loop codec F aq tm (suc fuel) c)
    unfolding recv_loop
    turn p c v e s =
        let behind = stream enc ps d ++ rest in
        let front : c.reader.bytes ≡ written enc (packet p) ++ behind =
          s ∙ append_assoc (written enc (packet p)) (stream enc ps d) rest in
        let (m, q, (b, mb, read, small), left) =
          recv-written enc (packet p) behind c.reader c.input_buffer_pool e.packets.0.in_range
            e.packets.0.prefix front
            (Enough-Room enc F aq tm c (p ∷ ps) d (packet p) v e e.packets.0) in
        let q' = q ∙ ap ok mb in
        let c₁ : Ctx = (recv_msg codec F aq tm c).1 in
        let u = recv-Unspoilt codec c.reader c.input_buffer_pool in
        let arrived = recv_msg-Arrived codec F aq tm c v (ok (MsgIn.deliver_packet b)) q' in
        let push = deliver_packet-Pushed codec F aq tm b c₁ arrived in
        let c₂ : Ctx = (handle_actor_msg codec F aq tm (MsgIn.deliver_packet b) c₁).1 in
        let held : Held c₁.input_buffer_pool b = record {
          busy = Holds-busy b arrived;
          fits = small;
        } in
        let next : Enough enc F aq tm c₂ ps d =
          rw (push.queued, push.pool)
            (Ready-next enc F aq tm c.input_buffer_pool c₁.input_buffer_pool
              (aq.items c.input_queue) b p ps d u.shape e) in
        let later_on = later c₂ push.input next (rw push.reader left) in
        let pushed : Pushed codec F aq tm c₁ b (none, c₂) = record {
          goes_on = refl;
          queued = push.queued;
          input = push.input;
          pool = push.pool;
          reader = push.reader;
        } in
        rw (recv_loop, q', push.goes_on) (one_more p b c c₁ c₂ _ u refl held read pushed later_on)

  recv_loop-Delivered :
      (fuel : ℕ) (ps : List Packet) (d : ℕ) (rest : List ℕ) (c : Ctx)
      → length ps < fuel
      → Input codec F aq tm c
      → Enough enc F aq tm c ps d
      → c.reader.bytes ≡ stream enc ps d ++ rest
      → Delivered enc F aq tm ps d rest c (recv_loop codec F aq tm fuel c)
  recv_loop-Delivered zero ps d rest c lt v e s = absurd (omega arith)
  recv_loop-Delivered (suc fuel) [] d rest c lt v e s = last-Delivered fuel c d rest v e s
  recv_loop-Delivered (suc fuel) (p ∷ ps) d rest c lt v e s =
      turn fuel ps d rest (λ c'. recv_loop-Delivered fuel ps d rest c' (omega arith)) p c v e s

  -- What the actor writes reaches the queue. If packets and a deadline, all in range, stand in the stream,
  -- the pool has a free buffer for each of them, large enough, and the account of the pool is kept, then
  -- the receiving part of a deadline ends with that deadline, the queue has the packets behind those that
  -- were there, each in a buffer that reads as its source, destination and payload, and the stream goes on
  -- behind the deadline. No other buffer in use is spoilt.
  pub receive_phase-Delivered :
      (ps : List Packet) (d : ℕ) (rest : List ℕ) (c : Ctx)
      → Input codec F aq tm c
      → Ready enc c.input_buffer_pool (aq.items c.input_queue) ps d
      → c.reader.bytes ≡ stream enc ps d ++ rest
      → Delivered enc F aq tm ps d rest c (receive_phase codec F aq tm c)
  unfolding receive_phase
  receive_phase-Delivered ps d rest c v e s =
      let enough : length ps < suc (length c.reader.bytes) = omega (
        arith,
        ap length s,
        length-append (stream enc ps d) rest,
        length-stream enc F aq tm ps d,
      ) in
      let l = recv_loop-Delivered (suc (length c.reader.bytes)) ps d rest c enough v e s in
      let (after, c') = recv_loop codec F aq tm (suc (length c.reader.bytes)) c in
      rw (notify-calls_after codec F aq tm c.input_queue c') (
        rw
          (announce-announced codec F aq tm after (record c' {
            recv_calls =
                calls_after codec F aq tm (aq.items c.input_queue) (aq.items c'.input_queue)
                  c'.recv_calls;
          }))
          (record { ended = l.ended; packets = l.packets; left = l.left; unspoilt = l.unspoilt }))
