-- ===== src/Context/Run/Waiting.antt =====
-- A client that receives one deadline at a time, or the end (lib.rs, connector/mod.rs).
use tansiv.Base.{
  ℕ, ◌*◌, ◌≤◌, ◌<◌, ◌^◌, ◌≡◌, refl, ap, ◌∙◌, false, List, [], ◌∷◌, ◌++◌, arith, length, ok,
}
use mathlib.Core.List.{append-nil}
use tansiv.Duration.{duration_limit}
use tansiv.BufferPool.Accounts.{busy_count-Account}
use tansiv.BufferPool.Bytes.{bytes}
use tansiv.BufferPool.Builders.{Flatbuffers}
use tansiv.InputQueue.{ArrayQueue}
use tansiv.Connector.{Codec, Handle, Pool}
use tansiv.Connector.Wire.{Encoder}
use tansiv.Connector.Wire.Apart.{SameShape, recv-Unspoilt}
use tansiv.Connector.Wire.RoundTrip.{ActorMsg, deadline, end, Room, written, body_of, recv-written}
use tansiv.Timer.Interface.{Timer}
use tansiv.Context.{
  Context, next_deadline, end_simulation, handle_actor_msg, recv_loop, receive_phase,
}
use tansiv.Context.Application.{start}
use tansiv.Context.Receiving.{receive_phase-Receives, announced}
use tansiv.Context.Run.InputSteps.{Input, receive_phase-Input, start-Input}
use tansiv.Context.Run.Delivery.{Readable, nothing}
use tansiv.Context.Run.Delivery.Loop.{receive_phase-Delivered}
use tansiv.Context.Run.SameInput.{SameInput}

module _ {codec : Codec} (enc : Encoder codec) (F : Flatbuffers) (aq : ArrayQueue Handle)
    (tm : Timer) where
  abbrev Ctx : Type 0
  Ctx = Context codec F aq tm

  -- A pool of a shape with room for any message that has no packet.
  pub record Wide (pool : Pool) : Type 0 where
    pub whole : pool.buffer_size * pool.num_buffers ≤ length pool.buffers
    pub prefix : pool.buffer_size < 2 ^ 32
    pub deadlines : (d : ℕ) → length (body_of enc (deadline d)) ≤ pool.buffer_size
    pub ending : length (body_of enc end) ≤ pool.buffer_size

  Wide-SameShape : (pool after : Pool) → SameShape pool after → Wide pool → Wide after
  Wide-SameShape pool after s w = record {
    whole = rw (s.buffer_size, s.num_buffers, s.buffers) w.whole;
    prefix = rw s.buffer_size w.prefix;
    deadlines = λ d. rw s.buffer_size (w.deadlines d);
    ending = rw s.buffer_size w.ending;
  }

  -- The account of the pool is kept, and a buffer is left beside those of the packets that wait.
  pub record Waits (c : Ctx) : Type 0 where
    pub input : Input codec F aq tm c
    pub wide : Wide c.input_buffer_pool
    pub free : length (aq.items c.input_queue) < c.input_buffer_pool.num_buffers

  pub Waits-SameInput : {c c' : Ctx} → SameInput codec F aq tm c c' → Waits c → Waits c'
  Waits-SameInput {c} {c'} s w =
      let p : c'.input_buffer_pool ≡ c.input_buffer_pool = ap (λ x. x.1) s in
      let q : c'.input_queue ≡ c.input_queue = ap (λ x. x.2) s in
      record { input = rw (p, q) w.input; wide = rw p w.wide; free = rw (p, q) w.free }

  Waits-Room :
      (c : Ctx) (a : ActorMsg)
      → Waits c
      → length (body_of enc a) ≤ c.input_buffer_pool.buffer_size
      → Room c.input_buffer_pool (length (body_of enc a))
  Waits-Room c a w small = record {
    whole = w.wide.whole;
    fits = small;
    free = omega (arith, busy_count-Account bytes w.input.account, w.free);
  }

  -- What a deadline leaves of a client, or the end.
  pub record Told (c c' : Ctx) (ds rest : List ℕ) : Type 0 where
    pub waits : Waits c'
    pub left : c'.reader.bytes ≡ rest
    pub calls : c'.deadline_calls ≡ c.deadline_calls ++ ds

  no_packets : {pool : Pool} {hs : List Handle} → Readable codec pool hs [] → hs ≡ []
  no_packets nothing = refl

  pub receive_phase-deadline :
      (c : Ctx) (d : ℕ) (rest : List ℕ)
      → Waits c
      → d < duration_limit
      → c.reader.bytes ≡ written enc (deadline d) ++ rest
      → ((receive_phase codec F aq tm c).0 ≡ next_deadline d)
        × Told c (receive_phase codec F aq tm c).1 (d ∷ []) rest
  receive_phase-deadline c d rest w fits s =
      let small = w.wide.deadlines d in
      let r =
        receive_phase-Delivered enc F aq tm [] d rest c w.input
          (record {
            whole = w.wide.whole;
            packets = tt;
            last = record {
              in_range = fits;
              prefix = omega (arith, w.wide.prefix, small);
              fits = small;
            };
            free = omega (arith, w.free);
          })
          s in
      let (hs, items, readable) = r.packets in
      let same : aq.items (receive_phase codec F aq tm c).1.input_queue ≡ aq.items c.input_queue =
        items
        ∙ ap (λ l. aq.items c.input_queue ++ l) (no_packets readable)
        ∙ append-nil (aq.items c.input_queue) in
      let shape = r.unspoilt.shape in
      (
        r.ended,
        record {
          waits = record {
            input = receive_phase-Input codec F aq tm c w.input;
            wide = Wide-SameShape c.input_buffer_pool _ shape w.wide;
            free = rw (same, shape.num_buffers) w.free;
          };
          left = r.left;
          calls =
              (receive_phase-Receives codec F aq tm c).scheduled
              ∙ ap (λ a. c.deadline_calls ++ announced codec F aq tm a) r.ended;
        },
      )

  pub receive_phase-end :
      (c : Ctx) (rest : List ℕ)
      → Waits c
      → c.reader.bytes ≡ written enc end ++ rest
      → (receive_phase codec F aq tm c).0 ≡ end_simulation
  unfolding receive_phase recv_loop handle_actor_msg
  receive_phase-end c rest w s =
      let small = w.wide.ending in
      let (m, q, received, left) =
        recv-written enc end rest c.reader c.input_buffer_pool tt
          (omega (arith, w.wide.prefix, small)) s (Waits-Room c end w small) in
      rw (receive_phase, recv_loop, q ∙ ap ok received, handle_actor_msg) refl

  pub start-deadline :
      (c : Ctx) (d : ℕ) (rest : List ℕ)
      → c.started ≡ false
      → Waits c
      → d < duration_limit
      → c.reader.bytes ≡ written enc (deadline d) ++ rest
      → Told c (start codec F aq tm c).1 (d ∷ []) rest
  unfolding start
  start-deadline c d rest fresh w fits s =
      let small = w.wide.deadlines d in
      let (m, q, received, left) =
        recv-written enc (deadline d) rest c.reader c.input_buffer_pool fits
          (omega (arith, w.wide.prefix, small)) s (Waits-Room c (deadline d) w small) in
      let shape = (recv-Unspoilt codec c.reader c.input_buffer_pool).shape in
      let input = start-Input codec F aq tm c w.input in
      let told = q ∙ ap ok received in
      record {
        waits = record {
          input = input;
          wide = rw (start, fresh, told) (Wide-SameShape c.input_buffer_pool _ shape w.wide);
          free = rw (start, fresh, told, shape.num_buffers) w.free;
        };
        left = rw (start, fresh, told) left;
        calls = rw (start, fresh, told) refl;
      }
