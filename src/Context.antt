-- ===== src/Context.antt =====
-- lib.rs: the context that application code and the deadline handler share. One operation runs at a
-- time here; the objects that both use are shown safe under interleaving in OutputMsgSet/Threads.antt
-- and SeqLock.antt. `drop`s of buffers are written where the source's values go out of scope.
pub mod Deadline
pub mod Sending
pub mod Listening
pub mod Message
pub mod RecvLoop
pub mod Receiving
pub mod Reading
pub mod Setup
pub mod Run
pub mod Handlers
pub mod Application
use tansiv.Base.{
  ℕ, zero, suc, ◌+◌, ◌≤◌, ◌<◌, ◌≡◌, Bool, true, false, not, ◌&&◌, Option, none, some, List, [], ◌∷◌,
  ◌++◌, map, ltb, leb, if◌then◌else◌, length, Result, ok, err, panicked,
}
use tansiv.Base.Int.{ℤ}
use tansiv.Error.{
  IoError, Error, already_started, no_message_available, protocol_violation, size_too_big,
  from_pool_error, from_set_error, from_io_error, PoolError, SetError,
}
use tansiv.BufferPool
use tansiv.BufferPool.{BufferPool, Buffer, allocate_buffer}
use tansiv.BufferPool.Bytes.{bytes}
use tansiv.BufferPool.Builders.{Flatbuffers, builders}
use tansiv.OutputMsgSet.{OutputMsgSet, insert, drain}
use tansiv.InputQueue
use tansiv.InputQueue.{ArrayQueue}
use tansiv.Connector.{
  Codec, Reader, Pool, Handle, MsgIn, DeliverTable, PacketMeta, FromTansivMsg, recv,
}
use tansiv.Connector.Send.{SendPacketBuilder, SendPacket, MsgOut, Writer, finish}
use tansiv.Connector.Send
use tansiv.Timer.Interface.{Timer}

-- `AfterDeadline`, with the two ways in which the model of a handler ends beside it: a panic, and the
-- end of the fuel of the receiving loop, which is never met.
pub data AfterDeadline : Type 0 where
  next_deadline : ℕ → AfterDeadline
  end_simulation panic out_of_fuel : AfterDeadline

module _ (codec : Codec) (F : Flatbuffers) (aq : ArrayQueue Handle) (tm : Timer) where
  abbrev pub OutputMsg : Type 0
  OutputMsg = SendPacketBuilder F

  -- `recv_calls` and `deadline_calls` log the calls of the two callbacks.
  pub record Context : Type 0 where
    pub address : ℕ
    pub reader : Reader
    pub writer : Writer
    pub input_buffer_pool : Pool
    pub input_queue : aq.Queue
    pub timer_context : tm.T
    pub output_buffer_pool : BufferPool (builders F)
    pub outgoing_messages : OutputMsgSet OutputMsg
    pub upcoming_messages : List OutputMsg
    pub started : Bool
    pub recv_calls : ℕ
    pub deadline_calls : List ℕ

  -- The message's buffer goes back to the pool.
  abbrev pub release : Context → OutputMsg → Context
  release c m = record c {
    output_buffer_pool = BufferPool.drop (builders F) c.output_buffer_pool m.buffer;
  }

  -- `connector.send` of a packet, which is dropped once it is written or refused.
  unfoldable pub send_packet : OutputMsg → ℕ → Context → Context × Bool
  send_packet m send_time c =
      let (done, w) = Send.send F (MsgOut.send_packet (finish F m send_time)) c.writer in
      (
        release (record c { writer = w }) m,
        elim done [ ok _ ↦ true | err e ↦ false | panicked ↦ false ],
      )

  -- The body of the loop over the drained messages. A message stamped before the previous deadline is
  -- sent at that deadline; one stamped after the current deadline ends the simulation.
  unfoldable pub send_outgoing : ℕ → ℕ → OutputMsg → Context → Context × Bool
  unfolding send_packet
  send_outgoing previous current m c =
      if ltb m.send_time previous
      then send_packet m previous c
      else if ltb current m.send_time
      then (release c m, false)
      else send_packet m m.send_time c

  -- The loop over the upcoming messages, of which `ms` are left.
  unfoldable pub send_upcoming : ℕ → List OutputMsg → Context → Bool × Context
  unfolding send_packet
  send_upcoming current [] c = (true, record c { upcoming_messages = [] })
  send_upcoming current (m ∷ ms) c =
      let (c', go) = send_packet m m.send_time (record c { upcoming_messages = ms }) in
      let rest : Bool × Context = elim go [
        | true ↦ send_upcoming current ms c'
        | false ↦ (false, c')
      ] in
      if leb m.send_time current then rest else (true, record c { upcoming_messages = m ∷ ms })

  unfoldable pub handle_actor_msg : MsgIn → Context → Option AfterDeadline × Context
  handle_actor_msg (MsgIn.deliver_packet d) c = elim (InputQueue.push aq c.input_queue d) [
    | ok q ↦ (none, record c { input_queue = q })
    | err e ↦ (none, record c { input_buffer_pool = BufferPool.drop bytes c.input_buffer_pool d })
    | panicked ↦ (some panic, c)
  ]
  handle_actor_msg (MsgIn.goto_deadline d) c = (some (next_deadline d), c)
  handle_actor_msg MsgIn.end_simulation c = (some end_simulation, c)

  -- `connector.recv`
  abbrev pub recv_msg : Context → Result IoError MsgIn × Context
  recv_msg c =
      let (msg, r, pool) = recv codec c.reader c.input_buffer_pool in
      (msg, record c { reader = r; input_buffer_pool = pool })

  unfoldable pub recv_loop : ℕ → Context → AfterDeadline × Context
  unfolding handle_actor_msg
  recv_loop zero c = (out_of_fuel, c)
  recv_loop (suc fuel) c =
      let (msg, c') = recv_msg c in
      elim msg [
        | err e ↦ (end_simulation, c')
        | panicked ↦ (panic, c')
        | ok m ↦
            let (after, c'') = handle_actor_msg m c' in
            elim after [ some a ↦ (a, c'') | none ↦ recv_loop fuel c'' ]
      ]

  abbrev pub notify : Bool → Context → Context
  notify may_notify c =
      if may_notify && not (InputQueue.is_empty aq c.input_queue)
      then record c { recv_calls = suc c.recv_calls }
      else c

  abbrev pub announce : AfterDeadline → Context → Context
  announce (next_deadline d) c = record c { deadline_calls = c.deadline_calls ++ d ∷ [] }
  announce end_simulation c = c
  announce panic c = c
  announce out_of_fuel c = c

  -- The third part of `at_deadline`. Every message that is received takes bytes of the stream, so as
  -- many turns as there are bytes, and one, are enough.
  unfoldable pub receive_phase : Context → AfterDeadline × Context
  unfolding recv_loop
  receive_phase c =
      let may_notify = InputQueue.is_empty aq c.input_queue in
      let (after, c') = recv_loop (suc (length c.reader.bytes)) c in
      (after, announce after (notify may_notify c'))

  -- The first two parts: the messages of the slice, those that were kept back, and `AtDeadline`.
  unfoldable pub send_phase : ℕ → ℕ → Context → Bool × Context
  unfolding send_outgoing send_upcoming
  send_phase previous current c =
      let (go, set, c₁) = drain (send_outgoing previous current) c.outgoing_messages c in
      let drained : Context = record c₁ { outgoing_messages = set } in
      elim go [
        | false ↦ (false, drained)
        | true ↦
            let (go', c₂) = send_upcoming current drained.upcoming_messages drained in
            elim go' [
              | false ↦ (false, c₂)
              | true ↦
                  let (done, w) = Send.send F MsgOut.at_deadline c₂.writer in
                  (
                    elim done [ ok _ ↦ true | err e ↦ false | panicked ↦ false ],
                    record c₂ { writer = w },
                  )
            ]
      ]

  unfoldable pub at_deadline : Context → AfterDeadline × Context
  unfolding send_phase receive_phase
  at_deadline c = elim (tm.simulation_previous_deadline c.timer_context) [
    | err e ↦ (panic, c)
    | panicked ↦ (panic, c)
    | ok previous ↦ elim (tm.simulation_next_deadline c.timer_context) [
      | err e ↦ (panic, c)
      | panicked ↦ (panic, c)
      | ok current ↦
          let (go, c') = send_phase previous current c in
          elim go [ true ↦ receive_phase c' | false ↦ (end_simulation, c') ]
    ]
  ]
