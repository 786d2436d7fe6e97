-- ===== src/Context/Application.antt =====
-- lib.rs: the operations of a context that the application calls.
use tansiv.Base.{
  ℕ, Bool, true, Option, none, some, List, [], ◌∷◌, ◌++◌, map, leb, if◌then◌else◌, length, Result,
  ok, err, panicked,
}
use tansiv.Base.Int.{ℤ}
use tansiv.Error.{
  IoError, Error, already_started, no_message_available, protocol_violation, size_too_big,
  from_pool_error, from_set_error, from_io_error,
}
use tansiv.BufferPool
use tansiv.BufferPool.{BufferPool, Buffer, allocate_buffer, deref}
use tansiv.BufferPool.Bytes.{bytes}
use tansiv.BufferPool.Builders.{Flatbuffers, builders}
use tansiv.OutputMsgSet.{insert}
use tansiv.InputQueue
use tansiv.InputQueue.{ArrayQueue}
use tansiv.Connector.{Codec, Handle, Pool, MsgIn, DeliverTable, FromTansivMsg}
use tansiv.Connector.Send
use tansiv.Timer.Interface.{Timer}
use tansiv.Context.{Context, recv_msg, release}

-- A packet as `src`, `dst` and `payload` read it from its buffer; `none` is a panic of `unwrap`.
pub record Packet : Type 0 where
  pub src : ℕ
  pub dst : ℕ
  pub payload : List ℕ

abbrev pub packet_of_table : Option DeliverTable → Option Packet
packet_of_table none = none
packet_of_table (some d) = elim d.metadata [
  | none ↦ none
  | some m ↦ elim d.payload [
    | none ↦ none
    | some p ↦ some (record { src = m.src; dst = m.dst; payload = p })
  ]
]

abbrev pub packet_of_msg : Option FromTansivMsg → Option Packet
packet_of_msg none = none
packet_of_msg (some (FromTansivMsg.deliver_packet d)) = packet_of_table d
packet_of_msg (some (FromTansivMsg.goto_deadline g)) = none
packet_of_msg (some FromTansivMsg.end_simulation) = none
packet_of_msg (some FromTansivMsg.unknown) = none

-- `DeliverPacket::deserialize`
unfoldable pub deserialize : Codec → Pool → Handle → Option Packet
deserialize codec pool d = packet_of_msg (codec.root (deref bytes pool d))

-- chrono's reading of a date: whole seconds since the epoch, and the microseconds behind them.
pub record Chrono : Type 0 where
  pub timestamp : ℤ → ℤ
  pub timestamp_subsec_micros : ℤ → ℕ

-- libc's `timeval`
pub record Timeval : Type 0 where
  pub tv_sec : ℤ
  pub tv_usec : ℕ

module _ (codec : Codec) (F : Flatbuffers) (aq : ArrayQueue Handle) (tm : Timer) where
  abbrev Ctx : Type 0
  Ctx = Context codec F aq tm

  -- The message is stored for the next deadline, or kept back if it is stamped after it. A message
  -- that the set refuses is dropped, with its buffer.
  unfoldable pub enqueue :
      Ctx → ℕ → ℕ → List ℕ → Buffer (builders F) → Result Error (Unit {0}) × Ctx
  enqueue c dst send_time msg buffer =
      elim (tm.check_deadline_overrun c.timer_context send_time
        (map (λ m. m.send_time) c.upcoming_messages)) [
          | some overrun ↦ (
            ok tt,
            record c {
              upcoming_messages =
                  c.upcoming_messages ++ Send.new F c.address dst overrun msg buffer ∷ [];
            },
          )
          | none ↦
              let m = Send.new F c.address dst send_time msg buffer in
              elim (insert c.outgoing_messages m) [
                | ok set ↦ (ok tt, record c { outgoing_messages = set })
                | err e ↦ (err (from_set_error e), release codec F aq tm c m)
                | panicked ↦ (panicked, c)
              ]
        ]

  unfoldable pub send : Ctx → ℕ → List ℕ → Result Error (Unit {0}) × Ctx
  unfolding enqueue from_pool_error
  send c dst msg =
      let (now, t) = tm.simulation_now c.timer_context in
      let stamped : Ctx = record c { timer_context = t } in
      elim now [
        | err e ↦ (panicked, stamped)
        | panicked ↦ (panicked, stamped)
        | ok send_time ↦
            elim (allocate_buffer (builders F) stamped.output_buffer_pool (length msg)) [
              | err e ↦ (err (from_pool_error e), stamped)
              | panicked ↦ (panicked, stamped)
              | ok (buffer, pool) ↦
                  enqueue (record stamped { output_buffer_pool = pool }) dst send_time msg buffer
            ]
      ]

  -- The packet is taken from the queue whether or not it fits in the caller's `capacity` bytes, and
  -- its buffer is dropped.
  unfoldable pub recv : Ctx → ℕ → Result Error Packet × Ctx
  unfolding deserialize
  recv c capacity = elim (InputQueue.pop aq c.input_queue) [
    | none ↦ (err no_message_available, c)
    | some (d, q) ↦
        let after : Ctx = record c {
          input_queue = q;
          input_buffer_pool = BufferPool.drop bytes c.input_buffer_pool d;
        } in
        elim (deserialize codec c.input_buffer_pool d) [
          | none ↦ (panicked, after)
          | some p ↦ (if leb (length p.payload) capacity then ok p else err size_too_big, after)
        ]
  ]

  unfoldable pub poll : Ctx → Option (Unit {0})
  poll c = if InputQueue.is_empty aq c.input_queue then none else some tt

  -- The first message must be a deadline, with which the timer starts. The lock of the connector is
  -- released before that. `started` is the `Once`: it stays set after an error.
  unfoldable pub start : Ctx → Result Error ℤ × Ctx
  start c =
      let (msg, c') = recv_msg codec F aq tm (record c { started = true }) in
      if c.started then (err already_started, c) else elim msg [
        | err e ↦ (err (from_io_error e), c')
        | panicked ↦ (panicked, c')
        | ok m ↦ elim m [
          | MsgIn.goto_deadline d ↦
              let (offset, t) = tm.start c'.timer_context d in
              (
                elim offset [ ok o ↦ ok o | err e ↦ err (from_io_error e) | panicked ↦ panicked ],
                record c' { timer_context = t; deadline_calls = c'.deadline_calls ++ d ∷ [] },
              )
          | MsgIn.end_simulation ↦ (err protocol_violation, c')
          | MsgIn.deliver_packet b ↦ (
            err protocol_violation,
            record c' { input_buffer_pool = BufferPool.drop bytes c'.input_buffer_pool b },
          )
        ]
      ]

  unfoldable pub gettimeofday : Chrono → Ctx → Result IoError Timeval × Ctx
  gettimeofday chrono c =
      let (adjusted_time, t) = tm.application_now c.timer_context in
      (
        elim adjusted_time [
          | ok d ↦
              ok
                (record { tv_sec = chrono.timestamp d; tv_usec = chrono.timestamp_subsec_micros d })
          | err e ↦ err e
          | panicked ↦ panicked
        ],
        record c { timer_context = t },
      )

  -- The wait for the end of the simulation, within `fuel` loads of the flag that the handler sets.
  unfoldable pub stop : (ℕ → Bool) → ℕ → Ctx → Option Ctx
  stop loads fuel c = elim (tm.stop loads fuel c.timer_context) [
    | none ↦ none
    | some t ↦ some (record c { timer_context = t })
  ]
