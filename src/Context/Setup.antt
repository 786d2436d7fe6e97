-- ===== src/Context/Setup.antt =====
-- lib.rs: how a context is made (`Context::new`, `init`) and config.rs: what it is made from. The
-- socket is connected by the system, and a command line is read by structopt: both are parameters.
use tansiv.Base.{ℕ, false, List, [], Result, ok, err, panicked}
use tansiv.Base.Int.{ℤ}
use tansiv.Error.{IoError, Error, from_io_error}
use tansiv.BufferPool
use tansiv.BufferPool.Bytes.{bytes}
use tansiv.BufferPool.Builders.{Flatbuffers, builders}
use tansiv.OutputMsgSet
use tansiv.InputQueue
use tansiv.InputQueue.{ArrayQueue}
use tansiv.Connector.{Codec, Reader, Handle, Pool, max_packet_size}
use tansiv.Connector.Send.{Writer}
use tansiv.Timer.Interface.{Timer}
use tansiv.Context.{Context, OutputMsg}

pub record Config : Type 0 where
  pub actor_socket : List ℕ
  pub address : ℕ
  pub time_offset : ℤ
  pub num_buffers : ℕ

-- The two directions of the stream, and the pool that received messages are stored in.
pub record UnixConnector : Type 0 where
  pub actor : Reader × Writer
  pub input_buffer_pool : Pool

-- `UnixConnector::new`
unfoldable pub connector_new :
    (List ℕ → Result IoError (Reader × Writer)) → Config → Result IoError UnixConnector
connector_new connect config = elim (connect config.actor_socket) [
  | err e ↦ err e
  | panicked ↦ panicked
  | ok stream ↦ ok (record {
    actor = stream;
    input_buffer_pool = BufferPool.new bytes max_packet_size config.num_buffers;
  })
]

module _ (codec : Codec) (F : Flatbuffers) (aq : ArrayQueue Handle) (tm : Timer) where
  abbrev Ctx : Type 0
  Ctx = Context codec F aq tm

  -- The context before its registration: every pool, queue and set has room for `num_buffers`.
  unfoldable pub assembled : Config → UnixConnector → tm.T → Ctx
  assembled config connector timer_context = record {
    address = config.address;
    reader = connector.actor.0;
    writer = connector.actor.1;
    input_buffer_pool = connector.input_buffer_pool;
    input_queue = InputQueue.new aq config.num_buffers;
    timer_context = timer_context;
    output_buffer_pool = BufferPool.new (builders F) max_packet_size config.num_buffers;
    outgoing_messages = OutputMsgSet.new (OutputMsg codec F aq tm) config.num_buffers;
    upcoming_messages = [];
    started = false;
    recv_calls = 0;
    deadline_calls = [];
  }

  -- What the chosen timer offers beside its operations: `TimerContext::new` and `timer::register`.
  module _ (connect : List ℕ → Result IoError (Reader × Writer))
      (make_timer : Config → Result IoError tm.T) (register : tm.T → Result IoError tm.T) where
    -- `Context::new`
    unfoldable pub new : Config → Result Error Ctx
    unfolding connector_new assembled
    new config = elim (connector_new connect config) [
      | err e ↦ err (from_io_error e)
      | panicked ↦ panicked
      | ok connector ↦ elim (make_timer config) [
        | err e ↦ err (from_io_error e)
        | panicked ↦ panicked
        | ok timer_context ↦ elim (register timer_context) [
          | err e ↦ err (from_io_error e)
          | panicked ↦ panicked
          | ok registered ↦ ok (assembled config connector registered)
        ]
      ]
    ]

    -- `init`: `from_args` reads the command line.
    unfoldable pub init : (List (List ℕ) → Result IoError Config) → List (List ℕ) → Result Error Ctx
    unfolding new
    init from_args args = elim (from_args args) [
      | err e ↦ err (from_io_error e)
      | panicked ↦ panicked
      | ok config ↦ new config
    ]
