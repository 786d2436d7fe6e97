-- ===== src/TestActor.antt =====
-- The actor of the test helpers (connector/unix.rs, lib.rs): what stands for the simulator at the other
-- end of the stream. How it is run is in TestActor/Unix.antt.
pub mod Laws
pub mod Turns
pub mod Scripts
pub mod Unix
pub mod Hearing
pub mod Notifiers
pub mod RecvNotifier
pub mod Quiet
pub mod Client
pub mod Sessions
use tansiv.Base.{
  ℕ, zero, suc, ◌+◌, ◌*◌, ◌^◌, Bool, not, Option, none, some, List, [], ◌∷◌, ◌++◌, ltb,
  if◌then◌else◌, length, Result, ok, err, panicked,
}
use tansiv.Error.{IoError, Error, from_io_error, from_pool_error, invalid_data}
use tansiv.BufferPool
use tansiv.BufferPool.{BufferPool, allocate_buffer, deref_mut, deref}
use tansiv.BufferPool.Bytes.{bytes}
use tansiv.BufferPool.Builders.{Flatbuffers, builders}
use tansiv.Connector.{
  Codec, Handle, Reader, Pool, MsgIn, max_packet_size, new_deliver_packet, FromTansivMsg,
}
use tansiv.Connector.Send.{MsgOut}
use tansiv.Connector.Wire.{Encoder, send_in, create_deliver_packet_unprefixed}
use tansiv.Connector.Wire.Actor.{ToTansivMsg, recv_out}
use tansiv.VsgAddress.{swap_bytes}

-- `Error` of the test helpers: an error and where it came up.
pub record TestError : Type 0 where
  pub error : Error
  pub context : List ℕ

-- `TestActor::check`, with the conversion of the error.
abbrev pub check : {E T : Type 0} → (E → Error) → List ℕ → Result E T → Result TestError T
check into context (ok t) = ok t
check into context (err e) = err (record { error = into e; context = context })
check into context panicked = panicked

-- `TestActor::check_eq`, where the values can be told apart by a test.
unfoldable pub check_eq :
    {T : Type 0} → (T → T → Bool) → T → T → List ℕ → Result TestError (Unit {0})
unfolding from_io_error
check_eq same left right context =
    check from_io_error context (if same left right then ok tt else err invalid_data)

-- "Send failed", "Recv failed" and "Buffer allocation failed"
abbrev pub send_failed : List ℕ
send_failed = 83 ∷ 101 ∷ 110 ∷ 100 ∷ 32 ∷ 102 ∷ 97 ∷ 105 ∷ 108 ∷ 101 ∷ 100 ∷ []

abbrev pub recv_failed : List ℕ
recv_failed = 82 ∷ 101 ∷ 99 ∷ 118 ∷ 32 ∷ 102 ∷ 97 ∷ 105 ∷ 108 ∷ 101 ∷ 100 ∷ []

abbrev pub allocation_failed : List ℕ
allocation_failed =
    66 ∷ 117 ∷ 102 ∷ 102 ∷ 101 ∷ 114 ∷ 32 ∷ 97 ∷ 108 ∷ 108 ∷ 111 ∷ 99 ∷ 97 ∷ 116 ∷ 105 ∷ 111 ∷ 110
    ∷ 32 ∷ 102 ∷ 97 ∷ 105 ∷ 108 ∷ 101 ∷ 100 ∷ []

-- The addresses 10.0.0.1 and 10.0.1.1, in network byte order.
abbrev pub local_vsg_address : ℕ
local_vsg_address = swap_bytes (10 * 2 ^ 24 + 1)

abbrev pub remote_vsg_address : ℕ
remote_vsg_address = swap_bytes (10 * 2 ^ 24 + 2 ^ 8 + 1)

module _ {codec : Codec} (enc : Encoder codec) (F : Flatbuffers)
    (root : List ℕ → Option ToTansivMsg) where
  -- The stream of the client in both directions, and how each write ends.
  pub record TestActor : Type 0 where
    pub client : Reader
    pub written : List ℕ
    pub outcome : ℕ → Option IoError
    pub attempts : ℕ
    pub input_buffer_pool : Pool
    pub input_fb_buffer_pool : BufferPool (builders F)

  unfoldable pub new : Reader → (ℕ → Option IoError) → TestActor
  new client outcome = record {
    client = client;
    written = [];
    outcome = outcome;
    attempts = 0;
    input_buffer_pool = BufferPool.new bytes max_packet_size 100;
    input_fb_buffer_pool = BufferPool.new (builders F) max_packet_size 100;
  }

  -- `write_all` of what a builder has finished
  unfoldable pub write_all : List ℕ → TestActor → Result IoError (Unit {0}) × TestActor
  write_all b a = elim (a.outcome a.attempts) [
    | none ↦ (ok tt, record a { attempts = a.attempts + 1; written = a.written ++ b })
    | some e ↦ (err e, record a { attempts = a.attempts + 1 })
  ]

  -- `TestActor::send` of a message whose packet, if it is one, has its buffer in `pool`.
  unfoldable pub send : Pool → MsgIn → TestActor → Result TestError (Unit {0}) × TestActor
  unfolding send_in write_all from_io_error
  send pool msg a =
      let (b, _, fb_pool) = send_in enc F pool a.input_fb_buffer_pool msg in
      let built : TestActor = record a { input_fb_buffer_pool = fb_pool } in
      elim b [
        | panicked ↦ (panicked, built)
        | err e ↦ (check from_io_error send_failed (err e), built)
        | ok b ↦ let (done, a') = write_all b built in (check from_io_error send_failed done, a')
      ]

  -- `TestActor::recv`
  unfoldable pub recv : TestActor → Result TestError (MsgOut F) × TestActor
  unfolding recv_out from_io_error
  recv a =
      let (result, (r, pool, fb_pool)) =
        recv_out codec F root (a.client, a.input_buffer_pool, a.input_fb_buffer_pool) in
      (
        check from_io_error recv_failed result,
        record a { client = r; input_buffer_pool = pool; input_fb_buffer_pool = fb_pool },
      )

  abbrev pub Done : Type 0
  Done = Result TestError (Unit {0}) × TestActor

  -- `?` between two statements
  abbrev pub then_on : Done → (TestActor → Done) → Done
  then_on r f = elim r.0 [ ok u ↦ f r.1 | err e ↦ (err e, r.1) | panicked ↦ (panicked, r.1) ]

  -- A deadline, and the end, have no buffer.
  abbrev pub send_control : MsgIn → TestActor → Done
  send_control msg a = send a.input_buffer_pool msg a

  unfoldable pub start_actor : TestActor → Done
  unfolding send
  start_actor a =
      then_on (send_control (MsgIn.goto_deadline 100_000) a) (send_control MsgIn.end_simulation)

  -- A message that is not kept is dropped, with the buffer of a packet.
  abbrev pub discard : MsgOut F → TestActor → TestActor
  discard MsgOut.at_deadline a = a
  discard (MsgOut.send_packet p) a = record a {
    input_fb_buffer_pool = BufferPool.drop (builders F) a.input_fb_buffer_pool p.inner;
  }

  -- The actor lets the client run from deadline to deadline until it sends a packet.
  unfoldable pub recv_one_from : ℕ → ℕ → TestActor → Option Done
  unfolding send recv
  recv_one_from zero deadline a = none
  recv_one_from (suc fuel) deadline a =
      let (sent, a₁) = send_control (MsgIn.goto_deadline (deadline + 100_000)) a in
      let (msg, a₂) = recv a₁ in
      let rest = recv_one_from fuel (deadline + 100_000) a₂ in
      elim sent [
        | err e ↦ some (err e, a₁)
        | panicked ↦ some (panicked, a₁)
        | ok u ↦ elim msg [
          | err e ↦ some (err e, a₂)
          | panicked ↦ some (panicked, a₂)
          | ok m ↦ elim m [
            | MsgOut.at_deadline ↦ rest
            | MsgOut.send_packet p ↦
                some (send_control MsgIn.end_simulation (discard (MsgOut.send_packet p) a₂))
          ]
        ]
      ]

  -- Every message that is received takes bytes of the stream: as many turns as there are, and one, are
  -- enough.
  unfoldable pub recv_one_msg_actor : TestActor → Option Done
  unfolding recv_one_from
  recv_one_msg_actor a = recv_one_from (suc (length a.client.bytes)) 0 a

  -- The loop that waits for `AtDeadline`.
  unfoldable pub await_deadline : ℕ → TestActor → Option Done
  unfolding recv
  await_deadline zero a = none
  await_deadline (suc fuel) a =
      let (msg, a₁) = recv a in
      elim msg [
        | err e ↦ some (err e, a₁)
        | panicked ↦ some (panicked, a₁)
        | ok m ↦
            let rest = await_deadline fuel (discard m a₁) in
            elim m [ MsgOut.at_deadline ↦ some (ok tt, a₁) | MsgOut.send_packet p ↦ rest ]
      ]

  -- The loop over the slices before the delay.
  unfoldable pub slices : ℕ → ℕ → ℕ → ℕ → TestActor → Option Done
  unfolding send await_deadline
  slices zero next slice delay a = none
  slices (suc fuel) next slice delay a =
      let (sent, a₁) = send_control (MsgIn.goto_deadline (next * 1000)) a in
      let waited = await_deadline (suc (length a₁.client.bytes)) a₁ in
      if not (ltb next delay) then some (ok tt, a) else elim sent [
        | err e ↦ some (err e, a₁)
        | panicked ↦ some (panicked, a₁)
        | ok u ↦ elim waited [
          | none ↦ none
          | some (done, a₂) ↦
              let rest = slices fuel (next + slice) slice delay a₂ in
              elim done [ err e ↦ some (err e, a₂) | panicked ↦ some (panicked, a₂) | ok v ↦ rest ]
        ]
      ]

  -- `MsgIn::new_deliver_packet(buffer).unwrap()`
  unfoldable pub packet_in : Pool → Handle → Option MsgIn
  unfolding new_deliver_packet
  packet_in pool buffer = elim (codec.root (deref bytes pool buffer)) [
    | none ↦ none
    | some m ↦ elim m [
      | FromTansivMsg.deliver_packet d ↦ elim (new_deliver_packet codec d buffer) [
        | ok msg ↦ some msg
        | err e ↦ none
        | panicked ↦ none
      ]
      | FromTansivMsg.goto_deadline g ↦ none
      | FromTansivMsg.end_simulation ↦ none
      | FromTansivMsg.unknown ↦ none
    ]
  ]

  -- A packet, in a buffer of its own, and the end of the simulation.
  unfoldable pub send_built : List ℕ → TestActor → Done
  unfolding create_deliver_packet_unprefixed packet_in send from_pool_error
  send_built msg a =
      let fb = create_deliver_packet_unprefixed enc local_vsg_address remote_vsg_address msg in
      let size = length fb in
      elim (check from_pool_error allocation_failed
        (allocate_buffer bytes (BufferPool.new bytes size 1) size)) [
          | err e ↦ (err e, a)
          | panicked ↦ (panicked, a)
          | ok (buffer, pool) ↦
              let filled = deref_mut bytes pool buffer fb in
              elim (packet_in filled buffer) [
                | none ↦ (panicked, a)
                | some packet ↦ then_on (send filled packet a) (send_control MsgIn.end_simulation)
              ]
        ]

  -- Within `fuel` slices.
  unfoldable pub send_one_delayed_msg_actor : ℕ → List ℕ → ℕ → ℕ → TestActor → Option Done
  unfolding slices send_built
  send_one_delayed_msg_actor fuel msg slice delay a = elim (slices fuel slice slice delay a) [
    | none ↦ none
    | some r ↦ some (
        then_on r
          (λ a₁. then_on (send_control (MsgIn.goto_deadline (delay * 1000)) a₁) (send_built msg)))
  ]

  unfoldable pub send_one_msg_actor : ℕ → List ℕ → TestActor → Option Done
  unfolding send_one_delayed_msg_actor
  send_one_msg_actor fuel msg a = send_one_delayed_msg_actor fuel msg 100 100 a
