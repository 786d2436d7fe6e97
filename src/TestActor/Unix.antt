-- ===== src/TestActor/Unix.antt =====
-- The process of the test actor, and the scripts of the tests of connector/unix.rs.
pub mod Answers
pub mod Codes
pub mod Packets
pub mod Compared
use tansiv.Base.{
  ℕ, ◌+◌, ◌-◌, ◌^◌, Option, none, some, List, [], ◌∷◌, ◌++◌, replicate, Result, ok, err, panicked,
}
use tansiv.Error.{IoError, from_io_error, invalid_data}
use tansiv.BufferPool.Builders.{Flatbuffers}
use tansiv.Connector.{Codec, Reader, FromTansivMsg, max_packet_size}
use tansiv.Connector.Send.{MsgOut}
use tansiv.Connector.Wire.{Encoder, finish_size_prefixed, create_deliver_packet}
use tansiv.Connector.Wire.Actor.{ToTansivMsg}
use tansiv.TestActor
use tansiv.TestActor.{TestActor, TestError, Done, check, recv, write_all, discard}

-- "Failed to accept connection", "Failed to go to deadline message", "Failed to send payload" and
-- "Received wrong message type"
abbrev pub accept_failed : List ℕ
accept_failed =
    70 ∷ 97 ∷ 105 ∷ 108 ∷ 101 ∷ 100 ∷ 32 ∷ 116 ∷ 111 ∷ 32 ∷ 97 ∷ 99 ∷ 99 ∷ 101 ∷ 112 ∷ 116 ∷ 32 ∷ 99
    ∷ 111 ∷ 110 ∷ 110 ∷ 101 ∷ 99 ∷ 116 ∷ 105 ∷ 111 ∷ 110 ∷ []

abbrev pub goto_failed : List ℕ
goto_failed =
    70 ∷ 97 ∷ 105 ∷ 108 ∷ 101 ∷ 100 ∷ 32 ∷ 116 ∷ 111 ∷ 32 ∷ 103 ∷ 111 ∷ 32 ∷ 116 ∷ 111 ∷ 32 ∷ 100
    ∷ 101 ∷ 97 ∷ 100 ∷ 108 ∷ 105 ∷ 110 ∷ 101 ∷ 32 ∷ 109 ∷ 101 ∷ 115 ∷ 115 ∷ 97 ∷ 103 ∷ 101 ∷ []

abbrev pub payload_failed : List ℕ
payload_failed =
    70 ∷ 97 ∷ 105 ∷ 108 ∷ 101 ∷ 100 ∷ 32 ∷ 116 ∷ 111 ∷ 32 ∷ 115 ∷ 101 ∷ 110 ∷ 100 ∷ 32 ∷ 112 ∷ 97
    ∷ 121 ∷ 108 ∷ 111 ∷ 97 ∷ 100 ∷ []

abbrev pub wrong_type : List ℕ
wrong_type =
    82 ∷ 101 ∷ 99 ∷ 101 ∷ 105 ∷ 118 ∷ 101 ∷ 100 ∷ 32 ∷ 119 ∷ 114 ∷ 111 ∷ 110 ∷ 103 ∷ 32 ∷ 109 ∷ 101
    ∷ 115 ∷ 115 ∷ 97 ∷ 103 ∷ 101 ∷ 32 ∷ 116 ∷ 121 ∷ 112 ∷ 101 ∷ []

-- `PACKET_PAYLOAD`
abbrev pub packet_payload : List ℕ
packet_payload =
    97 ∷ 98 ∷ 99 ∷ 100 ∷ 101 ∷ 102 ∷ 103 ∷ 104 ∷ 105 ∷ 106 ∷ 107 ∷ 108 ∷ 109 ∷ 110 ∷ 111 ∷ 112 ∷ 113
    ∷ 114 ∷ 115 ∷ 116 ∷ 117 ∷ 118 ∷ 119 ∷ 120 ∷ 121 ∷ 122 ∷ 48 ∷ 49 ∷ 50 ∷ 51 ∷ 52 ∷ 53 ∷ 54 ∷ 55
    ∷ 56 ∷ 57 ∷ 65 ∷ 66 ∷ 67 ∷ 68 ∷ 69 ∷ 70 ∷ []

-- `ACTOR_FAILURE_EXIT_CODE`
abbrev pub actor_failure_exit_code : ℕ
actor_failure_exit_code = 123

-- The exit code of the process; a panic is not given one.
unfoldable pub exit_code : Result TestError (Unit {0}) → Option ℕ
exit_code (ok u) = some 0
exit_code (err e) = some actor_failure_exit_code
exit_code panicked = none

module _ {codec : Codec} (enc : Encoder codec) (F : Flatbuffers)
    (root : List ℕ → Option ToTansivMsg) where
  abbrev Actor : Type 0
  Actor = TestActor enc F root

  -- `TestActor::run`: once the script has ended well, whatever the client still sends is read, and
  -- neither a failure of that nor of the shutdown counts. `none` is a script that has no end.
  unfoldable pub run :
      Result IoError (Reader × (ℕ → Option IoError))
      → (Actor → Option (Done enc F root))
      → Option (Result TestError (Unit {0}))
  unfolding from_io_error
  run accepted actor_fn = elim accepted [
    | err e ↦ some (check from_io_error accept_failed (err e))
    | panicked ↦ some panicked
    | ok (client, outcome) ↦ elim (actor_fn (TestActor.new enc F root client outcome)) [
      | none ↦ none
      | some (result, after) ↦ some result
    ]
  ]

  unfoldable pub dummy_actor : Actor → Done enc F root
  dummy_actor a = (ok tt, a)

  abbrev pub checked_write : List ℕ → List ℕ → Actor → Done enc F root
  checked_write context b a =
      let (done, a') = write_all enc F root b a in (check from_io_error context done, a')

  -- A deadline of any numbers, in bounds or not.
  unfoldable pub send_go_to_deadline : ℕ → ℕ → Actor → Done enc F root
  unfolding write_all from_io_error
  send_go_to_deadline seconds nseconds a =
      checked_write goto_failed
        (finish_size_prefixed enc (
          FromTansivMsg.goto_deadline
            (some (record { time = some (record { seconds = seconds; nseconds = nseconds }) }))))
        a

  unfoldable pub recv_go_to_deadline_oob_nseconds_actor : Actor → Done enc F root
  unfolding send_go_to_deadline
  recv_go_to_deadline_oob_nseconds_actor a = send_go_to_deadline 0 (2 ^ 64 - 1) a

  unfoldable pub recv_go_to_deadline_actor : Actor → Done enc F root
  unfolding send_go_to_deadline
  recv_go_to_deadline_actor a = send_go_to_deadline 2 100_000 a

  unfoldable pub send_deliver_packet : ℕ → ℕ → List ℕ → Actor → Done enc F root
  unfolding create_deliver_packet write_all from_io_error
  send_deliver_packet src dst payload a =
      checked_write payload_failed (create_deliver_packet enc src dst payload) a

  unfoldable pub recv_deliver_packet_payload_too_big_actor : Actor → Done enc F root
  unfolding send_deliver_packet
  recv_deliver_packet_payload_too_big_actor a =
      send_deliver_packet 0 1 (replicate max_packet_size 0 ++ 1 ∷ []) a

  unfoldable pub recv_deliver_packet_actor : Actor → Done enc F root
  unfolding send_deliver_packet
  recv_deliver_packet_actor a = send_deliver_packet 0 1 packet_payload a

  unfoldable pub recv_gibberish_actor : Actor → Done enc F root
  unfolding write_all from_io_error
  recv_gibberish_actor a = checked_write payload_failed (replicate max_packet_size 0) a

  -- The message is dropped at the end.
  unfoldable pub recv_at_deadline : Actor → Done enc F root
  unfolding recv from_io_error
  recv_at_deadline a =
      let (msg, a₁) = recv enc F root a in
      elim msg [
        | err e ↦ (err e, a₁)
        | panicked ↦ (panicked, a₁)
        | ok m ↦ (
          check from_io_error wrong_type
              (elim m [ MsgOut.at_deadline ↦ ok tt | MsgOut.send_packet p ↦ err invalid_data ]),
          discard enc F root m a₁,
        )
      ]
