-- ===== src/TestActor/Unix/Codes.antt =====
-- When the process of the actor ends with success (connector/unix.rs).
use tansiv.Base.{ℕ, ◌≡◌, refl, ap, Option, none, some, List, ◌++◌, Result, ok}
use tansiv.Error.{IoError}
use tansiv.BufferPool.{Buffer}
use tansiv.BufferPool.Builders.{Flatbuffers, builders}
use tansiv.Connector.{Codec, Reader}
use tansiv.Connector.Send.{Frame}
use tansiv.Connector.Wire.{Encoder}
use tansiv.Connector.Wire.Actor.{ToTansivMsg}
use tansiv.Connector.Wire.Frames.{Sender, frame_bytes}
use tansiv.Connector.Wire.Frames.Received.{rebuilt}
use tansiv.TestActor
use tansiv.TestActor.{TestActor, TestError, Done, recv, recv_one_msg_actor}
use tansiv.TestActor.Turns.{new-Ready, recv-read}
use tansiv.TestActor.Scripts.{Readable, client_stream, recv_one_msg_actor-written}
use tansiv.TestActor.Unix.{run, exit_code, actor_failure_exit_code, recv_at_deadline}

module _ {codec : Codec} (enc : Encoder codec) (F : Flatbuffers)
    {root : List ℕ → Option ToTansivMsg} (out : Sender root) where
  abbrev Actor : Type 0
  Actor = TestActor enc F root

  -- The exit code that the test of `send_at_deadline` looks for.
  abbrev pub expected_code : Frame → ℕ
  expected_code Frame.at_deadline = 0
  expected_code (Frame.send_packet src dst seconds nseconds payload) = actor_failure_exit_code

  checked_type :
      (f : Frame) (fb : Buffer (builders F)) (a a' : Actor)
      → recv enc F root a ≡ (ok (rebuilt enc F out f fb), a')
      → exit_code (recv_at_deadline enc F root a).0 ≡ some (expected_code f)
  unfolding recv_at_deadline exit_code
  checked_type Frame.at_deadline fb a a' e = rw (recv_at_deadline, ap (λ x. x.0) e) refl
  checked_type (Frame.send_packet src dst seconds nseconds payload) fb a a' e =
      rw (recv_at_deadline, ap (λ x. x.0) e) refl

  module _ (rest : List ℕ) (client : Reader) (outcome : ℕ → Option IoError)
      (fine : (n : ℕ) → outcome n ≡ none) where
    -- The process of the actor that waits for one `AtDeadline` ends with success exactly if that is what
    -- the client sends first, and with the code of a failure if it is a packet.
    pub exit_code-recv_at_deadline :
        (f : Frame)
        → Readable enc F out f
        → client.bytes ≡ frame_bytes enc out f ++ rest
        → (result : Result TestError (Unit {0})) × (run enc F root
              (ok (client, outcome))
              (λ a. some (recv_at_deadline enc F root a))
            ≡ some result)
          × (exit_code result ≡ some (expected_code f))
    unfolding run TestActor.new
    exit_code-recv_at_deadline f h s =
        let a = TestActor.new enc F root client outcome in
        let (fb, a', e, _, _, _) =
          recv-read enc F out f rest a h.fits h.small s (new-Ready enc F out client outcome fine) in
        ((recv_at_deadline enc F root a).0, refl, checked_type f fb a a' e)

    pub run-recv_one_msg_actor :
        (src dst seconds nseconds : ℕ) (payload : List ℕ) (k : ℕ)
        → Readable enc F out Frame.at_deadline
        → Readable enc F out (Frame.send_packet src dst seconds nseconds payload)
        → client.bytes ≡ client_stream enc F out src dst seconds nseconds payload k ++ rest
        → run enc F root (ok (client, outcome)) (recv_one_msg_actor enc F root) ≡ some (ok tt)
    unfolding run TestActor.new
    run-recv_one_msg_actor src dst seconds nseconds payload k h p s =
        let a = TestActor.new enc F root client outcome in
        let (a', e, _, _) =
          recv_one_msg_actor-written enc F out src dst seconds nseconds payload k rest a h p
            (new-Ready enc F out client outcome fine) s in
        rw (run, e) refl
