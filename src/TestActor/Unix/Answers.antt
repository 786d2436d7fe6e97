-- ===== src/TestActor/Unix/Answers.antt =====
-- What the client receives of the scripts of connector/unix.rs, and when the actor's process succeeds.
use tansiv.Base.{
  ℕ, ◌+◌, ◌*◌, ◌≤◌, ◌<◌, ◌^◌, ◌≡◌, refl, ap, ◌∙◌, inl, inr, ◌⊎◌, Option, none, some, List, [], ◌++◌,
  length, ok, err,
}
use tansiv.Duration.{nanos_per_sec}
use tansiv.Error.{invalid_data, from_io_error}
use tansiv.BufferPool.Builders.{Flatbuffers}
use tansiv.Connector.{
  Codec, Reader, Pool, MsgIn, FromTansivMsg, recv, decode, new_goto_deadline, Time,
}
use tansiv.Connector.Stream.{goto_of-bounds}
use tansiv.Connector.Wire.{Encoder, finish_size_prefixed}
use tansiv.Connector.Wire.Actor.{ToTansivMsg}
use tansiv.Connector.Wire.Refused.{recv-finish_size_prefixed}
use tansiv.Connector.Wire.RoundTrip.{Room}
use tansiv.TestActor.{TestActor, write_all, check}
use tansiv.TestActor.Unix.{goto_failed, send_go_to_deadline}

module _ {codec : Codec} (enc : Encoder codec) (F : Flatbuffers)
    (root : List ℕ → Option ToTansivMsg) where
  abbrev goto : ℕ → ℕ → FromTansivMsg
  goto seconds nseconds =
      FromTansivMsg.goto_deadline
        (some (record { time = some (record { seconds = seconds; nseconds = nseconds }) }))

  -- The first write of an actor, where it succeeds.
  write_all-fine :
      (b : List ℕ) (a : TestActor enc F root)
      → a.written ≡ []
      → a.outcome a.attempts ≡ none
      → write_all enc F root b a ≡ (ok tt, record a { attempts = a.attempts + 1; written = b })
  unfolding write_all
  write_all-fine b a w fine = rw (write_all, fine, w) refl

  -- A deadline that the actor writes with any two numbers of 64 bits is received by the client exactly if
  -- its nanoseconds are below one second, and is refused as invalid data otherwise; in both cases the
  -- stream goes on behind it. The client has a free buffer of the message's size.
  pub recv-send_go_to_deadline :
      (seconds nseconds : ℕ) (a : TestActor enc F root) (rest : List ℕ) (r : Reader) (pool : Pool)
      → seconds < 2 ^ 64
      → nseconds < 2 ^ 64
      → a.written ≡ []
      → a.outcome a.attempts ≡ none
      → let (done, a') = send_go_to_deadline enc F root seconds nseconds a in
        r.bytes ≡ a'.written ++ rest
        → length (enc.body (goto seconds nseconds)) < 2 ^ 32
        → Room pool (length (enc.body (goto seconds nseconds)))
        → (done ≡ ok tt)
          × ((recv codec r pool).1.bytes ≡ rest)
          × (((nseconds < nanos_per_sec)
                × ((recv codec r pool).0
                    ≡ ok (MsgIn.goto_deadline (seconds * nanos_per_sec + nseconds))))
              ⊎ ((nanos_per_sec ≤ nseconds) × ((recv codec r pool).0 ≡ err invalid_data)))
  unfolding send_go_to_deadline decode new_goto_deadline
  recv-send_go_to_deadline seconds nseconds a rest r pool hs hn w fine s small room =
      let time : Time = record { seconds = seconds; nseconds = nseconds } in
      let sent = write_all-fine (finish_size_prefixed enc (goto seconds nseconds)) a w fine in
      let (b, msg, left) =
        recv-finish_size_prefixed enc (goto seconds nseconds) rest r pool small
          (s ∙ ap (λ x. x.1.written ++ rest) sent) room in
      let found = enc.root-body (goto seconds nseconds) (hs, hn) in
      (
        ap (λ x. check from_io_error goto_failed x.0) sent,
        left,
        elim (goto_of-bounds codec time hs) [
          | inl (q, below) ↦ inl (below, msg ∙ rw (decode, found, new_goto_deadline, q) refl)
          | inr (q, over) ↦ inr (over, msg ∙ rw (decode, found, new_goto_deadline, q) refl)
        ],
      )
