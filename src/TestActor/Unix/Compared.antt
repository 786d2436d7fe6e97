-- ===== src/TestActor/Unix/Compared.antt =====
-- When the process of the actor that compares packets ends with success (connector/unix.rs).
use tansiv.Base.{
  All, ℕ, ◌<◌, ◌≡◌, ◌≢◌, ◌⊎◌, ◌↔◌, inl, inr, refl, ap, ◌∙◌, sym, Bool, true, false, Bool-cases,
  Option, none, some, List, [], ◌∷◌, ◌++◌, ltb, ◌&&◌, arith, length, Result, ok,
}
use tansiv.Error.{IoError, from_io_error}
use tansiv.BufferPool
use tansiv.BufferPool.{Buffer}
use tansiv.BufferPool.Builders.{Flatbuffers, builders}
use tansiv.BufferPool.Quiet.{allocate_buffer-Quiet}
use tansiv.Connector.{Codec, Reader, max_packet_size}
use tansiv.Connector.Send
use tansiv.Connector.Send.{Frame, MsgOut, SendPacket, finish, frame_of}
use tansiv.Connector.Wire.{Encoder}
use tansiv.Connector.Wire.Actor.{ToTansivMsg}
use tansiv.Connector.Wire.Frames.{Sender, FrameFits, table, frame_bytes}
use tansiv.Connector.Wire.Frames.Received.{rebuilt, table-ToInRange, frame_of-rebuilt}
use tansiv.TestActor
use tansiv.TestActor.{TestActor, TestError, check_eq}
use tansiv.TestActor.Turns.{new-Ready, new-Quiet, recv-read}
use tansiv.TestActor.Scripts.{Readable}
use tansiv.TestActor.Unix.{packet_payload, run, exit_code, actor_failure_exit_code}
use tansiv.TestActor.Unix.Packets.{
  reference, make_ref_send_packet, compare, judge, read_back, send_send_packet_actor,
}

-- A list of bytes, by a test.
abbrev are_bytes : List ℕ → Bool
are_bytes [] = true
are_bytes (b ∷ l) = ltb b 256 && are_bytes l

bytes_of : (l : List ℕ) → are_bytes l ≡ true → All (λ b. b < 256) l
bytes_of [] e = tt
bytes_of (b ∷ l) e = (ground arith, bytes_of l (ground arith))

reference-FrameFits : FrameFits reference
reference-FrameFits =
    (omega arith, omega arith, omega arith, omega arith, bytes_of packet_payload refl)

-- A frame is known by its table.
abbrev frame_of_table : ToTansivMsg → Option Frame
frame_of_table ToTansivMsg.at_deadline = some Frame.at_deadline
frame_of_table (ToTansivMsg.send_packet none) = none
frame_of_table ToTansivMsg.unknown = none
frame_of_table (ToTansivMsg.send_packet (some t)) = elim t.metadata [
  | none ↦ none
  | some m ↦ elim t.time [
    | none ↦ none
    | some time ↦ elim t.payload [
      | none ↦ none
      | some p ↦ some (Frame.send_packet m.src m.dst time.seconds time.nseconds p)
    ]
  ]
]

frame_of_table-table : (f : Frame) → frame_of_table (table f) ≡ some f
frame_of_table-table Frame.at_deadline = refl
frame_of_table-table (Frame.send_packet src dst seconds nseconds payload) = refl

table_injective : (f g : Frame) → table f ≡ table g → f ≡ g
table_injective f g e =
    let s : some f ≡ some g =
      sym (frame_of_table-table f) ∙ ap frame_of_table e ∙ frame_of_table-table g in
    cc

module _ {codec : Codec} (enc : Encoder codec) (F : Flatbuffers)
    {root : List ℕ → Option ToTansivMsg} (out : Sender root)
    (same : ToTansivMsg → ToTansivMsg → Bool)
    (same_iff : (x y : ToTansivMsg) → (same x y ≡ true) ↔ (x ≡ y)) where
  abbrev Actor : Type 0
  Actor = TestActor enc F root

  made :
      (p : SendPacket F) × (make_ref_send_packet F ≡ ok (MsgOut.send_packet p))
      × (p.frame ≡ reference)
  unfolding make_ref_send_packet Send.new finish BufferPool.new
  made =
      let (b, after, e, lent) =
        allocate_buffer-Quiet (builders F) (BufferPool.new (builders F) max_packet_size 1)
          (length packet_payload) (new-Quiet enc F out (builders F) max_packet_size 1 (omega arith))
          (omega arith) in
      let p : SendPacket F = record { frame = reference; inner = b } in
      (p, rw (make_ref_send_packet, e) refl, refl)

  -- The verdict on the message of a frame that can be read.
  abbrev pub Judged : Frame → Result TestError (Unit {0}) → Type 0
  Judged f r =
      ((f ≡ reference) × (exit_code r ≡ some 0))
      ⊎ ((f ≢ reference) × (exit_code r ≡ some actor_failure_exit_code))

  compared :
      (f : Frame) → Judged f (compare enc F out same (some (table reference)) (some (table f)))
  unfolding check_eq exit_code
  compared f = elim (Bool-cases (same (table reference) (table f))) [
    | inl e ↦
        inl (
          sym (table_injective reference f ((same_iff (table reference) (table f)).0 e)),
          rw e refl,
        )
    | inr e ↦ inr (
      (λ q. absurd (true_false e ((same_iff (table reference) (table f)).1 (ap table (sym q))))),
      rw e refl,
    )
  ]
    where
      true_false : {b : Bool} → b ≡ false → b ≡ true → ⊥
      true_false p q = cc

  judged :
      (f : Frame) (fb : Buffer (builders F)) (p : SendPacket F)
      → FrameFits f
      → p.frame ≡ reference
      → Judged f (judge enc F out same p (rebuilt enc F out f fb))
  unfolding exit_code from_io_error
  judged Frame.at_deadline fb p h e = inr ((λ q. cc), refl)
  judged (Frame.send_packet src dst seconds nseconds payload) fb p h e =
      let f = Frame.send_packet src dst seconds nseconds payload in
      let mine : read_back enc F out same p ≡ some (table reference) =
        ap (λ x. root (out.body (table x))) e
        ∙ out.root-body (table reference)
            (table-ToInRange enc F out reference reference-FrameFits) in
      let theirs : root (out.body (table (frame_of F (rebuilt enc F out f fb)))) ≡ some (table f) =
        ap (λ x. root (out.body (table x))) (frame_of-rebuilt enc F out f fb h)
        ∙ out.root-body (table f) (table-ToInRange enc F out f h) in
      rw (mine, theirs) (compared f)

  -- The process of the actor that compares the client's packet with a reference ends with success exactly
  -- if the first message of the client is the reference packet, and with the code of a failure if it is
  -- another message, whose fields are in range and that fits in a buffer. The equality that is generated
  -- from the schema tells equal tables from others.
  pub exit_code-send_send_packet_actor :
      (rest : List ℕ) (client : Reader) (outcome : ℕ → Option IoError)
      → ((n : ℕ) → outcome n ≡ none)
      → (f : Frame) → Readable enc F out f
      → client.bytes ≡ frame_bytes enc out f ++ rest
      → (result : Result TestError (Unit {0})) × (run enc F root
            (ok (client, outcome))
            (λ a. some (send_send_packet_actor enc F out same a))
          ≡ some result)
        × Judged f result
  unfolding run TestActor.new send_send_packet_actor
  exit_code-send_send_packet_actor rest client outcome fine f h s =
      let a = TestActor.new enc F root client outcome in
      let (fb, a', e, _, _, _) =
        recv-read enc F out f rest a h.fits h.small s (new-Ready enc F out client outcome fine) in
      let (p, q, g) = made in
      (
        (send_send_packet_actor enc F out same a).0,
        refl,
        rw (send_send_packet_actor, ap (λ x. x.0) e, q) (judged f fb p h.fits g),
      )
