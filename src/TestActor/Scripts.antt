-- ===== src/TestActor/Scripts.antt =====
-- The script of the actor that receives one message, against a client that reaches deadlines and then
-- sends a packet (lib.rs).
use tansiv.Base.{
  ℕ, zero, suc, ◌+◌, ◌≤◌, ◌<◌, ◌≡◌, refl, ap, ◌∙◌, sym, Option, some, List, [], ◌∷◌, ◌++◌, arith,
  length, length-append, replicate, ok,
}
use mathlib.Core.List.{append_assoc, append-nil}
use tansiv.BufferPool.Builders.{Flatbuffers}
use tansiv.Connector.{Codec, MsgIn, max_packet_size}
use tansiv.Connector.Send.{Frame, MsgOut, SendPacket}
use tansiv.Connector.Wire.{Encoder, bytes_in, create_goto_deadline, create_end_simulation}
use tansiv.Connector.Wire.Actor.{ToTansivMsg}
use tansiv.Connector.Wire.Frames.{Sender, FrameFits, table, frame_bytes, stream, length-frame_bytes}
use tansiv.Connector.Wire.Frames.Received.{rebuilt}
use tansiv.TestActor.{TestActor, recv_one_from, recv_one_msg_actor, send_control, recv, discard}
use tansiv.TestActor.Turns.{Ready, send_control-written, recv-read}

module _ {codec : Codec} (enc : Encoder codec) (F : Flatbuffers)
    {root : List ℕ → Option ToTansivMsg} (out : Sender root) where
  abbrev Actor : Type 0
  Actor = TestActor enc F root

  -- The deadlines of `k` slices, the first of which ends behind `d`.
  abbrev pub deadlines : ℕ → ℕ → List ℕ
  deadlines zero d = []
  deadlines (suc k) d = create_goto_deadline enc (d + 100_000) ++ deadlines k (d + 100_000)

  -- One turn of the loop: the client reaches the deadline, or it sends a packet.
  turn-at_deadline :
      (fuel d : ℕ) (a : Actor) {a₁ a₂ : Actor}
      → send_control enc F root (MsgIn.goto_deadline (d + 100_000)) a ≡ (ok tt, a₁)
      → recv enc F root a₁ ≡ (ok MsgOut.at_deadline, a₂)
      → recv_one_from enc F root (suc fuel) d a ≡ recv_one_from enc F root fuel (d + 100_000) a₂
  unfolding recv_one_from
  turn-at_deadline fuel d a sent read =
      let done = ap (λ x. recv enc F root x.1) sent ∙ read in
      rw (recv_one_from, ap (λ x. x.0) sent, ap (λ x. x.0) done)
        (ap (λ x. recv_one_from enc F root fuel (d + 100_000) x.1) done)

  turn-send_packet :
      (fuel d : ℕ) (p : SendPacket F) (a : Actor) {a₁ a₂ : Actor}
      → send_control enc F root (MsgIn.goto_deadline (d + 100_000)) a ≡ (ok tt, a₁)
      → recv enc F root a₁ ≡ (ok (MsgOut.send_packet p), a₂)
      → recv_one_from enc F root (suc fuel) d a
        ≡ some (
            send_control enc F root MsgIn.end_simulation
              (discard enc F root (MsgOut.send_packet p) a₂))
  unfolding recv_one_from
  turn-send_packet fuel d p a sent read =
      let done = ap (λ x. recv enc F root x.1) sent ∙ read in
      rw (recv_one_from, ap (λ x. x.0) sent, ap (λ x. x.0) done)
        (ap
          (λ x. some (
            send_control enc F root MsgIn.end_simulation
              (discard enc F root (MsgOut.send_packet p) x.1)))
          done)

  -- A message of the client that the actor can read.
  pub record Readable (f : Frame) : Type 0 where
    pub fits : FrameFits f
    pub small : length (out.body (table f)) ≤ max_packet_size

  module _ (src dst seconds nseconds : ℕ) (payload : List ℕ) where
    -- What the client writes: it reaches `k` deadlines, and at the next it sends a packet.
    abbrev pub client_stream : ℕ → List ℕ
    client_stream k =
        stream enc out
          (replicate k Frame.at_deadline ++ Frame.send_packet src dst seconds nseconds payload ∷ [])

    recv_one_from-written :
        (k fuel d : ℕ) (rest : List ℕ) (a : Actor)
        → k < fuel
        → Readable Frame.at_deadline
        → Readable (Frame.send_packet src dst seconds nseconds payload)
        → Ready enc F out a
        → a.client.bytes ≡ client_stream k ++ rest
        → (a' : Actor) × (recv_one_from enc F root fuel d a ≡ some (ok tt, a'))
          × (a'.written ≡ a.written ++ (deadlines (suc k) d ++ create_end_simulation enc))
          × (a'.client.bytes ≡ rest)
    unfolding bytes_in
    recv_one_from-written k zero d rest a lt h p r s = absurd (omega arith)
    recv_one_from-written zero (suc fuel) d rest a lt h p r s =
        let goto = create_goto_deadline enc (d + 100_000) in
        let packet = Frame.send_packet src dst seconds nseconds payload in
        let (a₁, sent, r₁, w₁, c₁) =
          send_control-written enc F out (MsgIn.goto_deadline (d + 100_000))
            (create_goto_deadline enc (d + 100_000)) a refl r in
        let (fb, a₂, read, r₂, w₂, b₂) =
          recv-read enc F out packet rest a₁ p.fits p.small
            (ap (λ c. c.bytes) c₁
              ∙ s
              ∙ ap (λ l. l ++ rest) (append-nil (frame_bytes enc out packet)))
            r₁ in
        let (a₃, ended, r₃, w₃, c₃) =
          send_control-written enc F out MsgIn.end_simulation (create_end_simulation enc)
            (discard enc F root (rebuilt enc F out packet fb) a₂) refl r₂ in
        (
          a₃,
          turn-send_packet fuel d _ a sent read ∙ ap some ended,
          w₃
              ∙ ap (λ l. l ++ create_end_simulation enc) (w₂ ∙ w₁)
              ∙ append_assoc a.written goto (create_end_simulation enc)
              ∙ ap (λ l. a.written ++ (l ++ create_end_simulation enc)) (sym (append-nil goto)),
          ap (λ c. c.bytes) c₃ ∙ b₂,
        )
    recv_one_from-written (suc k) (suc fuel) d rest a lt h p r s =
        let goto = create_goto_deadline enc (d + 100_000) in
        let later = deadlines (suc k) (d + 100_000) in
        let (a₁, sent, r₁, w₁, c₁) =
          send_control-written enc F out (MsgIn.goto_deadline (d + 100_000))
            (create_goto_deadline enc (d + 100_000)) a refl r in
        let (fb, a₂, read, r₂, w₂, b₂) =
          recv-read enc F out Frame.at_deadline (client_stream k ++ rest) a₁ h.fits h.small
            (ap (λ c. c.bytes) c₁
              ∙ s
              ∙ append_assoc (frame_bytes enc out Frame.at_deadline) (client_stream k) rest)
            r₁ in
        let (a₃, rest_run, w₃, b₃) =
          recv_one_from-written k fuel (d + 100_000) rest a₂ (omega arith) h p r₂ b₂ in
        (
          a₃,
          turn-at_deadline fuel d a sent read ∙ rest_run,
          w₃
              ∙ ap (λ l. l ++ (later ++ create_end_simulation enc)) (w₂ ∙ w₁)
              ∙ append_assoc a.written goto (later ++ create_end_simulation enc)
              ∙ ap (λ l. a.written ++ l)
                  (sym (append_assoc goto later (create_end_simulation enc))),
          b₃,
        )

    length-client_stream : (k : ℕ) → k < length (client_stream k)
    length-client_stream zero = omega (
      arith,
      length-append (frame_bytes enc out (Frame.send_packet src dst seconds nseconds payload)) [],
      length-frame_bytes enc out (Frame.send_packet src dst seconds nseconds payload),
    )
    length-client_stream (suc k) = omega (
      arith,
      length-append (frame_bytes enc out Frame.at_deadline) (client_stream k),
      length-frame_bytes enc out Frame.at_deadline,
      length-client_stream k,
    )

    -- Against a client that reaches `k` deadlines and sends a packet at the next, the actor that
    -- receives one message comes to its end with success, whatever the client writes afterwards: it has
    -- given the client `k` + 1 deadlines, 100 microseconds apart, and then the end of the simulation, and
    -- has read the client's stream up to the packet. The client's messages have fields in range and fit
    -- in a buffer, no buffer of the actor is in use, and its writes succeed.
    pub recv_one_msg_actor-written :
        (k : ℕ) (rest : List ℕ) (a : Actor)
        → Readable Frame.at_deadline
        → Readable (Frame.send_packet src dst seconds nseconds payload)
        → Ready enc F out a
        → a.client.bytes ≡ client_stream k ++ rest
        → (a' : Actor) × (recv_one_msg_actor enc F root a ≡ some (ok tt, a'))
          × (a'.written ≡ a.written ++ (deadlines (suc k) 0 ++ create_end_simulation enc))
          × (a'.client.bytes ≡ rest)
    unfolding recv_one_msg_actor
    recv_one_msg_actor-written k rest a h p r s =
        recv_one_from-written k (suc (length a.client.bytes)) 0 rest a
          (omega (arith, ap length s, length-append (client_stream k) rest, length-client_stream k))
          h p r s
