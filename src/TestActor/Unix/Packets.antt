-- ===== src/TestActor/Unix/Packets.antt =====
-- The script that compares the packet of the client with one of its own (connector/unix.rs).
use tansiv.Base.{ℕ, Bool, Option, none, some, List, [], ◌∷◌, length, Result, ok, err, panicked}
use tansiv.Error.{from_io_error, invalid_data}
use tansiv.BufferPool
use tansiv.BufferPool.{Buffer, BufferPool, allocate_buffer}
use tansiv.BufferPool.Builders.{Flatbuffers, builders}
use tansiv.Connector.{Codec, max_packet_size}
use tansiv.Connector.Send
use tansiv.Connector.Send.{Frame, MsgOut, SendPacket, finish, frame_of}
use tansiv.Connector.Wire.{Encoder}
use tansiv.Connector.Wire.Actor.{ToTansivMsg}
use tansiv.Connector.Wire.Frames.{Sender, table}
use tansiv.TestActor.{TestActor, TestError, Done, check, check_eq, recv, discard}
use tansiv.TestActor.Unix.{packet_payload}

-- "Messages are differents", "Wrong message type" and "Wrong message type crafter (critical)"
abbrev pub differents : List ℕ
differents =
    77 ∷ 101 ∷ 115 ∷ 115 ∷ 97 ∷ 103 ∷ 101 ∷ 115 ∷ 32 ∷ 97 ∷ 114 ∷ 101 ∷ 32 ∷ 100 ∷ 105 ∷ 102 ∷ 102
    ∷ 101 ∷ 114 ∷ 101 ∷ 110 ∷ 116 ∷ 115 ∷ []

abbrev pub wrong_message : List ℕ
wrong_message =
    87 ∷ 114 ∷ 111 ∷ 110 ∷ 103 ∷ 32 ∷ 109 ∷ 101 ∷ 115 ∷ 115 ∷ 97 ∷ 103 ∷ 101 ∷ 32 ∷ 116 ∷ 121 ∷ 112
    ∷ 101 ∷ []

abbrev pub wrong_crafter : List ℕ
wrong_crafter =
    87 ∷ 114 ∷ 111 ∷ 110 ∷ 103 ∷ 32 ∷ 109 ∷ 101 ∷ 115 ∷ 115 ∷ 97 ∷ 103 ∷ 101 ∷ 32 ∷ 116 ∷ 121 ∷ 112
    ∷ 101 ∷ 32 ∷ 99 ∷ 114 ∷ 97 ∷ 102 ∷ 116 ∷ 101 ∷ 114 ∷ 32 ∷ 40 ∷ 99 ∷ 114 ∷ 105 ∷ 116 ∷ 105 ∷ 99
    ∷ 97 ∷ 108 ∷ 41 ∷ []

-- The packet that the client sends in the test.
abbrev pub reference : Frame
reference = Frame.send_packet 0 1 3 200 packet_payload

module _ (F : Flatbuffers) where
  unfoldable pub make_ref_send_packet : Result TestError (MsgOut F)
  unfolding Send.new finish
  make_ref_send_packet =
      elim (allocate_buffer (builders F) (BufferPool.new (builders F) max_packet_size 1)
        (length packet_payload)) [
          | err e ↦ panicked
          | panicked ↦ panicked
          | ok (buffer, pool) ↦ ok (
              MsgOut.send_packet
                (finish F (Send.new F 0 1 3_000_000_200 packet_payload buffer) 3_000_000_200))
        ]

-- `same` is the equality of tables that is generated from the schema.
module _ {codec : Codec} (enc : Encoder codec) (F : Flatbuffers)
    {root : List ℕ → Option ToTansivMsg} (out : Sender root)
    (same : ToTansivMsg → ToTansivMsg → Bool) where
  -- `size_prefixed_root` of the finished data
  abbrev pub read_back : SendPacket F → Option ToTansivMsg
  read_back p = root (out.body (table p.frame))

  -- The comparison of the packets; `none` is a panic of `unwrap`.
  abbrev pub compare : Option ToTansivMsg → Option ToTansivMsg → Result TestError (Unit {0})
  compare none r = panicked
  compare (some l) none = panicked
  compare (some l) (some r) = check_eq same l r differents

  abbrev pub judge : SendPacket F → MsgOut F → Result TestError (Unit {0})
  judge expected (MsgOut.send_packet actual) = compare (read_back expected) (read_back actual)
  judge expected MsgOut.at_deadline = check from_io_error wrong_message (err invalid_data)

  abbrev pub expected_packet : MsgOut F → Result TestError (SendPacket F)
  expected_packet (MsgOut.send_packet p) = ok p
  expected_packet MsgOut.at_deadline = check from_io_error wrong_crafter (err invalid_data)

  abbrev pub verdict : Result TestError (MsgOut F) → MsgOut F → Result TestError (Unit {0})
  verdict (err e) actual = err e
  verdict panicked actual = panicked
  verdict (ok m) actual = elim (expected_packet m) [
    | err e ↦ err e
    | panicked ↦ panicked
    | ok p ↦ judge p actual
  ]

  unfoldable pub send_send_packet_actor : TestActor enc F root → Done enc F root
  unfolding recv make_ref_send_packet check_eq from_io_error
  send_send_packet_actor a =
      let (msg, a₁) = recv enc F root a in
      elim msg [
        | err e ↦ (err e, a₁)
        | panicked ↦ (panicked, a₁)
        | ok m ↦ (verdict (make_ref_send_packet F) m, discard enc F root m a₁)
      ]
