-- ===== src/Connector/Wire/Frames.antt =====
-- The messages of the client as bytes (connector/mod.rs): what `finish_size_prefixed` gives of a
-- `ToTansivMsg`. The builder's bytes are the parameter `Sender`.
pub mod Received
use tansiv.Base.{
  All, ℕ, ◌<◌, ◌^◌, ◌≡◌, Option, none, some, List, [], ◌∷◌, ◌++◌, length, arith, length-append, ◌≤◌,
}
use tansiv.Duration.{nanos_per_sec}
use tansiv.Connector.{Codec, max_packet_size, PacketMeta, Time}
use tansiv.Connector.Send.{Frame}
use tansiv.Connector.Wire.{Encoder}
use tansiv.Connector.Wire.Actor.{SendTable, ToTansivMsg}

-- The fields are of the widths that the schema gives them.
abbrev pub TableInRange : SendTable → Type 0
TableInRange t =
    elim t.metadata [ none ↦ Unit {0} | some m ↦ (m.src < 2 ^ 32) × (m.dst < 2 ^ 32) ]
    × elim t.time [ none ↦ Unit {0} | some t ↦ (t.seconds < 2 ^ 64) × (t.nseconds < 2 ^ 64) ]
    × elim t.payload [ none ↦ Unit {0} | some p ↦ All (λ b. b < 256) p ]

abbrev pub ToInRange : ToTansivMsg → Type 0
ToInRange ToTansivMsg.at_deadline = Unit
ToInRange (ToTansivMsg.send_packet none) = Unit
ToInRange (ToTansivMsg.send_packet (some t)) = TableInRange t
ToInRange ToTansivMsg.unknown = Unit

-- The verifier accepts the bytes that are finished of a message as that message.
pub record Sender (root : List ℕ → Option ToTansivMsg) : Type 0 where
  pub body : ToTansivMsg → List ℕ
  pub root-body : (m : ToTansivMsg) → ToInRange m → root (body m) ≡ some m

-- A packet with addresses of 32 bits, a time below 2^64 seconds, and bytes for a payload.
abbrev pub FrameFits : Frame → Type 0
FrameFits Frame.at_deadline = Unit
FrameFits (Frame.send_packet src dst seconds nseconds payload) =
    (src < 2 ^ 32)
    × (dst < 2 ^ 32)
    × (seconds < 2 ^ 64)
    × (nseconds < nanos_per_sec)
    × All (λ b. b < 256) payload

-- The table of a message, every field of which is there.
abbrev pub table : Frame → ToTansivMsg
table Frame.at_deadline = ToTansivMsg.at_deadline
table (Frame.send_packet src dst seconds nseconds payload) = ToTansivMsg.send_packet (
    some (record {
      metadata = some (record { src = src; dst = dst });
      time = some (record { seconds = seconds; nseconds = nseconds });
      payload = some payload;
    }))

module _ {codec : Codec} (enc : Encoder codec) {root : List ℕ → Option ToTansivMsg}
    (out : Sender root) where
  -- `create_at_deadline` and `create_send_packet_from_payload`
  unfoldable pub frame_bytes : Frame → List ℕ
  frame_bytes f = enc.prefix (length (out.body (table f))) ++ out.body (table f)

  -- The stream of a list of messages.
  abbrev pub stream : List Frame → List ℕ
  stream [] = []
  stream (f ∷ fs) = frame_bytes f ++ stream fs

  -- A message takes the four bytes of its size, at least.
  pub length-frame_bytes : (f : Frame) → 4 ≤ length (frame_bytes f)
  unfolding frame_bytes
  length-frame_bytes f = omega (
    arith,
    length-append (enc.prefix (length (out.body (table f)))) (out.body (table f)),
    enc.length-prefix (length (out.body (table f))),
  )
