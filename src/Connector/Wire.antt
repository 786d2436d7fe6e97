-- ===== src/Connector/Wire.antt =====
-- The actor's side of the wire, as the source has it in its test helpers (connector/mod.rs): the
-- messages that `MsgIn::recv` receives, as bytes. What a flatbuffers builder finishes is the parameter
-- `Encoder`.
pub mod RoundTrip
pub mod Actor
pub mod Apart
pub mod Frames
pub mod Refused
use tansiv.Base.{
  All, ℕ, ◌+◌, ◌<◌, ◌^◌, ◌≡◌, Option, none, some, List, [], ◌∷◌, ◌++◌, length, Result, ok, err,
  panicked,
}
use tansiv.Duration.{as_secs, subsec_nanos}
use tansiv.Error.{IoError}
use tansiv.BufferPool
use tansiv.BufferPool.Bytes.{bytes}
use tansiv.BufferPool.{BufferPool, Buffer, allocate_buffer}
use tansiv.BufferPool.Builders.{Flatbuffers, builders}
use tansiv.Connector.{Codec, PacketMeta, Time, MsgIn, Pool, FromTansivMsg}
use tansiv.Context.Application.{deserialize}

-- The fields of a message are of the widths that the schema gives them.
abbrev pub MetaInRange : Option PacketMeta → Type 0
MetaInRange none = Unit
MetaInRange (some m) = (m.src < 2 ^ 32) × (m.dst < 2 ^ 32)

abbrev pub PayloadInRange : Option (List ℕ) → Type 0
PayloadInRange none = Unit
PayloadInRange (some p) = All (λ b. b < 256) p

abbrev pub TimeInRange : Option Time → Type 0
TimeInRange none = Unit
TimeInRange (some t) = (t.seconds < 2 ^ 64) × (t.nseconds < 2 ^ 64)

abbrev pub InRange : FromTansivMsg → Type 0
InRange (FromTansivMsg.deliver_packet none) = Unit
InRange (FromTansivMsg.deliver_packet (some d)) = MetaInRange d.metadata × PayloadInRange d.payload
InRange (FromTansivMsg.goto_deadline none) = Unit
InRange (FromTansivMsg.goto_deadline (some g)) = TimeInRange g.time
InRange FromTansivMsg.end_simulation = Unit
InRange FromTansivMsg.unknown = Unit

-- `finish` gives the bytes of a message, and `body` those that `finish_size_prefixed` puts behind the
-- four bytes of the size. The verifier accepts both as that message, where its fields are in range.
pub record Encoder (codec : Codec) : Type 0 where
  pub finish : FromTansivMsg → List ℕ
  pub body : FromTansivMsg → List ℕ
  pub prefix : ℕ → List ℕ
  pub root-finish : (m : FromTansivMsg) → InRange m → codec.root (finish m) ≡ some m
  pub root-body : (m : FromTansivMsg) → InRange m → codec.root (body m) ≡ some m
  pub length-prefix : (n : ℕ) → length (prefix n) ≡ 4
  pub read_scalar-prefix : (n : ℕ) → n < 2 ^ 32 → codec.read_scalar (prefix n) ≡ n

module _ {codec : Codec} (e : Encoder codec) where
  abbrev pub finish_size_prefixed : FromTansivMsg → List ℕ
  finish_size_prefixed m = e.prefix (length (e.body m)) ++ e.body m

  unfoldable pub create_end_simulation : List ℕ
  create_end_simulation = finish_size_prefixed FromTansivMsg.end_simulation

  unfoldable pub create_goto_deadline : ℕ → List ℕ
  create_goto_deadline deadline = finish_size_prefixed (
      FromTansivMsg.goto_deadline (
        some (record {
          time = some (record { seconds = as_secs deadline; nseconds = subsec_nanos deadline });
        })))

  abbrev pub prepare_deliver_packet : ℕ → ℕ → List ℕ → FromTansivMsg
  prepare_deliver_packet src dst payload =
      FromTansivMsg.deliver_packet (
        some (record { metadata = some (record { src = src; dst = dst }); payload = some payload }))

  unfoldable pub create_deliver_packet : ℕ → ℕ → List ℕ → List ℕ
  create_deliver_packet src dst payload =
      finish_size_prefixed (prepare_deliver_packet src dst payload)

  unfoldable pub create_deliver_packet_unprefixed : ℕ → ℕ → List ℕ → List ℕ
  create_deliver_packet_unprefixed src dst payload =
      e.finish (prepare_deliver_packet src dst payload)

  -- What is written of a message: a packet is read from its buffer, without a prefix, and written again
  -- with one.
  unfoldable pub bytes_in : Pool → MsgIn → Option (List ℕ)
  unfolding create_end_simulation create_goto_deadline create_deliver_packet
  bytes_in pool (MsgIn.goto_deadline deadline) = some (create_goto_deadline deadline)
  bytes_in pool MsgIn.end_simulation = some create_end_simulation
  bytes_in pool (MsgIn.deliver_packet d) = elim (deserialize codec pool d) [
    | none ↦ none
    | some p ↦ some (create_deliver_packet p.src p.dst p.payload)
  ]

  -- The message is dropped once it is sent, with its buffer.
  abbrev pub drop_in : Pool → MsgIn → Pool
  drop_in pool (MsgIn.goto_deadline deadline) = pool
  drop_in pool MsgIn.end_simulation = pool
  drop_in pool (MsgIn.deliver_packet d) = BufferPool.drop bytes pool d

  -- `MsgIn::send`, up to the write: the bytes, and the two pools afterwards.
  unfoldable pub send_in :
      (F : Flatbuffers)
      → Pool
      → BufferPool (builders F)
      → MsgIn
      → Result IoError (List ℕ) × Pool × BufferPool (builders F)
  unfolding bytes_in
  send_in F pool fb_buffer_pool msg =
      let dropped = drop_in pool msg in
      elim (allocate_buffer (builders F) fb_buffer_pool 1) [
        | err x ↦ (panicked, dropped, fb_buffer_pool)
        | panicked ↦ (panicked, dropped, fb_buffer_pool)
        | ok (fb_buffer, after) ↦ (
          elim (bytes_in pool msg) [ none ↦ panicked | some b ↦ ok b ],
          dropped,
          BufferPool.drop (builders F) after fb_buffer,
        )
      ]
