-- ===== src/Connector/Wire/Actor.antt =====
-- How the actor of the source's test helpers receives the messages of the client (connector/mod.rs).
use tansiv.Base.{ℕ, Option, none, some, List, Result, ok, err, panicked}
use tansiv.Error.{IoError, invalid_data}
use tansiv.BufferPool
use tansiv.BufferPool.{BufferPool, Buffer, allocate_buffer, deref, deref_mut}
use tansiv.BufferPool.Bytes.{bytes}
use tansiv.BufferPool.Builders.{Flatbuffers, builders}
use tansiv.Connector.{
  Codec, Reader, Pool, Time, PacketMeta, read_prefixed_size, read_exact, allocate, goto_of,
}
use tansiv.Connector.Send
use tansiv.Connector.Send.{MsgOut, Frame, frame_of, finish}

pub record SendTable : Type 0 where
  pub metadata : Option PacketMeta
  pub time : Option Time
  pub payload : Option (List ℕ)

-- The content of a `ToTansivMsg`, by its type.
pub data ToTansivMsg : Type 0 where
  at_deadline : ToTansivMsg
  send_packet : Option SendTable → ToTansivMsg
  unknown : ToTansivMsg

module _ (codec : Codec) (F : Flatbuffers) (root : List ℕ → Option ToTansivMsg) where
  -- The packet is built again in a buffer of its own.
  unfoldable pub packet_out : SendTable → Buffer (builders F) → Result IoError (MsgOut F)
  unfolding Send.new finish goto_of
  packet_out table fb_buffer = elim table.time [
    | none ↦ err invalid_data
    | some time ↦ elim table.metadata [
      | none ↦ err invalid_data
      | some metadata ↦ elim (goto_of time) [
        | err e ↦ err e
        | panicked ↦ panicked
        | ok send_time ↦ elim table.payload [
          | none ↦ panicked
          | some payload ↦ ok (
              MsgOut.send_packet (
                finish F (Send.new F metadata.src metadata.dst send_time payload fb_buffer)
                  send_time))
        ]
      ]
    ]
  ]

  unfoldable pub content_out : ToTansivMsg → Buffer (builders F) → Result IoError (MsgOut F)
  unfolding packet_out
  content_out ToTansivMsg.at_deadline fb_buffer = ok MsgOut.at_deadline
  content_out (ToTansivMsg.send_packet none) fb_buffer = err invalid_data
  content_out (ToTansivMsg.send_packet (some table)) fb_buffer = packet_out table fb_buffer
  content_out ToTansivMsg.unknown fb_buffer = err invalid_data

  -- The buffer of the packet is kept with it; in any other case it is dropped.
  abbrev pub keep_builder :
      Result IoError (MsgOut F)
      → Buffer (builders F)
      → BufferPool (builders F)
      → BufferPool (builders F)
  keep_builder (ok (MsgOut.send_packet p)) fb_buffer pool = pool
  keep_builder (ok MsgOut.at_deadline) fb_buffer pool = BufferPool.drop (builders F) pool fb_buffer
  keep_builder (err e) fb_buffer pool = BufferPool.drop (builders F) pool fb_buffer
  keep_builder panicked fb_buffer pool = BufferPool.drop (builders F) pool fb_buffer

  abbrev pub State : Type 0
  State = Reader × Pool × BufferPool (builders F)

  -- The message in the bytes that were read, which must be one, and for which there must be a builder.
  unfoldable pub read_out :
      List ℕ → BufferPool (builders F) → Result IoError (MsgOut F) × BufferPool (builders F)
  unfolding content_out
  read_out content fb_pool = elim (root content) [
    | none ↦ (panicked, fb_pool)
    | some msg ↦ elim (allocate_buffer (builders F) fb_pool 0) [
      | err e ↦ (panicked, fb_pool)
      | panicked ↦ (panicked, fb_pool)
      | ok (fb_buffer, after) ↦
          let result = content_out msg fb_buffer in (result, keep_builder result fb_buffer after)
    ]
  ]

  -- `MsgOut::recv`
  unfoldable pub recv_out : State → Result IoError (MsgOut F) × State
  unfolding read_prefixed_size allocate read_exact read_out
  recv_out (r, pool, fb_pool) =
      let (size, r₁) = read_prefixed_size codec r in
      elim size [
        | err e ↦ (err e, (r₁, pool, fb_pool))
        | panicked ↦ (panicked, (r₁, pool, fb_pool))
        | ok n ↦ elim (allocate pool n) [
          | err e ↦ (err e, (r₁, pool, fb_pool))
          | panicked ↦ (panicked, (r₁, pool, fb_pool))
          | ok (buffer, pool₁) ↦
              let (content, r₂) = read_exact r₁ n in
              elim content [
                | err e ↦ (err e, (r₂, BufferPool.drop bytes pool₁ buffer, fb_pool))
                | panicked ↦ (panicked, (r₂, BufferPool.drop bytes pool₁ buffer, fb_pool))
                | ok b ↦
                    let filled = deref_mut bytes pool₁ buffer b in
                    let (result, fb_pool₁) = read_out (deref bytes filled buffer) fb_pool in
                    (result, (r₂, BufferPool.drop bytes filled buffer, fb_pool₁))
              ]
        ]
      ]
