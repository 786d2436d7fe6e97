-- ===== src/Connector.antt =====
-- connector/mod.rs and connector/unix.rs: messages to and from the actor over a stream. The
-- flatbuffers crate and the code that it generates from src/wire/packets.fbs are the parameter
-- `Codec`: how bytes are read as the schema's tables.
pub mod Recv
pub mod Stream
pub mod Wire
pub mod Send
use tansiv.Base.{
  ℕ, suc, ◌+◌, ◌-◌, ◌*◌, ◌≡◌, ◌^◌, Bool, true, false, ◌&&◌, Option, none, some, List, [], ◌∷◌, ◌++◌,
  ltb, leb, if◌then◌else◌, is_some, length, take, drop, Result, ok, err, panicked,
}
use tansiv.Duration
use tansiv.Duration.{as_secs, subsec_nanos, nanos_per_sec}
use tansiv.Error.{IoError, invalid_data, other, PoolError, no_buffer_available, size_too_big}
use tansiv.BufferPool.{BufferPool, Buffer, allocate_buffer, deref, deref_mut}
use tansiv.BufferPool
use tansiv.BufferPool.Bytes.{bytes}

-- `MAX_PACKET_SIZE`
abbrev pub max_packet_size : ℕ
max_packet_size = 2048

-- The tables of the schema, whose fields may be absent.
pub record Time : Type 0 where
  pub seconds : ℕ
  pub nseconds : ℕ

pub record PacketMeta : Type 0 where
  pub src : ℕ
  pub dst : ℕ

pub record DeliverTable : Type 0 where
  pub metadata : Option PacketMeta
  pub payload : Option (List ℕ)

pub record GotoTable : Type 0 where
  pub time : Option Time

-- The content of a `FromTansivMsg`, by its type: `content_as_…` may be absent where the type is given.
pub data FromTansivMsg : Type 0 where
  deliver_packet : Option DeliverTable → FromTansivMsg
  goto_deadline : Option GotoTable → FromTansivMsg
  end_simulation : FromTansivMsg
  unknown : FromTansivMsg

-- `root` reads a message from bytes, `none` where the verifier refuses them; `read_scalar` reads the
-- four bytes of a size.
pub record Codec : Type 0 where
  pub root : List ℕ → Option FromTansivMsg
  pub read_scalar : List ℕ → ℕ

-- The bytes that the peer has sent until it closes the stream or fails, and the error that a read meets
-- behind the last of them. They are finitely many. A peer that stays silent, on which the read of a
-- socket blocks, and one that never stops, are not represented.
pub record Reader : Type 0 where
  pub bytes : List ℕ
  pub at_end : IoError

-- A read that meets the end takes what there is.
unfoldable pub read_exact : Reader → ℕ → Result IoError (List ℕ) × Reader
read_exact r n =
    if leb n (length r.bytes)
    then (ok (take n r.bytes), record r { bytes = drop n r.bytes })
    else (err r.at_end, record r { bytes = [] })

abbrev pub Pool : Type 0
Pool = BufferPool bytes

abbrev pub Handle : Type 0
Handle = Buffer bytes

pub data MsgIn : Type 0 where
  deliver_packet : Handle → MsgIn
  goto_deadline : ℕ → MsgIn
  end_simulation : MsgIn

-- The crate's `allocate_buffer`, with errors of `io`.
unfoldable pub allocate : Pool → ℕ → Result IoError (Handle × Pool)
allocate pool size = elim (allocate_buffer bytes pool size) [
  | ok r ↦ ok r
  | err e ↦ elim e [ size_too_big ↦ err invalid_data | no_buffer_available ↦ err other ]
  | panicked ↦ panicked
]

-- The deadline of a time whose nanoseconds are in bounds.
unfoldable pub goto_of : Time → Result IoError ℕ
goto_of time =
    if ltb time.nseconds (2 ^ 32) && ltb time.nseconds nanos_per_sec
    then (elim (Duration.new time.seconds time.nseconds) [ some d ↦ ok d | none ↦ panicked ])
    else err invalid_data

module _ (codec : Codec) where
  unfoldable pub read_prefixed_size : Reader → Result IoError ℕ × Reader
  unfolding read_exact
  read_prefixed_size r =
      let (scratch, r') = read_exact r 4 in
      (elim scratch [ ok b ↦ ok (codec.read_scalar b) | err e ↦ err e | panicked ↦ panicked ], r')

  -- `new_deliver_packet`, of the table found in the buffer: every field must be there.
  unfoldable pub new_deliver_packet : Option DeliverTable → Handle → Result IoError MsgIn
  new_deliver_packet none buffer = err invalid_data
  new_deliver_packet (some d) buffer =
      if is_some d.metadata && is_some d.payload
      then ok (MsgIn.deliver_packet buffer)
      else err invalid_data

  unfoldable pub new_goto_deadline : Option GotoTable → Result IoError MsgIn
  unfolding goto_of
  new_goto_deadline none = err invalid_data
  new_goto_deadline (some g) = elim g.time [
    | none ↦ err invalid_data
    | some time ↦ elim (goto_of time) [
      | ok d ↦ ok (MsgIn.goto_deadline d)
      | err e ↦ err e
      | panicked ↦ panicked
    ]
  ]

  -- The message in a filled buffer.
  unfoldable pub decode : List ℕ → Handle → Result IoError MsgIn
  unfolding new_deliver_packet new_goto_deadline
  decode content buffer = elim (codec.root content) [
    | none ↦ err invalid_data
    | some msg ↦ elim msg [
      | deliver_packet d ↦ new_deliver_packet d buffer
      | goto_deadline g ↦ new_goto_deadline g
      | end_simulation ↦ ok MsgIn.end_simulation
      | unknown ↦ err invalid_data
    ]
  ]

  -- The buffer goes with a packet that is delivered; in any other case it is dropped.
  abbrev pub release : Result IoError MsgIn → Handle → Pool → Pool
  release (ok (MsgIn.deliver_packet b)) buffer pool = pool
  release (ok (MsgIn.goto_deadline d)) buffer pool = BufferPool.drop bytes pool buffer
  release (ok MsgIn.end_simulation) buffer pool = BufferPool.drop bytes pool buffer
  release (err e) buffer pool = BufferPool.drop bytes pool buffer
  release panicked buffer pool = BufferPool.drop bytes pool buffer

  -- `MsgIn::recv` with the size read and the buffer allocated. After a read that fails the contents
  -- of the buffer are not specified, and it is dropped at once.
  unfoldable pub recv_into : ℕ → Handle → Reader → Pool → Result IoError MsgIn × Reader × Pool
  unfolding read_exact decode
  recv_into size buffer r pool =
      let (content, r') = read_exact r size in
      elim content [
        | ok b ↦
            let filled = deref_mut bytes pool buffer b in
            let msg = decode (deref bytes filled buffer) buffer in
            (msg, r', release msg buffer filled)
        | err e ↦ (err e, r', BufferPool.drop bytes pool buffer)
        | panicked ↦ (panicked, r', BufferPool.drop bytes pool buffer)
      ]

  -- `MsgIn::recv`
  unfoldable pub recv : Reader → Pool → Result IoError MsgIn × Reader × Pool
  unfolding read_prefixed_size allocate recv_into
  recv r pool =
      let (size, r') = read_prefixed_size r in
      elim size [
        | err e ↦ (err e, r', pool)
        | panicked ↦ (panicked, r', pool)
        | ok n ↦ elim (allocate pool n) [
          | err e ↦ (err e, r', pool)
          | panicked ↦ (panicked, r', pool)
          | ok (buffer, pool') ↦ recv_into n buffer r' pool'
        ]
      ]
