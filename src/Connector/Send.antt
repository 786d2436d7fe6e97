-- ===== src/Connector/Send.antt =====
-- The messages that go to the actor, and how they are written (connector/mod.rs, connector/unix.rs).
-- The contents of a flatbuffers builder are known by the payload stored in it and, once it is
-- finished, by the frame that it stands for.
use tansiv.Base.{ℕ, ◌+◌, Option, none, some, List, [], ◌∷◌, ◌++◌, Result, ok, err}
use tansiv.Duration.{as_secs, subsec_nanos}
use tansiv.Error.{IoError}
use tansiv.BufferPool.{Buffer}
use tansiv.BufferPool.Builders.{Flatbuffers, builders}

-- A `ToTansivMsg` on the wire.
pub data Frame : Type 0 where
  at_deadline : Frame
  send_packet : (src dst seconds nseconds : ℕ) → List ℕ → Frame

-- The stream to the peer: what was written, and how the write of each attempt ends.
pub record Writer : Type 0 where
  pub outcome : ℕ → Option IoError
  pub attempts : ℕ
  pub sent : List Frame

module _ (F : Flatbuffers) where
  pub record SendPacketBuilder : Type 0 where
    pub src : ℕ
    pub dst : ℕ
    pub send_time : ℕ
    pub payload : List ℕ
    pub buffer : Buffer (builders F)

  pub record SendPacket : Type 0 where
    pub frame : Frame
    pub inner : Buffer (builders F)

  pub data MsgOut : Type 0 where
    at_deadline : MsgOut
    send_packet : SendPacket → MsgOut

  unfoldable pub new : ℕ → ℕ → ℕ → List ℕ → Buffer (builders F) → SendPacketBuilder
  new src dst send_time payload buffer = record {
    src = src;
    dst = dst;
    send_time = send_time;
    payload = payload;
    buffer = buffer;
  }

  unfoldable pub finish : SendPacketBuilder → ℕ → SendPacket
  finish m send_time = record {
    frame = Frame.send_packet m.src m.dst (as_secs send_time) (subsec_nanos send_time) m.payload;
    inner = m.buffer;
  }

  abbrev pub frame_of : MsgOut → Frame
  frame_of at_deadline = Frame.at_deadline
  frame_of (send_packet p) = p.frame

  -- `write_all` of the finished data
  unfoldable pub send : MsgOut → Writer → Result IoError (Unit {0}) × Writer
  send msg w = elim (w.outcome w.attempts) [
    | none ↦ (ok tt, record w { attempts = w.attempts + 1; sent = w.sent ++ frame_of msg ∷ [] })
    | some e ↦ (err e, record w { attempts = w.attempts + 1 })
  ]
