-- ===== src/Context/Run/Delivery.antt =====
-- What the actor writes at a deadline, and what the client has of it (lib.rs, connector/mod.rs).
pub mod Loop
pub mod Taking
use tansiv.Base.{
  ℕ, zero, suc, ◌+◌, ◌*◌, ◌≤◌, ◌<◌, ◌^◌, ◌≡◌, refl, ap, ◌∙◌, sym, true, Bool-cases, inl, inr,
  Option, none, some, List, [], ◌∷◌, ◌++◌, arith, length, length-append, All, Result, ok,
}
use mathlib.Core.List.{append_assoc, append-nil}
use tansiv.Duration.{duration_limit}
use tansiv.BufferPool.{deref}
use tansiv.BufferPool.Alloc.{busy_count}
use tansiv.BufferPool.Bytes.{bytes}
use tansiv.BufferPool.Accounts.{busy_count-Account}
use tansiv.BufferPool.Builders.{Flatbuffers}
use tansiv.InputQueue.{ArrayQueue}
use tansiv.Connector.{Codec, Handle, Pool, Reader, MsgIn, recv}
use tansiv.Connector.Wire.{Encoder}
use tansiv.Connector.Wire.Apart.{
  Held, SameShape, Unspoilt, Unspoilt-refl, Unspoilt-trans, recv-Unspoilt,
}
use tansiv.Connector.Wire.RoundTrip.{
  Fits, ActorMsg, packet, deadline, Room, Reads, written, body_of, recv-written, length-written,
}
use tansiv.Timer.Interface.{Timer}
use tansiv.Context.{
  Context, AfterDeadline, next_deadline, handle_actor_msg, recv_msg, recv_loop, receive_phase,
}
use tansiv.Context.Application.{Packet, deserialize}
use tansiv.Context.Receiving.{announce-announced, notify-calls_after, calls_after, announced}
use tansiv.Context.Run.Input.{Holds}
use tansiv.Context.Run.InputSteps.{Input, Arrived, recv_msg-Arrived, Pushed, deliver_packet-Pushed}

-- The buffer of a packet of the account is in use.
pub Holds-busy :
    {n : ℕ} {pool : Pool} {ds : List Handle} (d : Handle)
    → Holds n pool (d ∷ ds)
    → pool.buffer_busy d.index ≡ true
Holds-busy {pool = pool} d h = elim (Bool-cases (pool.buffer_busy d.index)) [
  | inl busy ↦ busy
  | inr idle ↦ absurd (ground (arith, h.account.owned d.index))
]

module _ (codec : Codec) where
  -- The buffers read as the packets, one by one.
  pub data Readable (pool : Pool) : List Handle → List Packet → Type 0 where
    nothing : Readable pool [] []
    reads :
        {h : Handle} {hs : List Handle} {p : Packet} {ps : List Packet}
        → deserialize codec pool h ≡ some p
        → Readable pool hs ps
        → Readable pool (h ∷ hs) (p ∷ ps)

module _ {codec : Codec} (enc : Encoder codec) where
  -- Packets, and a deadline behind them, as the actor writes them.
  abbrev pub stream : List Packet → ℕ → List ℕ
  stream [] d = written enc (deadline d)
  stream (p ∷ ps) d = written enc (packet p) ++ stream ps d

  -- A message in range, whose size fits in the four bytes in front of it and in a buffer.
  pub record Sendable (size : ℕ) (a : ActorMsg) : Type 0 where
    pub in_range : Fits a
    pub prefix : length (body_of enc a) < 2 ^ 32
    pub fits : length (body_of enc a) ≤ size

  -- A pool with room for packets and a deadline, beside the packets that wait.
  pub record Ready (pool : Pool) (waiting : List Handle) (ps : List Packet) (d : ℕ) : Type 0 where
    pub whole : pool.buffer_size * pool.num_buffers ≤ length pool.buffers
    pub packets : All (λ p. Sendable pool.buffer_size (packet p)) ps
    pub last : Sendable pool.buffer_size (deadline d)
    pub free : length waiting + length ps < pool.num_buffers

  module _ (F : Flatbuffers) (aq : ArrayQueue Handle) (tm : Timer) where
    abbrev Ctx : Type 0
    Ctx = Context codec F aq tm

    abbrev pub Enough : Ctx → List Packet → ℕ → Type 0
    Enough c ps d = Ready c.input_buffer_pool (aq.items c.input_queue) ps d

    pub record Delivered (ps : List Packet) (d : ℕ) (rest : List ℕ) (c : Ctx)
        (r : AfterDeadline × Ctx) : Type 0 where
      pub ended : r.0 ≡ next_deadline d
      pub packets :
          (hs : List Handle) × (aq.items r.1.input_queue ≡ aq.items c.input_queue ++ hs)
          × Readable codec r.1.input_buffer_pool hs ps
      pub left : r.1.reader.bytes ≡ rest
      pub unspoilt : Unspoilt c.input_buffer_pool r.1.input_buffer_pool

    pub Enough-Room :
        (c : Ctx) (ps : List Packet) (d : ℕ) (a : ActorMsg)
        → Input codec F aq tm c
        → Enough c ps d
        → Sendable c.input_buffer_pool.buffer_size a
        → Room c.input_buffer_pool (length (body_of enc a))
    Enough-Room c ps d a v e s = record {
      whole = e.whole;
      fits = s.fits;
      free = omega (arith, busy_count-Account bytes v.account, e.free);
    }

    pub Ready-next :
        (pool after : Pool) (waiting : List Handle) (b : Handle) (p : Packet) (ps : List Packet)
        (d : ℕ)
        → SameShape pool after
        → Ready pool waiting (p ∷ ps) d
        → Ready after (waiting ++ b ∷ []) ps d
    Ready-next pool after waiting b p ps d shape e = record {
      whole = rw (shape.buffer_size, shape.num_buffers, shape.buffers) e.whole;
      packets = rw shape.buffer_size e.packets.1;
      last = rw shape.buffer_size e.last;
      free = rw (shape.num_buffers, length-append waiting (b ∷ [])) (omega (arith, e.free));
    }

    pub length-stream : (ps : List Packet) (d : ℕ) → length ps ≤ length (stream ps d)
    length-stream [] d = omega arith
    length-stream (p ∷ ps) d = omega (
      arith,
      length-append (written enc (packet p)) (stream ps d),
      length-written enc (packet p),
      length-stream ps d,
    )
