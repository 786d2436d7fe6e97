-- ===== src/TestActor/Hearing.antt =====
-- The client at a deadline and the actor together (lib.rs, connector/mod.rs): the actor hears the
-- messages that the client sends.
use tansiv.Base.{ℕ, ◌≡◌, refl, ap, ◌∙◌, true, Option, List, [], ◌∷◌, ◌++◌, All, ok}
use mathlib.Core.List.{append_assoc}
use tansiv.BufferPool.Builders.{Flatbuffers}
use tansiv.OutputMsgSet.Listing.{pending, IsSettled}
use tansiv.InputQueue.{ArrayQueue}
use tansiv.Connector.{Codec, Handle}
use tansiv.Connector.Send.{Frame, MsgOut, frame_of}
use tansiv.Connector.Wire.{Encoder}
use tansiv.Connector.Wire.Actor.{ToTansivMsg}
use tansiv.Connector.Wire.Frames.{Sender, frame_bytes, stream}
use tansiv.Connector.Wire.Frames.Received.{frame_of-rebuilt, rebuilt}
use tansiv.Timer.Interface.{Timer}
use tansiv.Context.{Context, send_phase}
use tansiv.Context.Deadline.{sent, frames, stamp, due, send_phase-Sent}
use tansiv.TestActor.{TestActor, recv, discard}
use tansiv.TestActor.Turns.{Ready, recv-read}
use tansiv.TestActor.Scripts.{Readable}

module _ {codec : Codec} (enc : Encoder codec) (F : Flatbuffers)
    {root : List ℕ → Option ToTansivMsg} (out : Sender root) where
  abbrev Actor : Type 0
  Actor = TestActor enc F root

  -- Calls of `recv`, each message dropped when it has been looked at, give these messages.
  pub data Hears : Actor → List Frame → Actor → Type 0 where
    nothing : {a : Actor} → Hears a [] a
    hears :
        {a a' b : Actor} {m : MsgOut F} {f : Frame} {fs : List Frame}
        → recv enc F root a ≡ (ok m, a')
        → frame_of F m ≡ f
        → Hears (discard enc F root m a') fs b
        → Hears a (f ∷ fs) b

  -- The actor has heard the messages, has the rest left to read, and can go on.
  pub record Heard (fs : List Frame) (rest : List ℕ) (a : Actor) : Type 0 where
    pub after : Actor
    pub run : Hears a fs after
    pub left : after.client.bytes ≡ rest
    pub ready : Ready enc F out after

  discard-client : (m : MsgOut F) (a : Actor) → (discard enc F root m a).client ≡ a.client
  discard-client MsgOut.at_deadline a = refl
  discard-client (MsgOut.send_packet p) a = refl

  stream-Heard :
      (fs : List Frame) (rest : List ℕ) (a : Actor)
      → All (Readable enc F out) fs
      → Ready enc F out a
      → a.client.bytes ≡ stream enc out fs ++ rest
      → Heard fs rest a
  stream-Heard [] rest a h r s = record { after = a; run = nothing; left = s; ready = r }
  stream-Heard (f ∷ fs) rest a (h, hs) r s =
      let (fb, a', e, r', _, b) =
        recv-read enc F out f (stream enc out fs ++ rest) a h.fits h.small
          (s ∙ append_assoc (frame_bytes enc out f) (stream enc out fs) rest) r in
      let more =
        stream-Heard fs rest (discard enc F root (rebuilt enc F out f fb) a') hs r'
          (ap (λ c. c.bytes) (discard-client (rebuilt enc F out f fb) a') ∙ b) in
      record {
        after = more.after;
        run = hears e (frame_of-rebuilt enc F out f fb h.fits) more.run;
        left = more.left;
        ready = more.ready;
      }

  module _ (aq : ArrayQueue Handle) (tm : Timer) where
    abbrev Ctx : Type 0
    Ctx = Context codec F aq tm

    -- What the client sends at a deadline: the messages of the slice, the upcoming messages that are due,
    -- and the end of the slice.
    abbrev pub slice : ℕ → ℕ → Ctx → List Frame
    slice previous current c =
        frames codec F aq tm (stamp codec F aq tm previous) (pending c.outgoing_messages)
        ++ (frames codec F aq tm (λ m. m.send_time) (due codec F aq tm current c.upcoming_messages)
            ++ Frame.at_deadline ∷ [])

    -- From the application to the actor: when the sending part of a deadline succeeds, from a settled set
    -- of messages, it has written the messages of the slice in slot order, the upcoming messages up to the
    -- first that is not due, and the end of the slice; and an actor whose stream starts with them hears
    -- exactly these, in this order, and has the rest of its stream left. The messages have fields in range
    -- and fit in a buffer, and no buffer of the actor is in use.
    pub send_phase-Heard :
        (previous current : ℕ) (c : Ctx) (rest : List ℕ) (a : Actor)
        → IsSettled c.outgoing_messages
        → (send_phase codec F aq tm previous current c).0 ≡ true
        → All (Readable enc F out) (slice previous current c)
        → Ready enc F out a
        → a.client.bytes ≡ stream enc out (slice previous current c) ++ rest
        → (sent codec F aq tm (send_phase codec F aq tm previous current c).1
            ≡ sent codec F aq tm c ++ slice previous current c)
          × Heard (slice previous current c) rest a
    send_phase-Heard previous current c rest a v h readable r s = (
      (send_phase-Sent codec F aq tm previous current c v h).written,
      stream-Heard (slice previous current c) rest a readable r s,
    )
