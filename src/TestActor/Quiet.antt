-- ===== src/TestActor/Quiet.antt =====
-- What a client writes in a slice in which it sends no packet (lib.rs, `at_deadline`), and the stream up
-- to the first packet.
use tansiv.Base.{All, replicate, ℕ, zero, suc, ◌≡◌, refl, ap, ◌∙◌, sym, Option, List, [], ◌∷◌, ◌++◌}
use mathlib.Core.List.{append_assoc, append-nil}
use tansiv.BufferPool.Builders.{Flatbuffers}
use tansiv.InputQueue.{ArrayQueue}
use tansiv.Connector.{Codec, Handle}
use tansiv.Connector.Send.{Frame}
use tansiv.Connector.Wire.{Encoder}
use tansiv.Connector.Wire.Actor.{ToTansivMsg}
use tansiv.Connector.Wire.Frames.{Sender, frame_bytes, stream}
use tansiv.Timer.Interface.{Timer}
use tansiv.Context.{OutputMsg}
use tansiv.Context.Deadline.{frames}

module _ {codec : Codec} (enc : Encoder codec) (F : Flatbuffers)
    {root : List ℕ → Option ToTansivMsg} (out : Sender root) (aq : ArrayQueue Handle)
    (tm : Timer) where
  -- No packet is among the messages.
  abbrev pub Quiet : List Frame → Type 0
  Quiet fs = All (λ f. f ≡ Frame.at_deadline) fs

  Quiet-append : (fs gs : List Frame) → Quiet (fs ++ gs) → Quiet fs × Quiet gs
  Quiet-append [] gs q = (tt, q)
  Quiet-append (f ∷ fs) gs q = let (p, r) = Quiet-append fs gs q.1 in ((q.0, p), r)

  Quiet-frames :
      (time : OutputMsg codec F aq tm → ℕ) (ms : List (OutputMsg codec F aq tm))
      → Quiet (frames codec F aq tm time ms)
      → frames codec F aq tm time ms ≡ []
  Quiet-frames time [] q = refl
  Quiet-frames time (m ∷ ms) q = absurd (packet q.0)
    where
      packet :
          {src dst seconds nseconds : ℕ} {payload : List ℕ}
          → Frame.send_packet src dst seconds nseconds payload ≡ Frame.at_deadline
          → ⊥
      packet e = cc

  pub replicate-suc :
      (n : ℕ)
      → replicate n Frame.at_deadline ++ Frame.at_deadline ∷ []
        ≡ replicate (suc n) Frame.at_deadline
  replicate-suc zero = refl
  replicate-suc (suc n) = ap (λ l. Frame.at_deadline ∷ l) (replicate-suc n)

  -- A packet splits the stream of what is written.
  pub stream-first :
      (xs : List Frame) (p : Frame) (later : List Frame)
      → stream enc out (xs ++ p ∷ later) ≡ stream enc out (xs ++ p ∷ []) ++ stream enc out later
  stream-first [] p later =
      ap (λ l. l ++ stream enc out later) (sym (append-nil (frame_bytes enc out p)))
  stream-first (x ∷ xs) p later =
      ap (λ l. frame_bytes enc out x ++ l) (stream-first xs p later)
      ∙ sym (
          append_assoc (frame_bytes enc out x) (stream enc out (xs ++ p ∷ []))
            (stream enc out later))

  -- A slice without a packet is its end only.
  pub Quiet-slice :
      (before : List Frame) (time late : OutputMsg codec F aq tm → ℕ)
      (ms ns : List (OutputMsg codec F aq tm))
      → Quiet (
          before
          ++ (frames codec F aq tm time ms
              ++ (frames codec F aq tm late ns ++ Frame.at_deadline ∷ [])))
      → Quiet before
        × (before
              ++ (frames codec F aq tm time ms
                  ++ (frames codec F aq tm late ns ++ Frame.at_deadline ∷ []))
            ≡ before ++ Frame.at_deadline ∷ [])
  Quiet-slice before time late ms ns q =
      let (p, r) = Quiet-append before _ q in
      let (x, y) = Quiet-append (frames codec F aq tm time ms) _ r in
      let (z, _) = Quiet-append (frames codec F aq tm late ns) _ y in
      (
        p,
        ap (λ l. before ++ (l ++ (frames codec F aq tm late ns ++ Frame.at_deadline ∷ [])))
              (Quiet-frames time ms x)
            ∙ ap (λ l. before ++ (l ++ Frame.at_deadline ∷ [])) (Quiet-frames late ns z),
      )
