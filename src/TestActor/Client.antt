-- ===== src/TestActor/Client.antt =====
-- The client as the actor meets it (lib.rs): it starts, sends and handles deadlines, and is told what the
-- actor has given it.
use tansiv.Base.{
  ℕ, zero, suc, ◌+◌, ◌*◌, ◌≤◌, ◌<◌, ◌≡◌, refl, ap, ◌∙◌, sym, true, false, Option, List, [], ◌∷◌,
  ◌++◌, arith,
}
use mathlib.Core.List.{append_assoc}
use tansiv.Duration.{duration_limit}
use tansiv.BufferPool.Builders.{Flatbuffers}
use tansiv.InputQueue.{ArrayQueue}
use tansiv.Connector.{Codec, Handle}
use tansiv.Connector.Wire.{Encoder, create_end_simulation}
use tansiv.Connector.Wire.Actor.{ToTansivMsg}
use tansiv.Connector.Wire.Frames.{Sender}
use tansiv.Connector.Wire.RoundTrip.{deadline, written}
use tansiv.Timer.Interface.{Timer}
use tansiv.Context.{Context, next_deadline, send_phase, receive_phase}
use tansiv.Context.Application.{start, send}
use tansiv.Context.Run.SameInput.{SameInput, send-SameInput, send_phase-SameInput}
use tansiv.Context.Run.Waiting.{Waits, Waits-SameInput, receive_phase-deadline, start-deadline}
use tansiv.TestActor.Notifiers.{marks, marks-suc}
use tansiv.TestActor.Scripts.{deadlines}

module _ {codec : Codec} (enc : Encoder codec) (F : Flatbuffers)
    {root : List ℕ → Option ToTansivMsg} (out : Sender root) (aq : ArrayQueue Handle)
    (tm : Timer) where
  abbrev Ctx : Type 0
  Ctx = Context codec F aq tm

  -- A client that has started and has handled some deadlines. In between the application sends, and
  -- the timer may do what it does.
  pub data Session (c₀ : Ctx) : ℕ → Ctx → Type 0 where
    started : Session c₀ 0 (start codec F aq tm c₀).1
    sends :
        {n : ℕ} {c : Ctx} (dst : ℕ) (msg : List ℕ)
        → Session c₀ n c
        → Session c₀ n (send codec F aq tm c dst msg).1
    resumes :
        {n : ℕ} {c : Ctx} (t : tm.T)
        → Session c₀ n c
        → Session c₀ n (record c { timer_context = t })
    reaches :
        {n : ℕ} {c : Ctx} (previous current : ℕ)
        → Session c₀ n c
        → (send_phase codec F aq tm previous current c).0 ≡ true
        → Session c₀
            (suc n)
            (receive_phase codec F aq tm (send_phase codec F aq tm previous current c).1).1

  -- The client has `j` deadlines to read, and the end.
  abbrev pub script : ℕ → ℕ → List ℕ
  script j d = deadlines enc F out j d ++ create_end_simulation enc

  script-suc :
      (j d : ℕ) → script (suc j) d ≡ written enc (deadline (d + 100_000)) ++ script j (d + 100_000)
  script-suc j d =
      append_assoc (written enc (deadline (d + 100_000))) (deadlines enc F out j (d + 100_000))
        (create_end_simulation enc)

  pub record At (j n : ℕ) (c : Ctx) : Type 0 where
    pub waits : Waits enc F aq tm c
    pub left : c.reader.bytes ≡ script j (suc n * 100_000)
    pub calls : c.deadline_calls ≡ marks (suc n) 0

  pub At-SameInput : {j n : ℕ} {c c' : Ctx} → SameInput codec F aq tm c c' → At j n c → At j n c'
  At-SameInput s h = record {
    waits = Waits-SameInput enc F aq tm s h.waits;
    left = ap (λ x. x.0.bytes) s ∙ h.left;
    calls = ap (λ x. x.3) s ∙ h.calls;
  }

  -- The next deadline is read.
  next_turn :
      (j n : ℕ) (c : Ctx)
      → suc (suc n) * 100_000 < duration_limit
      → At (suc j) n c
      → ((receive_phase codec F aq tm c).0 ≡ next_deadline (suc (suc n) * 100_000))
        × At j (suc n) (receive_phase codec F aq tm c).1
  next_turn j n c small h =
      let d = suc (suc n) * 100_000 in
      let e : suc n * 100_000 + 100_000 ≡ d = omega arith in
      let front : c.reader.bytes ≡ written enc (deadline d) ++ script j d =
        h.left
        ∙ script-suc j (suc n * 100_000)
        ∙ ap (λ x. written enc (deadline x) ++ script j x) e in
      let (after, t) = receive_phase-deadline enc F aq tm c d (script j d) h.waits small front in
      (
        after,
        record {
          waits = t.waits;
          left = t.left;
          calls = t.calls ∙ ap (λ l. l ++ d ∷ []) h.calls ∙ sym (marks-suc (suc n) 0 (omega arith));
        },
      )

  module _ (k : ℕ) (c₀ : Ctx) (fresh : c₀.started ≡ false) (w : Waits enc F aq tm c₀)
      (none_yet : c₀.deadline_calls ≡ []) (s : c₀.reader.bytes ≡ script (suc k) 0)
      (small : suc k * 100_000 < duration_limit) where
    start-At : At k 0 (start codec F aq tm c₀).1
    start-At =
        let t =
          start-deadline enc F aq tm c₀ 100_000 (script k 100_000) fresh w (omega arith)
            (s ∙ script-suc k 0) in
        record {
          waits = t.waits;
          left = t.left;
          calls = t.calls ∙ ap (λ l. l ++ 100_000 ∷ []) none_yet;
        }

    Session-At : {n : ℕ} {c : Ctx} → Session c₀ n c → n ≤ k → (j : ℕ) × (j + n ≡ k) × At j n c
    Session-At started le = (k, omega arith, start-At)
    Session-At (sends {n} {c} dst msg h) le =
        let (j, e, a) = Session-At h le in
        (j, e, At-SameInput (send-SameInput codec F aq tm c dst msg) a)
    Session-At (resumes t h) le = let (j, e, a) = Session-At h le in (j, e, At-SameInput refl a)
    Session-At (reaches {n} {c} previous current h go) le =
        let (j, e, a) = Session-At h (omega arith) in
        step j e (At-SameInput (send_phase-SameInput codec F aq tm previous current c) a)
      where
        c' : Ctx
        c' = (send_phase codec F aq tm previous current c).1

        step :
            (j : ℕ)
            → j + n ≡ k
            → At j n c'
            → (i : ℕ) × (i + suc n ≡ k) × At i (suc n) (receive_phase codec F aq tm c').1
        step zero e a = absurd (omega arith)
        step (suc j) e a = (j, omega arith, (next_turn j n c' (omega arith) a).1)

    -- The last deadline that the script gives has been read, and the end is next.
    pub Session-last : {c : Ctx} → Session c₀ k c → At 0 k c
    Session-last h =
        let (j, e, a) = Session-At h (omega arith) in
        let none_left : j ≡ 0 = omega (arith, e) in rw (← none_left) a
