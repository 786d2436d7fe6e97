-- ===== src/TestActor/Sessions.antt =====
-- A test of the client and the actor (lib.rs, `send`): the client starts, and sends; the actor gives it
-- deadlines until it has a message; a notifier follows the deadlines.
use tansiv.Base.{
  replicate, ℕ, suc, ◌+◌, ◌*◌, ◌<◌, ◌≡◌, refl, ap, ◌∙◌, sym, true, false, Option, none, some, List,
  [], ◌∷◌, ◌++◌, arith, ok,
}
use mathlib.Core.List.{append-nil}
use tansiv.Duration.{duration_limit}
use tansiv.BufferPool.Builders.{Flatbuffers}
use tansiv.InputQueue.{ArrayQueue}
use tansiv.Connector.{Codec, Handle}
use tansiv.Connector.Send.{Frame}
use tansiv.Connector.Wire.{Encoder, create_end_simulation}
use tansiv.Connector.Wire.Actor.{ToTansivMsg}
use tansiv.Connector.Wire.Frames.{Sender, stream}
use tansiv.Timer.Interface.{Timer}
use tansiv.Context.{Context, OutputMsg, end_simulation, send_phase, receive_phase}
use tansiv.Context.Application.{start}
use tansiv.OutputMsgSet.Listing.{IsSettled, pending}
use tansiv.Context.Deadline.{sent, due, frame_at, frames, stamp, send_phase-Sent}
use tansiv.Context.Receiving.{receive_phase-Receives}
use tansiv.Context.Run.{Op, step-Settled}
use tansiv.Context.Run.SameInput.{send_writer, send_phase-SameInput}
use tansiv.Context.Run.Waiting.{Waits, receive_phase-end}
use tansiv.TestActor.{TestActor, Done, recv_one_msg_actor}
use tansiv.TestActor.Notifiers.{new, notified, marks, notified-marks}
use tansiv.TestActor.Quiet.{Quiet, Quiet-slice, replicate-suc, stream-first}
use tansiv.TestActor.Scripts.{Readable, recv_one_msg_actor-written}
use tansiv.TestActor.Turns.{Ready}
use tansiv.TestActor.Client.{
  Session, started, sends, resumes, reaches, script, At, At-SameInput, Session-last,
}

module _ {codec : Codec} (enc : Encoder codec) (F : Flatbuffers)
    {root : List ℕ → Option ToTansivMsg} (out : Sender root) (aq : ArrayQueue Handle)
    (tm : Timer) where
  abbrev Ctx : Type 0
  Ctx = Context codec F aq tm

  start_writer : (c : Ctx) → (start codec F aq tm c).1.writer ≡ c.writer
  unfolding start
  start_writer c = ground arith

  -- What the client has written while no packet was to be sent.
  module _ (c₀ : Ctx) (v : IsSettled c₀.outgoing_messages)
      (unwritten : sent codec F aq tm c₀ ≡ []) where
    Session-IsSettled :
        {n : ℕ} {c : Ctx} → Session enc F out aq tm c₀ n c → IsSettled c.outgoing_messages
    Session-IsSettled started = step-Settled codec F aq tm c₀ Op.starts v
    Session-IsSettled (sends {n} {c} dst msg h) =
        step-Settled codec F aq tm c (Op.sends dst msg) (Session-IsSettled h)
    Session-IsSettled (resumes t h) = Session-IsSettled h
    Session-IsSettled (reaches {n} {c} previous current h go) =
        let w = (send_phase codec F aq tm previous current c).1 in
        rw (receive_phase-Receives codec F aq tm w).outgoing
          (send_phase-Sent codec F aq tm previous current c (Session-IsSettled h) go).settled

    written_so_far :
        {n : ℕ} {c : Ctx}
        → Session enc F out aq tm c₀ n c
        → Quiet enc F out aq tm (sent codec F aq tm c)
        → sent codec F aq tm c ≡ replicate n Frame.at_deadline
    written_so_far started q = ap (λ w. w.sent) (start_writer c₀) ∙ unwritten
    written_so_far (sends {n} {c} dst msg h) q =
        let same = ap (λ w. w.sent) (send_writer codec F aq tm c dst msg) in
        same ∙ written_so_far h (rw (← same) q)
    written_so_far (resumes t h) q = written_so_far h q
    written_so_far (reaches {n} {c} previous current h go) q =
        let w = (send_phase codec F aq tm previous current c).1 in
        let wrote =
          ap (λ x. x.sent) (receive_phase-Receives codec F aq tm w).writer
          ∙ (send_phase-Sent codec F aq tm previous current c (Session-IsSettled h) go).written in
        let (before, empty) =
          Quiet-slice enc F out aq tm (sent codec F aq tm c) (stamp codec F aq tm previous)
            (λ m. m.send_time) (pending c.outgoing_messages)
            (due codec F aq tm current c.upcoming_messages) (rw (← wrote) q) in
        wrote
        ∙ empty
        ∙ ap (λ l. l ++ Frame.at_deadline ∷ []) (written_so_far h before)
        ∙ replicate-suc enc F out aq tm n

  -- What the actor has written when its script is over.
  abbrev pub given : Option (Done enc F root) → List ℕ
  given none = []
  given (some r) = r.1.written

  -- The client and the actor that receives one message, each of which reads what the other has written.
  -- The client starts, and handles `k` deadlines, whatever its timer does, with no packet sent; at the
  -- next, a message waits, and it writes its packet, whatever may follow. Then the actor, which reads
  -- exactly what the client has written by then, succeeds; and the client, which reads exactly what the
  -- actor has written, has been told `k + 1` deadlines, one behind the other, 100 microseconds apart: its
  -- notifier was called as often, the last time with as many slices, as the test asserts. What the client
  -- receives behind its packet is the end of the simulation. The context that starts is fresh: its set of
  -- messages is settled, and it has written nothing and called nobody; the actor has written nothing
  -- before; the sending part of each deadline succeeds. The messages have fields in range and fit in a
  -- buffer of the actor, the actor's messages fit in one of the client's, each has a buffer free, the
  -- actor's writes succeed, and the last deadline is in the range of a duration.
  pub Session-notified :
      (k : ℕ) (c₀ : Ctx) {c : Ctx} (previous current : ℕ) (m : OutputMsg codec F aq tm)
      (ms : List (OutputMsg codec F aq tm)) (a : TestActor enc F root)
      → c₀.started ≡ false
      → Waits enc F aq tm c₀
      → c₀.deadline_calls ≡ []
      → IsSettled c₀.outgoing_messages
      → sent codec F aq tm c₀ ≡ []
      → Session enc F out aq tm c₀ k c
      → Quiet enc F out aq tm (sent codec F aq tm c)
      → pending c.outgoing_messages ≡ m ∷ ms
      → let (go, w) = send_phase codec F aq tm previous current c in
        go ≡ true
        → Readable enc F out Frame.at_deadline
        → Readable enc F out (frame_at codec F aq tm m (stamp codec F aq tm previous m))
        → Ready enc F out a
        → a.written ≡ []
        → a.client.bytes ≡ stream enc out (sent codec F aq tm w)
        → c₀.reader.bytes ≡ given (recv_one_msg_actor enc F root a)
        → suc k * 100_000 < duration_limit
        → let notifier = notified new c.deadline_calls in
          ((a' : TestActor enc F root) × (recv_one_msg_actor enc F root a ≡ some (ok tt, a')))
          × (c.deadline_calls ≡ marks (suc k) 0)
          × (notifier.num_called ≡ k + 1)
          × (notifier.deadline ≡ notifier.num_called * 100_000)
          × ((receive_phase codec F aq tm w).0 ≡ end_simulation)
  unfolding new
  Session-notified k c₀ {c} previous current m ms a fresh waits no_calls v unwritten session quiet
        waiting go h p r none_yet heard reads small =
      let w = (send_phase codec F aq tm previous current c).1 in
      let settled = Session-IsSettled c₀ v unwritten session in
      let first = frame_at codec F aq tm m (stamp codec F aq tm previous m) in
      let wrote = (send_phase-Sent codec F aq tm previous current c settled go).written in
      let late =
        frames codec F aq tm (λ m. m.send_time) (due codec F aq tm current c.upcoming_messages)
        ++ Frame.at_deadline ∷ [] in
      let later = frames codec F aq tm (stamp codec F aq tm previous) ms ++ late in
      let whole =
        wrote
        ∙ ap
            (λ l.
              l
              ++ (frames codec F aq tm (stamp codec F aq tm previous) (pending c.outgoing_messages)
                  ++ late))
            (written_so_far c₀ v unwritten session quiet)
        ∙ ap
            (λ l.
              replicate k Frame.at_deadline
              ++ (frames codec F aq tm (stamp codec F aq tm previous) l ++ late))
            waiting in
      let (a', run, given_all, _) =
        recv_one_msg_actor-written enc F out m.src m.dst _ _ m.payload k _ a h p r (
          heard
          ∙ ap (stream enc out) whole
          ∙ stream-first enc F out aq tm (replicate k Frame.at_deadline) first later) in
      let front : c₀.reader.bytes ≡ script enc F out aq tm (suc k) 0 =
        reads
        ∙ ap given run
        ∙ given_all
        ∙ ap (λ l. l ++ script enc F out aq tm (suc k) 0) none_yet in
      let at_end = Session-last enc F out aq tm k c₀ fresh waits no_calls front small session in
      let (count, last) = notified-marks (suc k) 0 new refl in
      let called = ap (λ l. (notified new l).num_called) at_end.calls ∙ count in
      let then_end : At enc F out aq tm 0 k w =
        At-SameInput enc F out aq tm (send_phase-SameInput codec F aq tm previous current c)
          at_end in
      (
        (a', run),
        at_end.calls,
        called ∙ omega arith,
        ap (λ l. (notified new l).deadline) at_end.calls ∙ last ∙ omega (arith, called),
        receive_phase-end enc F aq tm w [] then_end.waits
            (then_end.left ∙ sym (append-nil (create_end_simulation enc))),
      )
