-- ===== src/CApi/Lifetime/Protocol.antt =====
-- Calls in the order that the source asks for never use memory that was freed, under Qemu
-- (capi/src/lib.rs, timer/qemu/mod.rs).
use tansiv.Base.{
  ◌+◌, ◌-◌, ◌≡◌, refl, ap, ◌∙◌, Bool, true, false, Option, some, arith, bit, Result, ok, err,
  panicked,
}
use tansiv.Base.Int.{ℤ}
use tansiv.Error.{Error}
use tansiv.BufferPool.Builders.{Flatbuffers}
use tansiv.OutputMsgSet.Listing.{IsSettled}
use tansiv.InputQueue.{ArrayQueue}
use tansiv.Connector.{Codec, Handle}
use tansiv.Timer.Interface.{qemu}
use tansiv.Timer.Qemu
use tansiv.Timer.Qemu.{Qemu}
use tansiv.Context.{
  Context, AfterDeadline, at_deadline, next_deadline, end_simulation, panic, out_of_fuel,
}
use tansiv.Context.Application.{start, send, recv, stop}
use tansiv.Context.Handlers.{qemu_handler, qemu_ends}
use tansiv.Context.Handlers.Timing.{at_deadline-Untimed}
use tansiv.Context.Run.{step-Settled, starts, sends, receives, reaches_deadline}
use tansiv.CApi.Lifetime.{Call, World, exec, made, vsg_cleanup, with_timer}
use tansiv.CApi.Lifetime.Counting.{qemu_counted}
use tansiv.CApi.Lifetime.Keeping.{send-refs, recv-refs, start-refs, started_with}

-- What the application may do with the pointer, which it has until it cleans up (`owned`): `start` is not
-- called again before `stop`, and `stop` not without a `start` that succeeded. The timer fires between
-- these (`armed`), also when the application has cleaned up.
abbrev pub Allowed : Bool → Bool → Call → Type 0
Allowed owned armed Call.starts = (owned ≡ true) × (armed ≡ false)
Allowed owned armed (Call.sends dst msg) = owned ≡ true
Allowed owned armed (Call.receives capacity) = owned ≡ true
Allowed owned armed (Call.stops loads fuel) = (owned ≡ true) × (armed ≡ true)
Allowed owned armed Call.cleans = owned ≡ true
Allowed owned armed Call.fires = armed ≡ true

abbrev pub owned_after : Bool → Call → Bool
owned_after owned Call.cleans = false
owned_after owned Call.starts = owned
owned_after owned (Call.sends dst msg) = owned
owned_after owned (Call.receives capacity) = owned
owned_after owned (Call.stops loads fuel) = owned
owned_after owned Call.fires = owned

abbrev pub succeeds : Result Error ℤ → Bool
succeeds (ok o) = true
succeeds (err e) = false
succeeds panicked = false

module _ (codec : Codec) (F : Flatbuffers) (aq : ArrayQueue Handle) (q : Qemu) (C : Type 0) where
  abbrev Ctx : Type 0
  Ctx = Context codec F aq (qemu q C)

  abbrev pub QemuWorld : Type 0
  QemuWorld = World codec F aq (qemu_counted q C)

  -- The calls where Qemu is the timer: it has a pointer to the timer context.
  abbrev pub calls : QemuWorld → Call → Option QemuWorld
  calls = exec codec F aq (qemu_counted q C) (λ c. (qemu_handler codec F aq q C c).1) true

  abbrev pub armed_after : QemuWorld → Bool → Call → Bool
  armed_after w armed Call.starts = succeeds (start codec F aq (qemu q C) w.context).0
  armed_after w armed (Call.stops loads fuel) = false
  armed_after w armed (Call.sends dst msg) = armed
  armed_after w armed (Call.receives capacity) = armed
  armed_after w armed Call.cleans = armed
  armed_after w armed Call.fires = armed

  -- The references are those of the owners: the pointer's to the context, the context's to its timer, and
  -- that of Qemu while the timer is armed.
  pub record Counts (w : QemuWorld) (owned armed : Bool) : Type 0 where
    pub strong : w.strong ≡ bit owned
    pub references : w.context.timer_context.0.references ≡ bit owned + bit armed
    pub settled : IsSettled w.context.outgoing_messages

  -- A call goes well, and leaves the references counted.
  abbrev pub Goes : QemuWorld → Bool → Bool → Call → Type 0
  Goes w owned armed call =
      (w' : QemuWorld) × (calls w call ≡ some w')
      × Counts w' (owned_after owned call) (armed_after w armed call)

  started_with-succeeds :
      (r : Result Error ℤ) → started_with codec F aq (qemu_counted q C) r ≡ bit (succeeds r)
  started_with-succeeds (ok o) = refl
  started_with-succeeds (err e) = refl
  started_with-succeeds panicked = refl

  qemu_ends_keeps :
      (after : AfterDeadline) (c : Ctx)
      → let c' = (qemu_ends codec F aq q C after c).1 in
        (c'.timer_context.0.references ≡ c.timer_context.0.references)
        × (c'.outgoing_messages ≡ c.outgoing_messages)
  unfolding Qemu.set_next_deadline
  qemu_ends_keeps (next_deadline d) c = ground arith
  qemu_ends_keeps end_simulation c = (refl, refl)
  qemu_ends_keeps panic c = (refl, refl)
  qemu_ends_keeps out_of_fuel c = (refl, refl)

  qemu_handler-refs :
      (c : Ctx)
      → IsSettled c.outgoing_messages
      → let c' = (qemu_handler codec F aq q C c).1 in
        (c'.timer_context.0.references ≡ c.timer_context.0.references)
        × IsSettled c'.outgoing_messages
  unfolding qemu_handler
  qemu_handler-refs c v =
      let r = at_deadline codec F aq (qemu q C) c in
      let (kept, same) = qemu_ends_keeps r.0 r.1 in
      (
        kept ∙ ap (λ t. t.0.references) (at_deadline-Untimed codec F aq (qemu q C) c v).timer,
        rw same (step-Settled codec F aq (qemu q C) c reaches_deadline v),
      )

  entered :
      {w : QemuWorld} {owned armed : Bool} (r : Option QemuWorld)
      → Counts w owned armed
      → owned ≡ true
      → with_timer codec F aq (qemu_counted q C) w r ≡ r
  entered r n o = ground (arith, n.strong, n.references)

  goes :
      (w : QemuWorld) (owned armed : Bool) (call : Call)
      → Counts w owned armed
      → Allowed owned armed call
      → Goes w owned armed call
  unfolding exec vsg_cleanup stop Qemu.stop
  goes w owned armed Call.starts n (o, a) = (
    record w { context = (start codec F aq (qemu q C) w.context).1 },
    entered _ n o,
    record {
      strong = n.strong;
      references = omega (
        arith,
        start-refs codec F aq (qemu_counted q C) w.context,
        started_with-succeeds (start codec F aq (qemu q C) w.context).0,
        n.references,
        ap bit a,
      );
      settled = step-Settled codec F aq (qemu q C) w.context starts n.settled;
    },
  )
  goes w owned armed (Call.sends dst msg) n o = (
    record w { context = (send codec F aq (qemu q C) w.context dst msg).1 },
    entered _ n o,
    record {
      strong = n.strong;
      references = send-refs codec F aq (qemu_counted q C) w.context dst msg ∙ n.references;
      settled = step-Settled codec F aq (qemu q C) w.context (sends dst msg) n.settled;
    },
  )
  goes w owned armed (Call.receives capacity) n o = (
    record w { context = (recv codec F aq (qemu q C) w.context capacity).1 },
    ground (arith, n.strong),
    record {
      strong = n.strong;
      references = recv-refs codec F aq (qemu_counted q C) w.context capacity ∙ n.references;
      settled = step-Settled codec F aq (qemu q C) w.context (receives capacity) n.settled;
    },
  )
  goes w owned armed (Call.stops loads fuel) n (o, a) =
      let (t, h) = Qemu.stop q w.context.timer_context.0 w.context.timer_context.1 in
      (
        record w { context = record w.context { timer_context = (t, h) } },
        entered _ n o,
        record {
          strong = n.strong;
          references = ground (arith, n.references);
          settled = n.settled;
        },
      )
  goes w owned armed Call.cleans n o =
      let t = w.context.timer_context in
      (
        record w {
          context = record w.context {
            timer_context = (record t.0 { references = t.0.references - 1 }, t.1);
          };
          strong = 0;
        },
        ground (arith, n.strong, n.references),
        record { strong = refl; references = ground (arith, n.references); settled = n.settled },
      )
  goes w true armed Call.fires n a =
      let (kept, v) = qemu_handler-refs w.context n.settled in
      (
        record w { context = (qemu_handler codec F aq q C w.context).1 },
        ground (arith, n.strong, n.references),
        record { strong = n.strong; references = kept ∙ n.references; settled = v },
      )
  goes w false armed Call.fires n a = (w, ground (arith, n.strong, n.references), n)

  -- The states that calls in this order lead to, from a context that `vsg_init` has made.
  pub data History : QemuWorld → Bool → Bool → Type 0 where
    initial :
        (c : Ctx)
        → c.timer_context.0.references ≡ 1
        → IsSettled c.outgoing_messages
        → History (made codec F aq (qemu_counted q C) c) true false
    after :
        {w w' : QemuWorld} {owned armed : Bool} (call : Call)
        → History w owned armed
        → Allowed owned armed call
        → calls w call ≡ some w'
        → History w' (owned_after owned call) (armed_after w armed call)

  History-Counts :
      {w : QemuWorld} {owned armed : Bool} → History w owned armed → Counts w owned armed
  History-Counts (initial c e v) = record { strong = refl; references = e; settled = v }
  History-Counts (after {w} {w'} {owned} {armed} call h a e) =
      let (v, f, n) = goes w owned armed call (History-Counts h) a in
      let same : v ≡ w' = cc in rw (← same) n

  -- Under Qemu, as long as `start` is not called again before `stop`, nor `stop` without a `start` that
  -- succeeded, no call between `vsg_init` and `vsg_cleanup` uses memory that was freed, and neither does
  -- the timer, which may fire until `stop`, even behind `vsg_cleanup`; and the references to the context
  -- and to its timer are as many as have been given out, so that with the last of them both are freed.
  pub History-safe :
      {w : QemuWorld} {owned armed : Bool}
      → History w owned armed
      → (w.strong ≡ bit owned)
        × (w.context.timer_context.0.references ≡ bit owned + bit armed)
        × ((call : Call) → Allowed owned armed call → (w' : QemuWorld) × (calls w call ≡ some w'))
  History-safe {w} {owned} {armed} h =
      let n = History-Counts h in
      (n.strong, n.references, λ call a. let (w', e, _) = goes w owned armed call n a in (w', e))
