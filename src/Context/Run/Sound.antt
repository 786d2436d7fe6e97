-- ===== src/Context/Run/Sound.antt =====
-- No buffer of a context is lost (lib.rs): what every operation keeps.
use tansiv.Base.{
  ℕ, ◌≡◌, refl, Bool-cases, Option-cases, inl, inr, List, [], ◌∷◌, arith, Result, ok, err, panicked,
}
use tansiv.Error.{IoError}
use tansiv.BufferPool.Builders.{Flatbuffers}
use tansiv.InputQueue.{ArrayQueue, pop}
use tansiv.Connector.{Codec, Handle}
use tansiv.Timer.Interface.{Timer}
use tansiv.Context.{Context, send_phase, receive_phase, at_deadline}
use tansiv.Context.Application
use tansiv.Context.Application.{deserialize}
use tansiv.Context.Receiving.{receive_phase-Receives}
use tansiv.Context.Run.{Op, step, run, starts, reaches_deadline, sends, receives}
use tansiv.Context.Run.InputSteps.{Input, receive_phase-Input, recv-Input, start-Input}
use tansiv.Context.Run.OutputSteps.{Output, send_phase-Sends}
use tansiv.Context.Run.OutputSends.{send-Sends}

module _ (codec : Codec) (F : Flatbuffers) (aq : ArrayQueue Handle) (tm : Timer) where
  abbrev Ctx : Type 0
  Ctx = Context codec F aq tm

  -- Both pools of the context account for each of their busy buffers.
  pub record Sound (c : Ctx) : Type 0 where
    pub output : Output codec F aq tm c
    pub input : Input codec F aq tm c

  -- The part of a context that is for sending stays as it is.
  pub record SameOutput (c c' : Ctx) : Type 0 where
    pub outgoing : c'.outgoing_messages ≡ c.outgoing_messages
    pub upcoming : c'.upcoming_messages ≡ c.upcoming_messages
    pub pool : c'.output_buffer_pool ≡ c.output_buffer_pool

  Output-SameOutput :
      (c c' : Ctx) → SameOutput c c' → Output codec F aq tm c → Output codec F aq tm c'
  Output-SameOutput c c' s o = record {
    settled = rw s.outgoing o.settled;
    owned = record {
      account = rw (s.outgoing, s.upcoming, s.pool) o.owned.account;
      size = rw (s.outgoing, s.pool) o.owned.size;
    };
  }

  pub recv-SameOutput :
      (c : Ctx) (capacity : ℕ) → SameOutput c (Application.recv codec F aq tm c capacity).1
  unfolding Application.recv
  recv-SameOutput c capacity = elim (Option-cases (pop aq c.input_queue)) [
    | inl p ↦ rw (Application.recv, p) (record { outgoing = refl; upcoming = refl; pool = refl })
    | inr ((d, q), p) ↦ elim (Option-cases (deserialize codec c.input_buffer_pool d)) [
      | inl f ↦
          rw (Application.recv, p, f) (record { outgoing = refl; upcoming = refl; pool = refl })
      | inr (packet, f) ↦
          rw (Application.recv, p, f) (record { outgoing = refl; upcoming = refl; pool = refl })
    ]
  ]

  pub start-SameOutput : (c : Ctx) → SameOutput c (Application.start codec F aq tm c).1
  unfolding Application.start
  start-SameOutput c = record {
    outgoing = ground arith;
    upcoming = ground arith;
    pool = ground arith;
  }

  -- A deadline: what is sent, and then what is received unless sending has failed.
  slice-Sound :
      (previous current : ℕ) (c : Ctx)
      → Sound c
      → let sent = (send_phase codec F aq tm previous current c).1 in
        Sound sent × Sound (receive_phase codec F aq tm sent).1
  slice-Sound previous current c v =
      let s = send_phase-Sends codec F aq tm previous current c v.output in
      let c₁ = (send_phase codec F aq tm previous current c).1 in
      let i : Input codec F aq tm c₁ = rw (s.input_pool, s.queue) v.input in
      let r = receive_phase-Receives codec F aq tm c₁ in
      (
        record { output = s.output; input = i },
        record {
          output =
              Output-SameOutput c₁ _
                (record { outgoing = r.outgoing; upcoming = r.upcoming; pool = r.output_pool })
                s.output;
          input = receive_phase-Input codec F aq tm c₁ i;
        },
      )

  at_deadline-Sound : (c : Ctx) → Sound c → Sound (at_deadline codec F aq tm c).1
  unfolding at_deadline
  at_deadline-Sound c v =
      go (tm.simulation_previous_deadline c.timer_context) refl
        (tm.simulation_next_deadline c.timer_context) refl
    where
      go :
          (p : Result IoError ℕ)
          → tm.simulation_previous_deadline c.timer_context ≡ p
          → (q : Result IoError ℕ) → tm.simulation_next_deadline c.timer_context ≡ q
          → Sound (at_deadline codec F aq tm c).1
      go (err e) f q g = rw (at_deadline, f) v
      go panicked f q g = rw (at_deadline, f) v
      go (ok previous) f (err e) g = rw (at_deadline, f, g) v
      go (ok previous) f panicked g = rw (at_deadline, f, g) v
      go (ok previous) f (ok current) g =
          let (sent, received) = slice-Sound previous current c v in
          elim (Bool-cases (send_phase codec F aq tm previous current c).0) [
            | inl on ↦ rw (at_deadline, f, g, on) received
            | inr stop ↦ rw (at_deadline, f, g, stop) sent
          ]

  pub step-Sound : (c : Ctx) (o : Op) → Sound c → Sound (step codec F aq tm c o)
  step-Sound c starts v = record {
    output = Output-SameOutput c _ (start-SameOutput c) v.output;
    input = start-Input codec F aq tm c v.input;
  }
  step-Sound c reaches_deadline v = at_deadline-Sound c v
  step-Sound c (sends dst msg) v =
      let s = send-Sends codec F aq tm c dst msg v.output in
      record { output = s.output; input = rw (s.input_pool, s.queue) v.input }
  step-Sound c (receives capacity) v = record {
    output = Output-SameOutput c _ (recv-SameOutput c capacity) v.output;
    input = recv-Input codec F aq tm c capacity v.input;
  }

  pub run-Sound_lem : (c : Ctx) (os : List Op) → Sound c → Sound (run codec F aq tm c os)
  run-Sound_lem c [] v = v
  run-Sound_lem c (o ∷ os) v = run-Sound_lem (step codec F aq tm c o) os (step-Sound c o v)
