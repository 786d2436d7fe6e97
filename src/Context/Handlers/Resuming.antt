-- ===== src/Context/Handlers/Resuming.antt =====
-- What a deadline does to the timer of a process (timer/process.rs): simulated time goes on, or stops.
use tansiv.Base.{
  ℕ, ◌-◌, ◌≤◌, ◌≡◌, refl, ap, ◌∙◌, sym, true, some, [], ◌∷◌, ◌++◌, ◌⊎◌, inl, inr, arith, Result, ok,
  err, panicked,
}
use mathlib.Core.List.{append-nil}
use tansiv.Base.Int.{ℤ, pos, ◌-ℤ◌}
use tansiv.Error.{IoError}
use tansiv.BufferPool.Builders.{Flatbuffers}
use tansiv.OutputMsgSet.Listing.{IsSettled}
use tansiv.InputQueue.{ArrayQueue}
use tansiv.Connector.{Codec, Handle}
use tansiv.LibcTimer.{Sys, gettime}
use tansiv.Timer.Process.{
  TimerContext, clock, freeze_time, thawed, thaw_time_to_deadline, application_now,
}
use tansiv.Timer.Process.Laws.{Thawed, thawed-some}
use tansiv.Timer.Interface.{process}
use tansiv.Context.{Context, AfterDeadline, next_deadline, end_simulation, panic, out_of_fuel}
use tansiv.Context.Handlers.{process_handler, process_ends}
use tansiv.Context.Handlers.Timing.{Untimed, at_deadline-Untimed}

module _ (sys : Sys) (local_now : sys.Kernel → ℤ × sys.Kernel) where
  -- Time goes on to a new deadline: the freeze was at the reading `n` of the clock, the thaw at `m`.
  pub record Resumed (c t : TimerContext sys) (deadline n m : ℕ) : Type 0 where
    pub thawed : Thawed sys local_now c t deadline m
    pub after : n ≤ m
    pub offset : t.simulation_time.offset ≡ c.simulation_time.offset -ℤ pos (m - n)

  -- The freeze sets nothing that is resumed.
  Resumed-frozen :
      (c f t : TimerContext sys) (date : ℤ) (deadline n m : ℕ)
      → f ≡ record c { current_deadline = date; at_deadline = true }
      → Resumed f t deadline n m
      → Resumed c t deadline n m
  Resumed-frozen c f t date deadline n m e r =
      let g : Resumed (record c { current_deadline = date; at_deadline = true }) t deadline n m =
        rw (sym e) r in
      record {
        thawed = record {
          ordered = g.thawed.ordered;
          prev = g.thawed.prev;
          next = g.thawed.next;
          raw = g.thawed.raw;
          flows = g.thawed.flows;
        };
        after = g.after;
        offset = g.offset;
      }

  abbrev ThawOk : TimerContext sys → ℕ → ℕ → sys.Kernel → Type 0
  ThawOk c n deadline k =
      (m : ℕ) × ((gettime sys clock k).0 ≡ ok m)
      × Resumed c (thaw_time_to_deadline sys local_now c (some n) deadline k).1 deadline n m

  thaw_time_to_deadline_ok :
      (c : TimerContext sys) (n deadline : ℕ) (k : sys.Kernel)
      → (thaw_time_to_deadline sys local_now c (some n) deadline k).0 ≡ ok tt
      → ThawOk c n deadline k
  unfolding thaw_time_to_deadline
  thaw_time_to_deadline_ok c n deadline k h = reading (gettime sys clock k).0 refl
    where
      k₁ : sys.Kernel
      k₁ = (gettime sys clock k).1

      thaw :
          (m : ℕ)
          → (gettime sys clock k).0 ≡ ok m
          → (r : Result IoError (TimerContext sys))
          → (thawed sys local_now c (some n) deadline m k₁).0 ≡ r
          → ThawOk c n deadline k
      thaw m e (ok t) f =
          let (v, le, off, _) =
            thawed-some sys local_now c n deadline m k₁ _
              (ap (λ x. (x, (thawed sys local_now c (some n) deadline m k₁).1)) f) in
          (m, e, rw (thaw_time_to_deadline, e, f) (record { thawed = v; after = le; offset = off }))
      thaw m e (err x) f = cc (rw (thaw_time_to_deadline, e, f) at h)
      thaw m e panicked f = cc (rw (thaw_time_to_deadline, e, f) at h)

      reading : (r : Result IoError ℕ) → (gettime sys clock k).0 ≡ r → ThawOk c n deadline k
      reading (ok m) e = thaw m e (thawed sys local_now c (some n) deadline m k₁).0 refl
      reading (err x) e = cc (rw (thaw_time_to_deadline, e) at h)
      reading panicked e = cc (rw (thaw_time_to_deadline, e) at h)

  module _ (codec : Codec) (F : Flatbuffers) (aq : ArrayQueue Handle) where
    abbrev Ctx : Type 0
    Ctx = Context codec F aq (process sys local_now)

    -- The clocks once time is frozen: `freeze_time` has read two of them.
    abbrev pub frozen_kernel : Ctx → sys.Kernel
    frozen_kernel c =
        (application_now sys local_now c.timer_context.0 (gettime sys clock c.timer_context.1).1).1

    -- After the handler has frozen time at the reading `n`: it goes on to the deadline that the
    -- application has been told, or it stays frozen and the timer is stopped.
    abbrev pub Handled : Ctx → ℕ → Ctx → Type 0
    Handled c n c' =
        ((deadline m : ℕ) × ((gettime sys clock (frozen_kernel c)).0 ≡ ok m)
          × Resumed c.timer_context.0 c'.timer_context.0 deadline n m
          × (c'.deadline_calls ≡ c.deadline_calls ++ deadline ∷ []))
        ⊎ ((c'.timer_context.0.stopped ≡ true)
            × (c'.timer_context.0.at_deadline ≡ true)
            × (c'.deadline_calls ≡ c.deadline_calls))

    frozen_ok :
        (t : TimerContext sys) (k : sys.Kernel) (n : ℕ)
        → (freeze_time sys local_now t k).0 ≡ ok n
        → ((gettime sys clock k).0 ≡ ok n)
          × ((freeze_time sys local_now t k).1 ≡ record t {
            current_deadline = (application_now sys local_now t (gettime sys clock k).1).0;
            at_deadline = true;
          })
          × ((freeze_time sys local_now t k).2
              ≡ (application_now sys local_now t (gettime sys clock k).1).1)
    unfolding freeze_time
    frozen_ok t k n h = (ground arith, ground arith, ground arith)

    -- What follows the slice, in the context `c'` whose timer is still the frozen one.
    process_ends_lem :
        (c f c' : Ctx) (n : ℕ) (date : ℤ) (after : AfterDeadline)
        → f.timer_context.0
          ≡ record c.timer_context.0 { current_deadline = date; at_deadline = true }
        → f.deadline_calls ≡ c.deadline_calls
        → f.timer_context.1 ≡ frozen_kernel c
        → Untimed codec F aq (process sys local_now) f (after, c')
        → (process_ends codec F aq sys local_now n after c').0 ≡ ok tt
        → Handled c n (process_ends codec F aq sys local_now n after c').1
    process_ends_lem c f c' n date (next_deadline d) e l k u h = resumed done refl
      where
        done : Result IoError (Unit {0})
        done =
            (thaw_time_to_deadline sys local_now c'.timer_context.0 (some n) d c'.timer_context.1).0

        resumed :
            (r : Result IoError (Unit {0}))
            → done ≡ r
            → Handled c n (process_ends codec F aq sys local_now n (next_deadline d) c').1
        resumed (ok x) p =
            let (m, reading, r) =
              thaw_time_to_deadline_ok c'.timer_context.0 n d c'.timer_context.1 p in
            inl (
              d,
              m,
              ap (λ x. (gettime sys clock x).0) (sym k ∙ sym (ap (λ x. x.1) u.timer)) ∙ reading,
              Resumed-frozen c.timer_context.0 c'.timer_context.0 _ date d n m
                  (ap (λ x. x.0) u.timer ∙ e) r,
              u.told ∙ ap (λ x. x ++ d ∷ []) l,
            )
        resumed (err x) p = cc (rw (process_ends, p) at h)
        resumed panicked p = cc (rw (process_ends, p) at h)
    process_ends_lem c f c' n date end_simulation e l k u h = inr (
      refl,
      ap (λ x. x.0.at_deadline) u.timer ∙ ap (λ t. t.at_deadline) e,
      u.told ∙ append-nil f.deadline_calls ∙ l,
    )
    process_ends_lem c f c' n date panic e l k u h = cc
    process_ends_lem c f c' n date out_of_fuel e l k u h = cc

    -- Where the handler of a process returns, from a settled set of messages, it has frozen time at a
    -- reading `n` of the clock. If the actor has set a deadline, the application has been told it, it is
    -- the next one, and simulated time goes on at a reading `m`, moved back by the time spent frozen,
    -- `m - n`, where `m` is the next reading of the clock behind those of the freeze; if it has not, time
    -- stays frozen and the timer is stopped.
    pub process_handler_lem :
        (c : Ctx)
        → IsSettled c.outgoing_messages
        → (process_handler codec F aq sys local_now c).0 ≡ ok tt
        → (n : ℕ) × ((gettime sys clock c.timer_context.1).0 ≡ ok n)
          × Handled c n (process_handler codec F aq sys local_now c).1
    unfolding process_handler
    process_handler_lem c v h =
        frozen (freeze_time sys local_now c.timer_context.0 c.timer_context.1).0 refl
      where
        f : Ctx
        f = record c {
          timer_context = (
            (freeze_time sys local_now c.timer_context.0 c.timer_context.1).1,
            (freeze_time sys local_now c.timer_context.0 c.timer_context.1).2,
          );
        }

        frozen :
            (r : Result IoError ℕ)
            → (freeze_time sys local_now c.timer_context.0 c.timer_context.1).0 ≡ r
            → (n : ℕ) × ((gettime sys clock c.timer_context.1).0 ≡ ok n)
              × Handled c n (process_handler codec F aq sys local_now c).1
        frozen (ok n) e =
            let (reading, same, kernel) = frozen_ok c.timer_context.0 c.timer_context.1 n e in
            (
              n,
              reading,
              rw (process_handler, e)
                  (process_ends_lem c f _ n _ _ same refl kernel
                    (at_deadline-Untimed codec F aq (process sys local_now) f v)
                    (rw (process_handler, e) at h)),
            )
        frozen (err x) e = cc (rw (process_handler, e) at h)
        frozen panicked e = cc (rw (process_handler, e) at h)
