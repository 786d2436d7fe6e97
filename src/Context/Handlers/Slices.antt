-- ===== src/Context/Handlers/Slices.antt =====
-- What a deadline does to the timer of a KVM machine (timer/qemukvm/mod.rs): the slice that the kernel
-- module is told is the time from the deadline before to the one that the application has been told.
use tansiv.Base.{
  ℕ, ◌+◌, ◌%◌, ◌^◌, ◌≤◌, ◌≡◌, refl, ap, ◌∙◌, Option, [], ◌∷◌, ◌++◌, arith, Result, ok, err,
  panicked,
}
use tansiv.Base.Int.{ℤ}
use tansiv.Error.{IoError}
use tansiv.BufferPool.Builders.{Flatbuffers}
use tansiv.OutputMsgSet.Listing.{IsSettled}
use tansiv.InputQueue.{ArrayQueue}
use tansiv.Connector.{Codec, Handle}
use tansiv.Timer.Kvm.{Float, Device, TimerContextInner, slice_length, set_next_deadline}
use tansiv.Context.Receiving.{announced}
use tansiv.Timer.Interface.{kvm}
use tansiv.Context.{
  Context, AfterDeadline, at_deadline, next_deadline, end_simulation, panic, out_of_fuel,
}
use tansiv.Context.Handlers.{kvm_handler, kvm_ends}
use tansiv.Context.Handlers.Timing.{at_deadline-Untimed}

module _ (codec : Codec) (F : Flatbuffers) (aq : ArrayQueue Handle) (fl : Float) (dev : Device)
    (tsc_khz : Option ℤ) where
  abbrev KvmCtx : Type 0
  KvmCtx = Context codec F aq (kvm fl dev tsc_khz)

  -- The slice from the deadline of `c` to the one that is announced, modulo the width of the answer.
  pub record NextSlice (c : KvmCtx) (deadline slice : ℕ) (c' : KvmCtx) : Type 0 where
    pub told : c'.deadline_calls ≡ c.deadline_calls ++ deadline ∷ []
    pub prev : c'.timer_context.0.prev_deadline ≡ c.timer_context.0.next_deadline
    pub next : c'.timer_context.0.next_deadline ≡ deadline
    pub ordered : c.timer_context.0.next_deadline ≤ deadline
    pub answer : (c.timer_context.0.next_deadline + slice) % 2 ^ 64 ≡ deadline % 2 ^ 64

  set_next_deadline_ok :
      (t : TimerContextInner fl) (deadline : ℕ) (k : dev.State) (t' : TimerContextInner fl)
      → (set_next_deadline fl dev t deadline k).0 ≡ ok t'
      → (t'.prev_deadline ≡ t.next_deadline)
        × (t'.next_deadline ≡ deadline)
        × (t.next_deadline ≤ deadline)
        × ((t.next_deadline + slice_length fl t') % 2 ^ 64 ≡ deadline % 2 ^ 64)
  unfolding set_next_deadline slice_length
  set_next_deadline_ok t deadline k t' e = (ground arith, ground arith, ground arith, ground arith)

  kvm_ends_lem :
      (c c' : KvmCtx) (after : AfterDeadline) (slice : ℕ)
      → c'.timer_context.0.next_deadline ≡ c.timer_context.0.next_deadline
      → c'.deadline_calls ≡ c.deadline_calls ++ announced codec F aq (kvm fl dev tsc_khz) after
      → (kvm_ends codec F aq fl dev tsc_khz after c').0 ≡ ok slice
      → (deadline : ℕ) × NextSlice c deadline slice (kvm_ends codec F aq fl dev tsc_khz after c').1
  kvm_ends_lem c c' (next_deadline d) slice e u h =
      go (set_next_deadline fl dev c'.timer_context.0 d c'.timer_context.1).0 refl
    where
      go :
          (r : Result IoError (TimerContextInner fl))
          → (set_next_deadline fl dev c'.timer_context.0 d c'.timer_context.1).0 ≡ r
          → (deadline : ℕ) × NextSlice c deadline slice
              (kvm_ends codec F aq fl dev tsc_khz (next_deadline d) c').1
      go (ok t) p =
          let (a, b, le, l) = set_next_deadline_ok c'.timer_context.0 d c'.timer_context.1 t p in
          let given : slice_length fl t ≡ slice = cc (rw (kvm_ends, p) at h) in
          (
            d,
            rw (kvm_ends, p)
                (record {
                  told = u;
                  prev = a ∙ e;
                  next = b;
                  ordered = rw (← e) le;
                  answer = rw (← e, ← given) l;
                }),
          )
      go (err x) p = cc (rw (kvm_ends, p) at h)
      go panicked p = cc (rw (kvm_ends, p) at h)
  kvm_ends_lem c c' end_simulation slice e u h = cc
  kvm_ends_lem c c' panic slice e u h = cc
  kvm_ends_lem c c' out_of_fuel slice e u h = cc

  -- When the handler under KVM returns, from a settled set of messages, the actor has set a deadline,
  -- not before the one that was reached: the application has been told it, it is the next deadline, the
  -- one that was reached is the previous one, and the answer is the time between them modulo 2^64.
  pub kvm_handler_lem :
      (guest_tsc slice : ℕ) (c : KvmCtx)
      → IsSettled c.outgoing_messages
      → (kvm_handler codec F aq fl dev tsc_khz guest_tsc c).0 ≡ ok slice
      → (deadline : ℕ) × NextSlice c deadline slice
          (kvm_handler codec F aq fl dev tsc_khz guest_tsc c).1
  unfolding kvm_handler
  kvm_handler_lem guest_tsc slice c v h =
      let f : KvmCtx = record c {
        timer_context = (record c.timer_context.0 { guest_tsc = guest_tsc }, c.timer_context.1);
      } in
      let u = at_deadline-Untimed codec F aq (kvm fl dev tsc_khz) f v in
      kvm_ends_lem c (at_deadline codec F aq (kvm fl dev tsc_khz) f).1 _ slice
        (ap (λ x. x.0.next_deadline) u.timer) u.told h
