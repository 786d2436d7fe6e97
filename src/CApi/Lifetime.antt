-- ===== src/CApi/Lifetime.antt =====
-- How long a context and its timer live: `vsg_init`, which gives the reference to a context away as a
-- pointer, `vsg_cleanup`, which takes it back (client/capi/src/lib.rs), and the references to the timer
-- of a virtual machine that `start` takes and `stop` drops (timer/qemu/mod.rs, timer/qemukvm/mod.rs).
pub mod Counting
pub mod Keeping
pub mod Protocol
pub mod Early
use tansiv.Base.{
  ℕ, ◌+◌, ◌-◌, ◌≡◌, Bool, true, false, ◌||◌, Option, none, some, List, ◌==◌, if◌then◌else◌, Result,
  ok, err, panicked,
}
use tansiv.Base.Int.{ℤ}
use tansiv.Error.{IoError}
use tansiv.BufferPool.Builders.{Flatbuffers}
use tansiv.InputQueue.{ArrayQueue}
use tansiv.Connector.{Codec, Handle}
use tansiv.Timer.Interface.{Timer}
use tansiv.Context.{Context}
use tansiv.Context.Application.{start, send, recv, stop}

-- A call of the C interface on the pointer that `vsg_init` gave, or the timer that fires.
pub data Call : Type 0 where
  starts cleans fires : Call
  sends : ℕ → List ℕ → Call
  receives : ℕ → Call
  stops : (ℕ → Bool) → ℕ → Call

-- How many references `start` has taken.
abbrev pub taken : ℕ → Result IoError ℤ → ℕ
taken takes (ok o) = takes
taken takes (err e) = 0
taken takes panicked = 0

-- A timer that counts the references to itself: `start` takes some, `stop` drops one, and so does the
-- drop of the context.
pub record Counted (tm : Timer) : Type 0 where
  pub references : tm.T → ℕ
  pub takes : ℕ
  pub drop_reference : tm.T → tm.T
  pub references-drop : (t : tm.T) → references (drop_reference t) ≡ references t - 1
  pub references-simulation_now : (t : tm.T) → references (tm.simulation_now t).1 ≡ references t
  pub references-start :
      (t : tm.T) (d : ℕ) → references (tm.start t d).1 ≡ references t + taken takes (tm.start t d).0
  pub stopped :
      (loads : ℕ → Bool) (fuel : ℕ) (t : tm.T)
      → (t' : tm.T) × (tm.stop loads fuel t ≡ some t') × (references t' ≡ references t - 1)

module _ (codec : Codec) (F : Flatbuffers) (aq : ArrayQueue Handle) {tm : Timer}
    (k : Counted tm) where
  abbrev pub Ctx : Type 0
  Ctx = Context codec F aq tm

  -- `strong` counts the references to the context, which is freed with the last of them; so is the timer.
  pub record World : Type 0 where
    pub context : Ctx
    pub strong : ℕ

  abbrev pub timer_references : World → ℕ
  timer_references w = k.references w.context.timer_context

  -- What `vsg_init` leaves of a context that it has made.
  abbrev pub made : Ctx → World
  made c = record { context = c; strong = 1 }

  -- The context is dropped, with its reference to the timer; that there is none is a double free.
  abbrev pub drop_context : World → Option World
  drop_context w =
      if timer_references w == 0
      then none
      else some (record w {
        context = record w.context { timer_context = k.drop_reference w.context.timer_context };
        strong = 0;
      })

  -- `vsg_cleanup`: nothing is done with a null pointer. `none` is a use of memory that was freed.
  unfoldable pub vsg_cleanup : Bool → World → Option World
  vsg_cleanup true w = some w
  vsg_cleanup false w =
      if w.strong == 0
      then none
      else if w.strong == 1
      then drop_context w
      else some (record w { strong = w.strong - 1 })

  -- A call that uses the timer of the context.
  abbrev pub with_timer : World → Option World → Option World
  with_timer w r = if w.strong == 0 || timer_references w == 0 then none else r

  -- `handler` is what the deadline handler does with a context. It is given a pointer to the timer, and
  -- does nothing if the context is gone (`by_timer`), or it is given one to the context.
  module _ (handler : Ctx → Ctx) (by_timer : Bool) where
    unfoldable pub exec : World → Call → Option World
    unfolding vsg_cleanup
    exec w starts = with_timer w (some (record w { context = (start codec F aq tm w.context).1 }))
    exec w (sends dst msg) =
        with_timer w (some (record w { context = (send codec F aq tm w.context dst msg).1 }))
    exec w (receives capacity) =
        if w.strong == 0
        then none
        else some (record w { context = (recv codec F aq tm w.context capacity).1 })
    exec w (stops loads fuel) = with_timer w (elim (stop codec F aq tm loads fuel w.context) [
      | none ↦ some w
      | some c ↦ some (record w { context = c })
    ])
    exec w cleans = vsg_cleanup false w
    exec w fires =
        if timer_references w == 0
        then none
        else if w.strong == 0
        then (if by_timer then some w else none)
        else some (record w { context = handler w.context })
