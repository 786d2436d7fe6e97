-- ===== src/CApi/Lifetime/Early.antt =====
-- Under KVM `stop` drops a reference that `start` has not taken (timer/qemukvm/mod.rs).
use tansiv.Base.{
  ℕ, ◌≡◌, Bool, false, Option, none, some, List, arith, refl, Result, ok, err, panicked,
}
use tansiv.Error.{Error}
use tansiv.Base.Int.{ℤ}
use tansiv.BufferPool.Builders.{Flatbuffers}
use tansiv.InputQueue.{ArrayQueue}
use tansiv.Connector.{Codec, Handle}
use tansiv.Timer.Interface.{kvm}
use tansiv.Timer.Kvm
use tansiv.Timer.Kvm.{Float, Device}
use tansiv.Context.{Context}
use tansiv.Context.Application.{start, stop}
use tansiv.Context.Handlers.{kvm_handler}
use tansiv.CApi.Lifetime.{Call, World, exec, made, vsg_cleanup}
use tansiv.CApi.Lifetime.Counting.{kvm_counted}
use tansiv.CApi.Lifetime.Keeping.{start-refs, started_with}

module _ (codec : Codec) (F : Flatbuffers) (aq : ArrayQueue Handle) (fl : Float) (dev : Device)
    (tsc_khz : Option ℤ) where
  abbrev Ctx : Type 0
  Ctx = Context codec F aq (kvm fl dev tsc_khz)

  abbrev pub KvmWorld : Type 0
  KvmWorld = World codec F aq (kvm_counted fl dev tsc_khz)

  -- The calls where KVM is the timer: the kernel module's client has a pointer to the context.
  abbrev pub calls : ℕ → KvmWorld → Call → Option KvmWorld
  calls guest_tsc =
      exec codec F aq (kvm_counted fl dev tsc_khz)
        (λ c. (kvm_handler codec F aq fl dev tsc_khz guest_tsc c).1) false

  abbrev pub refs : Ctx → ℕ
  refs c = c.timer_context.0.references

  takes_none : (r : Result Error ℤ) → started_with codec F aq (kvm_counted fl dev tsc_khz) r ≡ 0
  takes_none (ok o) = refl
  takes_none (err e) = refl
  takes_none panicked = refl

  alone :
      (guest_tsc : ℕ) (loads : ℕ → Bool) (fuel : ℕ) (c : Ctx) {w v : KvmWorld}
      → refs c ≡ 1
      → calls guest_tsc (made codec F aq (kvm_counted fl dev tsc_khz) c) Call.starts ≡ some w
      → calls guest_tsc w (Call.stops loads fuel) ≡ some v
      → (v.strong ≡ 1) × (refs v.context ≡ 0)
  unfolding exec stop Kvm.stop
  alone guest_tsc loads fuel c one first second = ground (
    arith,
    start-refs codec F aq (kvm_counted fl dev tsc_khz) c,
    takes_none (start codec F aq (kvm fl dev tsc_khz) c).0,
  )

  -- Under KVM `start` and then `stop`, in the order that the source asks for, free the timer of a context
  -- that is still in use, whatever `start` returns: with a context that `vsg_init` has made, the pointer to
  -- it is left and no reference to the timer, so that a message that is sent, a deadline and `vsg_cleanup`
  -- all use memory that was freed.
  pub stop_frees_early :
      (guest_tsc : ℕ) (loads : ℕ → Bool) (fuel : ℕ) (c : Ctx) {w v : KvmWorld}
      → refs c ≡ 1
      → calls guest_tsc (made codec F aq (kvm_counted fl dev tsc_khz) c) Call.starts ≡ some w
      → calls guest_tsc w (Call.stops loads fuel) ≡ some v
      → (v.strong ≡ 1)
        × (refs v.context ≡ 0)
        × ((dst : ℕ) (msg : List ℕ) → calls guest_tsc v (Call.sends dst msg) ≡ none)
        × (calls guest_tsc v Call.fires ≡ none)
        × (calls guest_tsc v Call.cleans ≡ none)
  unfolding exec vsg_cleanup
  stop_frees_early guest_tsc loads fuel c one first second =
      let (strong, none_left) = alone guest_tsc loads fuel c one first second in
      (
        strong,
        none_left,
        (λ dst msg. ground (arith, strong, none_left)),
        ground (arith, strong, none_left),
        ground (arith, strong, none_left),
      )
