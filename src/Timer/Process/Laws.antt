-- ===== src/Timer/Process/Laws.antt =====
-- Simulated time stands still while a deadline is handled, and goes on from there (timer/process.rs).
use tansiv.Base.{ℕ, ◌+◌, ◌-◌, ◌≤◌, ◌≡◌, refl, ap, false, none, some, arith, le→leb, ok}
use tansiv.Base.Int.{ℤ, pos, pos_part, neg_part, ◌+ℤ◌, ◌-ℤ◌, neg, int_laws, eq_of_parts}
use tansiv.Duration.{chrono_max}
use tansiv.LibcTimer.{Sys, gettime}
use tansiv.Timer.Process.{TimerContext, clock, application_now, freeze_time, thawed, simulation_now}

module _ (sys : Sys) where
  -- What the clock's reading `n` is in simulation time.
  abbrev pub simulation_at : TimerContext sys → ℕ → ℤ
  simulation_at c n = pos n +ℤ c.simulation_time.offset

  -- While time flows `simulation_now` is the clock's reading moved by the offset.
  pub simulation_now-eq :
      (c : TimerContext sys) (k k' : sys.Kernel) (n s : ℕ)
      → c.at_deadline ≡ false
      → gettime sys clock k ≡ (ok n, k')
      → n ≤ chrono_max
      → simulation_at c n ≡ pos s
      → simulation_now sys c k ≡ (ok s, k')
  unfolding simulation_now
  simulation_now-eq c k k' n s flows reading small at =
      rw (reading, flows, le→leb n chrono_max small, at) refl

  module _ (local_now : sys.Kernel → ℤ × sys.Kernel) where
    -- The context after a successful thaw, with the reading `n` of the clock.
    pub record Thawed (c t : TimerContext sys) (deadline n : ℕ) : Type 0 where
      pub ordered : c.next_deadline ≤ deadline
      pub prev : t.prev_deadline ≡ c.next_deadline
      pub next : t.next_deadline ≡ deadline
      pub raw : t.next_deadline_raw ≡ n + (deadline - c.next_deadline)
      pub flows : t.at_deadline ≡ false

    -- A thaw that ends a freeze at the reading `freeze_time`.
    pub thawed-some :
        (c : TimerContext sys) (freeze_time deadline n : ℕ) (k k' : sys.Kernel)
        {t : TimerContext sys}
        → thawed sys local_now c (some freeze_time) deadline n k ≡ (ok t, k')
        → Thawed c t deadline n
          × (freeze_time ≤ n)
          × (t.simulation_time.offset ≡ c.simulation_time.offset -ℤ pos (n - freeze_time))
          × (t.application_time.offset ≡ c.application_time.offset -ℤ pos (n - freeze_time))
    unfolding thawed
    thawed-some c freeze_time deadline n k k' h = ground arith

    -- The first thaw, which sets the origin of the two times.
    pub thawed-none :
        (c : TimerContext sys) (deadline n : ℕ) (k k' : sys.Kernel) {t : TimerContext sys}
        → thawed sys local_now c none deadline n k ≡ (ok t, k')
        → Thawed c t deadline n
          × (t.simulation_time.offset ≡ neg (pos n))
          × (t.application_time.offset ≡ c.current_deadline -ℤ (local_now k).0)
    unfolding thawed
    thawed-none c deadline n k k' h = ground arith

    -- Simulated time goes on where it stood. If it was `s` at the reading `freeze_time` of the clock,
    -- and the handler thaws at the reading `n`, then at a later reading `m` it is `s` and the time
    -- since the thaw: what passes between freeze and thaw does not count.
    pub thaw-simulation_now :
        (c : TimerContext sys) (freeze_time deadline n m s : ℕ) (k k₁ k₂ k₃ : sys.Kernel)
        {t : TimerContext sys}
        → simulation_at c freeze_time ≡ pos s
        → thawed sys local_now c (some freeze_time) deadline n k ≡ (ok t, k₁)
        → gettime sys clock k₂ ≡ (ok m, k₃)
        → n ≤ m
        → m ≤ chrono_max
        → simulation_now sys t k₂ ≡ (ok (s + (m - n)), k₃)
    thaw-simulation_now c freeze_time deadline n m s k k₁ k₂ k₃ {t} at h reading le small =
        let (v, before, off, _) = thawed-some c freeze_time deadline n k k₁ h in
        simulation_now-eq t k₂ k₃ m (s + (m - n)) v.flows reading small
          (eq_of_parts _ _ (rw off (omega (int_laws, ap pos_part at, ap neg_part at))))

    -- Application time too: if the local clock has gone on as far as the monotonic one, the date
    -- after the thaw is the date at the freeze and the time since the thaw.
    pub thaw-application_now :
        (c : TimerContext sys) (freeze_time deadline n m : ℕ) (local : ℤ) (k k₁ k₂ k₃ : sys.Kernel)
        {t : TimerContext sys}
        → thawed sys local_now c (some freeze_time) deadline n k ≡ (ok t, k₁)
        → n ≤ m
        → local_now k₂ ≡ (local +ℤ pos (m - freeze_time), k₃)
        → application_now sys local_now t k₂
          ≡ (local +ℤ c.application_time.offset +ℤ pos (m - n), k₃)
    unfolding application_now
    thaw-application_now c freeze_time deadline n m local k k₁ k₂ k₃ {t} h le reading =
        let (v, before, _, off) = thawed-some c freeze_time deadline n k k₁ h in
        rw (v.flows, reading, off) (ap (λ d. (d, k₃)) (eq_of_parts _ _ (omega int_laws)))
