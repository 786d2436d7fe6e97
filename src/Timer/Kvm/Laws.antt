-- ===== src/Timer/Kvm/Laws.antt =====
-- Time and overruns of deadlines under KVM (timer/qemukvm/mod.rs).
use tansiv.Base.{
  ℕ, ◌+◌, ◌%◌, ◌^◌, ◌≤◌, ◌<◌, ◌≡◌, refl, none, some, List, [], ◌∷◌, ◌++◌, arith, ltb, ◌⊎◌, inl, inr,
  ok, All, All-append, Bool-cases, Option-cases,
}
use tansiv.Timer.Kvm.{
  Float, Device, TimerContextInner, u64, last_of, check_deadline_overrun, set_next_deadline,
  vm_time, slice_length, simulation_next_deadline,
}

-- No send time of the list is before one that stands earlier in it.
abbrev pub IsSorted : List ℕ → Type 0
IsSorted [] = Unit
IsSorted (x ∷ xs) = All (λ y. x ≤ y) xs × IsSorted xs

All-le-last : (xs : List ℕ) (l : ℕ) → IsSorted xs → last_of xs ≡ some l → All (λ y. y ≤ l) xs
All-le-last [] l s e = tt
All-le-last (x ∷ []) l s e = ground arith
All-le-last (x ∷ y ∷ xs) l s e = let rest = All-le-last (y ∷ xs) l s.1 e in (omega arith, rest)

All-last_none : (t : ℕ) (xs : List ℕ) → last_of xs ≡ none → All (λ y. y ≤ t) xs
All-last_none t [] e = tt
All-last_none t (x ∷ []) e = cc
All-last_none t (x ∷ y ∷ xs) e = absurd (some_last y xs e)
  where
    some_last : (z : ℕ) (zs : List ℕ) → last_of (z ∷ zs) ≡ none → ⊥
    some_last z [] h = cc
    some_last z (w ∷ ws) h = some_last w ws h

IsSorted-append :
    (xs : List ℕ) (t : ℕ) → IsSorted xs → All (λ y. y ≤ t) xs → IsSorted (xs ++ t ∷ [])
IsSorted-append [] t s h = (tt, tt)
IsSorted-append (x ∷ xs) t s h =
    (All-append (λ y. x ≤ y) xs (t ∷ []) (s.0, (h.0, tt)), IsSorted-append xs t s.1 h.1)

All-le_trans : (a b : ℕ) (xs : List ℕ) → a ≤ b → All (λ y. y ≤ a) xs → All (λ y. y ≤ b) xs
All-le_trans a b [] h s = tt
All-le_trans a b (x ∷ xs) h s = (omega arith, All-le_trans a b xs h s.1)

module _ (fl : Float) where
  -- A message is queued exactly if its send time is past the next deadline. The stamp that it is
  -- queued with is not before its send time, so past the deadline too, and the queue stays sorted.
  pub check_deadline_overrun_cases :
      (c : TimerContextInner fl) (send_time : ℕ) (stamps : List ℕ)
      → IsSorted stamps
      → ((send_time ≤ c.next_deadline) × (check_deadline_overrun fl c send_time stamps ≡ none))
        ⊎ ((c.next_deadline < send_time)
            × ((t : ℕ) × (check_deadline_overrun fl c send_time stamps ≡ some t)
                × (send_time ≤ t)
                × IsSorted (stamps ++ t ∷ [])))
  unfolding check_deadline_overrun simulation_next_deadline
  check_deadline_overrun_cases c send_time stamps s =
      elim (Bool-cases (ltb c.next_deadline send_time)) [
        | inr within ↦ inl (ground arith, rw within refl)
        | inl past ↦ inr (
          ground arith,
          elim (Option-cases (last_of stamps)) [
            | inl empty ↦ (
              send_time,
              rw (past, empty) refl,
              omega arith,
              IsSorted-append stamps send_time s (All-last_none send_time stamps empty),
            )
            | inr (l, e) ↦ elim (Bool-cases (ltb send_time l)) [
              | inl earlier ↦ (
                l,
                rw (past, e, earlier) refl,
                ground arith,
                IsSorted-append stamps l s (All-le-last stamps l s e),
              )
              | inr later ↦ (
                send_time,
                rw (past, e, later) refl,
                omega arith,
                IsSorted-append stamps send_time s
                    (All-le_trans l send_time stamps (ground arith) (All-le-last stamps l s e)),
              )
            ]
          ],
        )
      ]

  -- Simulated time is the next deadline, moved by how far the guest's clock is from the value that
  -- the device has given for that deadline, both in whole nanoseconds and modulo 2^64. The results of
  -- the two casts to `u64` are below 2^64.
  pub vm_time_lem :
      (dev : Device) (c : TimerContextInner fl) (now tsc_offset : ℕ)
      → fl.to_u64 (fl.div (fl.of_u64 (u64 (now + tsc_offset))) c.tsc_freq) < 2 ^ 64
      → fl.to_u64 (fl.div (fl.of_u64 c.vmx_timer_value) c.tsc_freq) < 2 ^ 64
      → (vm_time fl dev c now tsc_offset
            + fl.to_u64 (fl.div (fl.of_u64 c.vmx_timer_value) c.tsc_freq))
          % 2 ^ 64
        ≡ (c.next_deadline + fl.to_u64 (fl.div (fl.of_u64 (u64 (now + tsc_offset))) c.tsc_freq))
          % 2 ^ 64
  unfolding vm_time
  vm_time_lem dev c now tsc_offset ha hb = omega arith

  -- After a successful `set_next_deadline` the slice that is answered to the kernel module is the
  -- time between the deadline before and the new one, if both are below 2^64 nanoseconds.
  pub set_next_deadline-slice_length :
      (dev : Device) (c : TimerContextInner fl) (deadline : ℕ) (k k' : dev.State)
      {c' : TimerContextInner fl}
      → deadline < 2 ^ 64
      → set_next_deadline fl dev c deadline k ≡ (ok c', k')
      → (c'.prev_deadline ≡ c.next_deadline)
        × (c'.next_deadline ≡ deadline)
        × (c.next_deadline + slice_length fl c' ≡ deadline)
  unfolding set_next_deadline slice_length
  set_next_deadline-slice_length dev c deadline k k' small e = ground arith
