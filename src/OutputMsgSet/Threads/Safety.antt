-- ===== src/OutputMsgSet/Threads/Safety.antt =====
-- The accesses to slots that are not atomic never meet, and never miss (output_msg_set.rs).
use tansiv.Base.{ℕ, ◌<◌, ◌≡◌, ◌≢◌, none, some, arith, Option-cases, inl, inr}
use tansiv.OutputMsgSet.Threads.{System, claimed, taking, Reach}
use tansiv.OutputMsgSet.Threads.Invariant.{holds, drains}
use tansiv.OutputMsgSet.Threads.Steps.{Reach-Inv}

module _ {M : Type 0} {n : ℕ} {s : System M} where
  -- When a thread is about to write a slot, the slot is one of the set's and is empty, no other
  -- thread has claimed it, and the drain is not at work on it.
  pub write_alone :
      Reach n s
      → (t : ℕ) (m : M) (i : ℕ) → s.threads t ≡ claimed m i
      → (i < s.set.num_slots)
        × (s.set.slots i ≡ none)
        × ((u : ℕ) → holds (s.threads u) ≡ some i → u ≡ t)
        × (drains s.drainer ≢ some i)
  write_alone r t m i e =
      let inv = Reach-Inv r in
      (
        ground (arith, inv.holding t),
        ground (arith, inv.holding t),
        (λ u h. inv.unique u t i h (ground arith)),
        inv.apart t i (ground arith),
      )

  -- When the drain is about to empty a slot, the slot holds a message, and no thread has claimed it.
  pub take_finds :
      Reach n s
      → (i : ℕ) → s.drainer ≡ taking i
      → ((m : M) × (s.set.slots i ≡ some m)) × ((u : ℕ) → holds (s.threads u) ≢ some i)
  take_finds r i e =
      let inv = Reach-Inv r in
      (
        elim (Option-cases (s.set.slots i)) [
          | inl empty ↦ absurd (ground (arith, inv.draining))
          | inr found ↦ found
        ],
        λ u h. inv.apart u i h (ground arith),
      )
