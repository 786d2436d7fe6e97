-- ===== src/OutputMsgSet/Threads/Counting.antt =====
-- No message of an insert is lost or drained twice (output_msg_set.rs).
use tansiv.Base.{
  ℕ, zero, suc, ◌+◌, ◌≡◌, refl, Bool, Option, none, some, List, [], ◌∷◌, arith, if◌then◌else◌, bit,
  sum, sum_same, sum_change, true, false,
}
use tansiv.OutputMsgSet.{OutputMsgSet}
use tansiv.OutputMsgSet.Threads.{
  DrainPc, resting, looking, taking, taken, cleared, System, Step, call_insert, swap_taken,
  swap_free, no_slot, write, publish, call_drain, skip, see, finish, leave, take, invalidate,
  release, Reach, start, later, init, store_slot, store_valid,
}
use tansiv.OutputMsgSet.Threads.Invariant.{Inv}
use tansiv.OutputMsgSet.Threads.Steps.{Reach-Inv}

module _ {M : Type 0} (p : M → Bool) where
  abbrev pub hit : Option M → ℕ
  hit none = 0
  hit (some m) = bit (p m)

  -- How many messages of a log satisfy `p`.
  abbrev pub tally : List M → ℕ
  tally [] = 0
  tally (m ∷ ms) = bit (p m) + tally ms

  -- A slot counts while its valid flag is set.
  abbrev pub weight : OutputMsgSet M → ℕ → ℕ
  weight s i = if s.slot_valid i then hit (s.slots i) else 0

  abbrev pub waiting : OutputMsgSet M → ℕ
  waiting s = sum s.num_slots (weight s)

  -- What the drain has taken out of a slot and not returned yet.
  abbrev pub in_hand : DrainPc M → ℕ
  in_hand resting = 0
  in_hand (looking i) = 0
  in_hand (taking i) = 0
  in_hand (taken i o) = hit o
  in_hand (cleared i o) = hit o

  abbrev Balanced : System M → Type 0
  Balanced s = tally s.inserted ≡ tally s.drained + in_hand s.drainer + waiting s.set

  waiting_same :
      (s s' : OutputMsgSet M)
      → s.num_slots ≡ s'.num_slots
      → ((j : ℕ) → weight s j ≡ weight s' j)
      → waiting s ≡ waiting s'
  waiting_same s s' n h = rw n (sum_same s'.num_slots (weight s) (weight s') h)

  Step-Balanced : {s s' : System M} → Inv s → Step s s' → Balanced s → Balanced s'
  Step-Balanced inv (call_insert t m e) b = b
  Step-Balanced inv (swap_taken t m i e lt q) b = b
  Step-Balanced inv (swap_free t m i e lt q) b = b
  Step-Balanced inv (no_slot t m i e le) b = b
  Step-Balanced {s} inv (write t m i e) b = omega (
    arith,
    sum_same s.set.num_slots (weight s.set) (weight (store_slot s.set i (some m)))
        (λ j. ground (arith, inv.holding t)),
  )
  Step-Balanced {s} inv (publish t m i e) b = ground (
    arith,
    inv.holding t,
    sum_change s.set.num_slots i (weight s.set) (weight (store_valid s.set i true))
        (ground (arith, inv.holding t)) (λ j ne. ground arith),
  )
  Step-Balanced inv (call_drain e) b = ground arith
  Step-Balanced inv (skip i e lt q) b = ground arith
  Step-Balanced inv (see i e lt q) b = ground arith
  Step-Balanced inv (finish i e le) b = ground arith
  Step-Balanced inv (leave i e) b = ground arith
  Step-Balanced {s} inv (take i e) b = ground (
    arith,
    inv.draining,
    sum_change s.set.num_slots i (weight s.set) (weight (store_slot s.set i none))
        (ground (arith, inv.draining)) (λ j ne. ground arith),
  )
  Step-Balanced {s} inv (invalidate i o e) b = ground (
    arith,
    sum_same s.set.num_slots (weight s.set) (weight (store_valid s.set i false))
        (λ j. ground (arith, inv.draining)),
  )
  Step-Balanced inv (release i o e) b = ground (arith, inv.draining)

  init-Balanced : (n : ℕ) → Balanced (init M n)
  init-Balanced n = omega (arith, sum_none n)
    where
      sum_none : (k : ℕ) → 0 ≡ sum k (λ i. 0)
      sum_none = elim [ zero ↦ refl | suc (k → ih) ↦ omega arith ]

  -- In every reachable state the messages of the successful inserts are those that the drain has
  -- returned, the one that it has in hand, and those that wait in valid slots, each as often.
  pub inserted-balance :
      {n : ℕ} {s : System M}
      → Reach n s
      → tally s.inserted ≡ tally s.drained + in_hand s.drainer + waiting s.set
  inserted-balance {n} start = init-Balanced n
  inserted-balance (later r st) = Step-Balanced (Reach-Inv r) st (inserted-balance r)
