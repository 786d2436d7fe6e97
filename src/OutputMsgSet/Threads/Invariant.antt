-- ===== src/OutputMsgSet/Threads/Invariant.antt =====
-- Who owns which slot of the set (output_msg_set.rs), true of every reachable state.
use tansiv.Base.{ℕ, ◌<◌, ◌≡◌, ◌≢◌, refl, true, false, Option, none, some, is_some}
use tansiv.OutputMsgSet.{OutputMsgSet}
use tansiv.OutputMsgSet.Threads.{
  Pc, outside, scanning, claimed, written, DrainPc, resting, looking, taking, taken, cleared,
  System, init,
}

module _ {M : Type 0} where
  -- The slot between the swap of its busy flag and the store of its valid flag.
  abbrev pub holds : Pc M → Option ℕ
  holds outside = none
  holds (scanning m i) = none
  holds (claimed m i) = some i
  holds (written m i) = some i

  -- The slot that the drain has found valid and has not released.
  abbrev pub drains : DrainPc M → Option ℕ
  drains resting = none
  drains (looking i) = none
  drains (taking i) = some i
  drains (taken i o) = some i
  drains (cleared i o) = some i

  -- What the place of a thread says about the slot that it holds.
  abbrev pub Holding : OutputMsgSet M → Pc M → Type 0
  Holding s outside = Unit {0}
  Holding s (scanning m i) = Unit {0}
  Holding s (claimed m i) =
      (i < s.num_slots) × (s.slot_busy i ≡ true) × (s.slot_valid i ≡ false) × (s.slots i ≡ none)
  Holding s (written m i) =
      (i < s.num_slots) × (s.slot_busy i ≡ true) × (s.slot_valid i ≡ false) × (s.slots i ≡ some m)

  abbrev pub Draining : OutputMsgSet M → DrainPc M → Type 0
  Draining s resting = Unit {0}
  Draining s (looking i) = Unit {0}
  Draining s (taking i) =
      (i < s.num_slots)
      × (s.slot_busy i ≡ true)
      × (s.slot_valid i ≡ true)
      × (is_some (s.slots i) ≡ true)
  Draining s (taken i o) =
      (i < s.num_slots)
      × (s.slot_busy i ≡ true)
      × (s.slot_valid i ≡ true)
      × (s.slots i ≡ none)
      × (is_some o ≡ true)
  Draining s (cleared i o) =
      (i < s.num_slots)
      × (s.slot_busy i ≡ true)
      × (s.slot_valid i ≡ false)
      × (s.slots i ≡ none)
      × (is_some o ≡ true)

  pub record Inv (s : System M) : Type 0 where
    pub holding : (t : ℕ) → Holding s.set (s.threads t)
    pub draining : Draining s.set s.drainer
    pub unique : (t u i : ℕ) → holds (s.threads t) ≡ some i → holds (s.threads u) ≡ some i → t ≡ u
    pub apart : (t i : ℕ) → holds (s.threads t) ≡ some i → drains s.drainer ≢ some i
    pub free :
        (i : ℕ) → s.set.slot_busy i ≡ false → (s.set.slot_valid i ≡ false) × (s.set.slots i ≡ none)
    pub full :
        (i : ℕ)
        → s.set.slot_valid i ≡ true
        → drains s.drainer ≢ some i
        → is_some (s.set.slots i) ≡ true

pub init-Inv : (M : Type 0) (n : ℕ) → Inv (init M n)
init-Inv M n = record {
  holding = λ t. tt;
  draining = tt;
  unique = λ t u i h k. cc;
  apart = λ t i h. cc;
  free = λ i h. (refl, refl);
  full = λ i h k. cc;
}
