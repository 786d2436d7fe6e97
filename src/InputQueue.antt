-- ===== src/InputQueue.antt =====
-- waitfree_array_queue.rs: a wrapper of crossbeam's `ArrayQueue`, which is the parameter `ArrayQueue`.
-- Its laws are the documented behaviour: a first-in first-out queue that holds at most the number of
-- items that it was made for.
pub mod Laws
use tansiv.Base.{
  ℕ, ◌<◌, ◌≤◌, ◌≡◌, Bool, true, false, Option, none, some, List, [], ◌∷◌, ◌++◌, ◌⊎◌, inl, inr,
  length, Result, ok, err, is_some,
}

-- A push gives the queue with the item, or nothing if the queue is full.
pub record ArrayQueue (I : Type 0) : Type 1 where
  pub Queue : Type 0
  pub make : ℕ → Queue
  pub push_item : Queue → I → Option Queue
  pub pop_item : Queue → Option (I × Queue)
  pub no_items : Queue → Bool
  pub items : Queue → List I
  pub capacity : Queue → ℕ
  pub items-make : (n : ℕ) → (items (make n) ≡ []) × (capacity (make n) ≡ n)
  pub push_room :
      (q : Queue) (i : I)
      → length (items q) < capacity q
      → (q' : Queue) × (push_item q i ≡ some q')
        × (items q' ≡ items q ++ i ∷ [])
        × (capacity q' ≡ capacity q)
  pub push_full : (q : Queue) (i : I) → capacity q ≤ length (items q) → push_item q i ≡ none
  pub pop_nil : (q : Queue) → items q ≡ [] → pop_item q ≡ none
  pub pop_cons :
      (q : Queue) (i : I) (is : List I)
      → items q ≡ i ∷ is
      → (q' : Queue) × (pop_item q ≡ some (i, q')) × (items q' ≡ is) × (capacity q' ≡ capacity q)
  pub no_items-nil : (q : Queue) → items q ≡ [] → no_items q ≡ true
  pub no_items-cons : (q : Queue) (i : I) (is : List I) → items q ≡ i ∷ is → no_items q ≡ false

-- `Error::NoSlotAvailable`, which gives the item back.
pub data QueueError (I : Type 0) : Type 0 where
  no_slot_available : I → QueueError I

module _ {I : Type 0} (aq : ArrayQueue I) where
  unfoldable pub new : ℕ → aq.Queue
  new num_slots = aq.make num_slots

  unfoldable pub push : aq.Queue → I → Result (QueueError I) aq.Queue
  push q item = elim (aq.push_item q item) [ some q' ↦ ok q' | none ↦ err (no_slot_available item) ]

  unfoldable pub pop : aq.Queue → Option (I × aq.Queue)
  pop q = aq.pop_item q

  unfoldable pub is_empty : aq.Queue → Bool
  is_empty q = aq.no_items q
