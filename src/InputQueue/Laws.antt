-- ===== src/InputQueue/Laws.antt =====
-- The queue of received packets, seen as a list, and a queue that meets the laws
-- (waitfree_array_queue.rs).
use tansiv.Base.{
  ℕ, ◌<◌, ◌≤◌, ◌≡◌, refl, Bool, true, false, Option, none, some, List, [], ◌∷◌, ◌++◌, ◌⊎◌, inl, inr,
  arith, length, ltb, if◌then◌else◌, Bool-cases, ok, err, lt→ltb,
}
use tansiv.InputQueue.{ArrayQueue, no_slot_available, push, is_empty}

module _ {I : Type 0} (aq : ArrayQueue I) where
  -- Every outcome of `push`: the item goes to the end, or the queue is full and the item comes back.
  pub push_cases :
      (q : aq.Queue) (i : I)
      → ((q' : aq.Queue) × (push aq q i ≡ ok q')
          × (aq.items q' ≡ aq.items q ++ i ∷ [])
          × (aq.capacity q' ≡ aq.capacity q))
        ⊎ ((aq.capacity q ≤ length (aq.items q)) × (push aq q i ≡ err (no_slot_available i)))
  unfolding push
  push_cases q i = elim (Bool-cases (ltb (length (aq.items q)) (aq.capacity q))) [
    | inl room ↦
        let (q', p, l, c) = aq.push_room q i (ground arith) in inl (q', rw (p, push) refl, l, c)
    | inr full ↦ inr (ground arith, rw (aq.push_full q i (ground arith), push) refl)
  ]

  -- A push that succeeds had room.
  pub push_below :
      (q : aq.Queue) (i : I) {q' : aq.Queue}
      → push aq q i ≡ ok q'
      → length (aq.items q) < aq.capacity q
  unfolding push
  push_below q i {q'} e = elim (Bool-cases (ltb (length (aq.items q)) (aq.capacity q))) [
    | inl room ↦ ground arith
    | inr full ↦
        let back : push aq q i ≡ err (no_slot_available i) =
          rw (aq.push_full q i (ground arith), push) refl in
        absurd cc
  ]

  -- `is_empty` says whether the list of items is empty.
  pub is_empty_cases :
      (q : aq.Queue)
      → ((aq.items q ≡ []) × (is_empty aq q ≡ true))
        ⊎ ((i : I) × (is : List I) × (aq.items q ≡ i ∷ is) × (is_empty aq q ≡ false))
  unfolding is_empty
  is_empty_cases q = go (aq.items q) refl
    where
      go :
          (l : List I)
          → aq.items q ≡ l
          → ((aq.items q ≡ []) × (aq.no_items q ≡ true))
            ⊎ ((i : I) × (is : List I) × (aq.items q ≡ i ∷ is) × (aq.no_items q ≡ false))
      go [] e = inl (e, aq.no_items-nil q e)
      go (i ∷ is) e = inr (i, is, e, aq.no_items-cons q i is e)

-- A queue that meets the laws: a list beside its capacity.
pub record Bounded (I : Type 0) : Type 0 where
  pub held : List I
  pub limit : ℕ

module _ {I : Type 0} where
  abbrev pub bounded_push : Bounded I → I → Option (Bounded I)
  bounded_push q i =
      if ltb (length q.held) q.limit then some (record q { held = q.held ++ i ∷ [] }) else none

  abbrev pub list_pop : List I → ℕ → Option (I × Bounded I)
  list_pop [] n = none
  list_pop (i ∷ is) n = some (i, record { held = is; limit = n })

  abbrev pub list_empty : List I → Bool
  list_empty [] = true
  list_empty (i ∷ is) = false

  pub bounded_room :
      (q : Bounded I) (i : I)
      → length q.held < q.limit
      → (q' : Bounded I) × (bounded_push q i ≡ some q')
        × (q'.held ≡ q.held ++ i ∷ [])
        × (q'.limit ≡ q.limit)
  bounded_room q i h = (record q { held = q.held ++ i ∷ [] }, rw (lt→ltb _ _ h) refl, refl, refl)

  pub bounded_full : (q : Bounded I) (i : I) → q.limit ≤ length q.held → bounded_push q i ≡ none
  bounded_full q i h = ground arith

  pub bounded_pop :
      (q : Bounded I) (i : I) (is : List I)
      → q.held ≡ i ∷ is
      → (q' : Bounded I) × (list_pop q.held q.limit ≡ some (i, q'))
        × (q'.held ≡ is)
        × (q'.limit ≡ q.limit)
  bounded_pop q i is h = (record { held = is; limit = q.limit }, rw h refl, refl, refl)

abbrev pub bounded : (I : Type 0) → ArrayQueue I
bounded I = record {
  Queue = Bounded I;
  make = λ n. record { held = []; limit = n };
  push_item = bounded_push;
  pop_item = λ q. list_pop q.held q.limit;
  no_items = λ q. list_empty q.held;
  items = λ q. q.held;
  capacity = λ q. q.limit;
  items-make = λ n. (refl, refl);
  push_room = bounded_room;
  push_full = bounded_full;
  pop_nil = λ q h. rw h refl;
  pop_cons = bounded_pop;
  no_items-nil = λ q h. rw h refl;
  no_items-cons = λ q i is h. rw h refl;
}
