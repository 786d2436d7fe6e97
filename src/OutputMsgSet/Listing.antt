-- ===== src/OutputMsgSet/Listing.antt =====
-- The messages that a set holds, in the order of their slots, and how `insert` changes them
-- (output_msg_set.rs).
use tansiv.Base.{
  ℕ, zero, suc, ◌+◌, ◌≤◌, ◌<◌, ◌≡◌, refl, true, false, ◌⊎◌, ◌↔◌, inl, inr, Option, none, some, List,
  [], ◌∷◌, ◌++◌, arith, ◌==◌, Bool-cases, is_some, update, length, ok, err,
}
use tansiv.Error.{no_slot_available}
use tansiv.OutputMsgSet.{OutputMsgSet, new, fill, clear, insert_from, insert}

module _ {M : Type 0} where
  -- The messages at the indexes `idx..idx + k`.
  abbrev pub listed : ℕ → ℕ → (ℕ → Option M) → List M
  listed zero idx view = []
  listed (suc k) idx view = elim (view idx) [
    | none ↦ listed k (idx + 1) view
    | some m ↦ m ∷ listed k (idx + 1) view
  ]

  abbrev pub pending : OutputMsgSet M → List M
  pending s = listed s.num_slots 0 s.slots

  -- Between two operations a slot holds a message exactly if it is busy, and exactly if it is valid.
  pub record IsSettled (s : OutputMsgSet M) : Type 0 where
    pub busy_iff : (i : ℕ) → s.slot_busy i ≡ is_some (s.slots i)
    pub valid_iff : (i : ℕ) → s.slot_valid i ≡ is_some (s.slots i)

  pub listed-ext :
      (k idx : ℕ) (f g : ℕ → Option M)
      → ((i : ℕ) → idx ≤ i → i < idx + k → f i ≡ g i)
      → listed k idx f ≡ listed k idx g
  listed-ext zero idx f g h = refl
  listed-ext (suc k) idx f g h = ground (
    arith,
    h idx (omega arith) (omega arith),
    listed-ext k (idx + 1) f g (λ i le lt. h i (omega arith) (omega arith)),
  )

  pub length-listed : (k idx : ℕ) (f : ℕ → Option M) → length (listed k idx f) ≤ k
  length-listed zero idx f = omega arith
  length-listed (suc k) idx f = ground (arith, length-listed k (idx + 1) f)

  listed-new : (k idx : ℕ) → listed k idx (λ _. none) ≡ []
  listed-new zero idx = refl
  listed-new (suc k) idx = listed-new k (idx + 1)

  pub pending-new : (n : ℕ) → pending (new M n) ≡ []
  pending-new n = listed-new n 0

  pub new-IsSettled : (n : ℕ) → IsSettled (new M n)
  new-IsSettled n = record { busy_iff = λ i. refl; valid_iff = λ i. refl }

  pub fill-IsSettled : (s : OutputMsgSet M) (i : ℕ) (m : M) → IsSettled s → IsSettled (fill s i m)
  fill-IsSettled s i m v = record {
    busy_iff = λ j. ground (arith, v.busy_iff j);
    valid_iff = λ j. ground (arith, v.valid_iff j);
  }

  pub clear-IsSettled : (s : OutputMsgSet M) (i : ℕ) → IsSettled s → IsSettled (clear s i)
  clear-IsSettled s i v = record {
    busy_iff = λ j. ground (arith, v.busy_iff j);
    valid_iff = λ j. ground (arith, v.valid_iff j);
  }

  insert_from_lem :
      (k idx to : ℕ) (s : OutputMsgSet M) (m : M)
      → to ≡ idx + k
      → ((i : ℕ) × (idx ≤ i)
          × (i < to)
          × (s.slot_busy i ≡ false)
          × (insert_from k idx s m ≡ ok (fill s i m)))
        ⊎ (((j : ℕ) → idx ≤ j → j < to → s.slot_busy j ≡ true)
            × (insert_from k idx s m ≡ err no_slot_available))
  unfolding insert_from
  insert_from_lem zero idx to s m e = inr (λ j h l. absurd (omega arith), refl)
  insert_from_lem (suc k) idx to s m e = elim (Bool-cases (s.slot_busy idx)) [
    | inr free ↦ inl (idx, omega arith, omega arith, free, rw free)
    | inl busy ↦ elim (insert_from_lem k (idx + 1) to s m (omega arith)) [
      | inl (i, le, lt, free, q) ↦ inl (i, omega arith, lt, free, rw busy q)
      | inr (all, q) ↦ inr (
        (λ j h l. elim (Bool-cases (idx == j)) [
          | inl at ↦ ground arith
          | inr past ↦ all j (ground arith) l
        ]),
        rw busy q,
      )
    ]
  ]

  -- Every outcome of `insert`: a slot that was not busy now holds the message, or every slot is busy
  -- and the message is refused.
  pub insert_cases :
      (s : OutputMsgSet M) (m : M)
      → ((i : ℕ) × (i < s.num_slots) × (s.slot_busy i ≡ false) × (insert s m ≡ ok (fill s i m)))
        ⊎ (((j : ℕ) → j < s.num_slots → s.slot_busy j ≡ true)
            × (insert s m ≡ err no_slot_available))
  unfolding insert
  insert_cases s m = elim (insert_from_lem s.num_slots 0 s.num_slots s m (omega arith)) [
    | inl (i, le, lt, free, q) ↦ inl (i, lt, free, q)
    | inr (all, q) ↦ inr ((λ j l. all j (omega arith) l), q)
  ]

  -- A message stored in an empty slot stands once more in the listing, between the others.
  pub listed-update :
      (k idx i : ℕ) (f : ℕ → Option M) (m : M)
      → idx ≤ i
      → i < idx + k
      → f i ≡ none
      → (before after : List M) × (listed k idx f ≡ before ++ after)
        × (listed k idx (update f i (some m)) ≡ before ++ m ∷ after)
  listed-update zero idx i f m le lt e = absurd (omega arith)
  listed-update (suc k) idx i f m le lt e = elim (Bool-cases (i == idx)) [
    | inl at ↦ (
      [],
      listed k (idx + 1) f,
      ground arith,
      ground (arith, listed-ext k (idx + 1) (update f i (some m)) f (λ j l h. ground arith)),
    )
    | inr past ↦
        go (f idx) refl past (listed-update k (idx + 1) i f m (ground arith) (omega arith) e)
  ]
    where
      go :
          (o : Option M)
          → f idx ≡ o
          → (i == idx) ≡ false
          → ((before after : List M) × (listed k (idx + 1) f ≡ before ++ after)
              × (listed k (idx + 1) (update f i (some m)) ≡ before ++ m ∷ after))
          → (before after : List M) × (listed (suc k) idx f ≡ before ++ after)
            × (listed (suc k) idx (update f i (some m)) ≡ before ++ m ∷ after)
      go none q past (b, a, p, r) = (b, a, ground arith, ground arith)
      go (some x) q past (b, a, p, r) = (x ∷ b, a, ground arith, ground arith)

  -- A successful `insert` into a settled set keeps it settled, and adds exactly its message to those that the set
  -- holds, which keep their order.
  pub insert-pending :
      (s : OutputMsgSet M) (m : M) {s' : OutputMsgSet M}
      → IsSettled s
      → insert s m ≡ ok s'
      → IsSettled s'
        × (s'.num_slots ≡ s.num_slots)
        × ((before after : List M) × (pending s ≡ before ++ after)
            × (pending s' ≡ before ++ m ∷ after))
  insert-pending s m {s'} v h = elim (insert_cases s m) [
    | inl (i, lt, free, q) ↦
        let empty : s.slots i ≡ none = ground (arith, v.busy_iff i) in
        let same : fill s i m ≡ s' = cc in
        rw (← same) (
          fill-IsSettled s i m v,
          refl,
          listed-update s.num_slots 0 i s.slots m (omega arith) (omega arith) empty,
        )
    | inr (all, q) ↦ cc
  ]

  listed_full :
      (k idx : ℕ) (f : ℕ → Option M)
      → ((i : ℕ) → idx ≤ i → i < idx + k → is_some (f i) ≡ true)
      → length (listed k idx f) ≡ k
  listed_full zero idx f h = refl
  listed_full (suc k) idx f h = ground (
    arith,
    h idx (omega arith) (omega arith),
    listed_full k (idx + 1) f (λ i le lt. h i (omega arith) (omega arith)),
  )

  listed_space :
      (k idx i : ℕ) (f : ℕ → Option M)
      → idx ≤ i
      → i < idx + k
      → f i ≡ none
      → length (listed k idx f) < k
  listed_space zero idx i f le lt e = absurd (omega arith)
  listed_space (suc k) idx i f le lt e = elim (Bool-cases (i == idx)) [
    | inl at ↦ ground (arith, length-listed k (idx + 1) f)
    | inr past ↦ ground (arith, listed_space k (idx + 1) i f)
  ]

  -- `insert` into a settled set refuses a message exactly when the set holds one message for each slot.
  pub insert_refuses_iff_full :
      (s : OutputMsgSet M) (m : M)
      → IsSettled s
      → (insert s m ≡ err no_slot_available) ↔ (length (pending s) ≡ s.num_slots)
  insert_refuses_iff_full s m v = elim (insert_cases s m) [
    | inl (i, lt, free, q) ↦ (
      (λ h. cc),
      λ h. absurd (
          omega (
            arith,
            listed_space s.num_slots 0 i s.slots (omega arith) (omega arith)
                (ground (arith, v.busy_iff i)),
          )),
    )
    | inr (all, q) ↦ (
      (λ h.
          listed_full s.num_slots 0 s.slots
            (λ i le lt. ground (arith, v.busy_iff i, all i (omega arith)))),
      λ h. q,
    )
  ]
