-- ===== src/OutputMsgSet/Drain.antt =====
-- Draining a set is going through the list of its messages (output_msg_set.rs).
use tansiv.Base.{
  ℕ, zero, suc, ◌+◌, ◌-◌, ◌≤◌, ◌<◌, ◌≡◌, refl, ap, ◌∙◌, Bool, true, false, ◌⊎◌, inl, inr, Option,
  none, some, List, [], ◌∷◌, arith, ◌==◌, ltb, Bool-cases, Option-cases,
}
use tansiv.OutputMsgSet.{OutputMsgSet, clear, take_slot, next_from, next, turn, drain_for, drain}
use tansiv.OutputMsgSet.Listing.{listed, pending, IsSettled, listed-ext, clear-IsSettled}

-- The same loop over a list: what is left of the list when the body leaves the loop is kept.
abbrev pub each {ℓ} :
    {M : Type 0} {S : Type ℓ} → (M → S → S × Bool) → List M → S → Bool × List M × S
each body [] st = (true, [], st)
each body (m ∷ ms) st =
    let (st', go) = body m st in elim go [ true ↦ each body ms st' | false ↦ (false, ms, st') ]

module _ {M : Type 0} where
  listed-none :
      (k idx : ℕ) (f : ℕ → Option M)
      → ((i : ℕ) → idx ≤ i → i < idx + k → f i ≡ none)
      → listed k idx f ≡ []
  listed-none zero idx f h = refl
  listed-none (suc k) idx f h = ground (
    arith,
    h idx (omega arith) (omega arith),
    listed-none k (idx + 1) f (λ i le lt. h i (omega arith) (omega arith)),
  )

  -- Empty slots in front do not show in the listing.
  listed_skip :
      (k idx from : ℕ) (f : ℕ → Option M)
      → idx ≤ from
      → from ≤ idx + k
      → ((i : ℕ) → idx ≤ i → i < from → f i ≡ none)
      → listed k idx f ≡ listed (idx + k - from) from f
  listed_skip zero idx from f le lt h = ground arith
  listed_skip (suc k) idx from f le lt h = elim (Bool-cases (from == idx)) [
    | inl at ↦
        let e : from ≡ idx = ground arith in
        let l : idx + suc k - idx ≡ suc k = omega arith in rw (e, l) refl
    | inr past ↦
        let l : idx + suc k - from ≡ idx + 1 + k - from = omega arith in
        rw (l, h idx (omega arith) (ground arith), listed)
          (listed_skip k (idx + 1) from f (ground arith) (omega arith)
            (λ i a b. h i (omega arith) b))
  ]

  listed_tail :
      (n from : ℕ) (f : ℕ → Option M)
      → from ≤ n
      → ((i : ℕ) → i < from → f i ≡ none)
      → listed n 0 f ≡ listed (n - from) from f
  listed_tail n from f le h =
      let l : 0 + n - from ≡ n - from = omega arith in
      listed_skip n 0 from f (omega arith) (omega arith) (λ i a b. h i b)
      ∙ ap (λ k. listed k from f) l

  -- The first message of the slots `idx..to`, or none.
  next_from_lem :
      (k idx to old : ℕ) (s : OutputMsgSet M)
      → IsSettled s
      → to ≡ idx + k
      → to ≤ s.num_slots
      → (((i : ℕ) → idx ≤ i → i < to → s.slots i ≡ none) × (next_from k idx old s ≡ (none, old, s)))
        ⊎ ((i : ℕ) × (m : M) × (idx ≤ i)
            × (i < to)
            × (s.slots i ≡ some m)
            × ((j : ℕ) → idx ≤ j → j < i → s.slots j ≡ none)
            × (next_from k idx old s ≡ (some m, i + 1, clear s i)))
  unfolding next_from take_slot
  next_from_lem zero idx to old s v e le = inl (λ i a b. absurd (omega arith), refl)
  next_from_lem (suc k) idx to old s v e le = elim (Option-cases (s.slots idx)) [
    | inr (m, q) ↦ inr (
      idx,
      m,
      omega arith,
      omega arith,
      q,
      (λ j a b. absurd (omega arith)),
      ground (arith, v.valid_iff idx),
    )
    | inl q ↦ elim (next_from_lem k (idx + 1) to old s v (omega arith) le) [
      | inl (all, r) ↦ inl (
        (λ i a b. elim (Bool-cases (i == idx)) [
          | inl at ↦ ground arith
          | inr past ↦ all i (ground arith) b
        ]),
        ground (arith, v.valid_iff idx),
      )
      | inr (i, m, a, b, p, below, r) ↦ inr (
        i,
        m,
        omega arith,
        b,
        p,
        (λ j c d. elim (Bool-cases (j == idx)) [
          | inl at ↦ ground arith
          | inr past ↦ below j (ground arith) d
        ]),
        ground (arith, v.valid_iff idx),
      )
    ]
  ]

  next_lem :
      (index : ℕ) (s : OutputMsgSet M)
      → IsSettled s
      → index ≤ s.num_slots
      → (((i : ℕ) → index ≤ i → i < s.num_slots → s.slots i ≡ none)
          × (next index s ≡ (none, index, s)))
        ⊎ ((i : ℕ) × (m : M) × (index ≤ i)
            × (i < s.num_slots)
            × (s.slots i ≡ some m)
            × ((j : ℕ) → index ≤ j → j < i → s.slots j ≡ none)
            × (next index s ≡ (some m, i + 1, clear s i)))
  unfolding next
  next_lem index s v le =
      next_from_lem (s.num_slots - index) index s.num_slots index s v (omega arith) (omega arith)

  abbrev EmptyBelow : OutputMsgSet M → ℕ → Type 0
  EmptyBelow s index = (i : ℕ) → i < index → s.slots i ≡ none

  -- What a drain hands over: the outcome of the same loop over the list `ms`, with a settled set of
  -- the same size that holds what the loop has left.
  pub record Drains {ℓ} {S : Type ℓ} (body : M → S → S × Bool) (ms : List M) (n : ℕ) (st : S)
      (r : Bool × OutputMsgSet M × S) : Type ℓ where
    pub outcome : (r.0, pending r.1, r.2) ≡ each body ms st
    pub settled : IsSettled r.1
    pub size : r.1.num_slots ≡ n

  listed_first :
      (s : OutputMsgSet M) (index i : ℕ) (m : M)
      → index ≤ i
      → i < s.num_slots
      → s.slots i ≡ some m
      → ((j : ℕ) → index ≤ j → j < i → s.slots j ≡ none)
      → listed (s.num_slots - index) index s.slots
        ≡ m ∷ listed (s.num_slots - (i + 1)) (i + 1) (clear s i).slots
  listed_first s index i m le lt p gap =
      let n = s.num_slots in
      let count : index + (n - index) - i ≡ suc (n - (i + 1)) = omega arith in
      let skip : listed (n - index) index s.slots ≡ listed (index + (n - index) - i) i s.slots =
        listed_skip (n - index) index i s.slots le (omega arith) gap in
      let rest : listed (n - (i + 1)) (i + 1) s.slots
          ≡ listed (n - (i + 1)) (i + 1) (clear s i).slots =
        listed-ext (n - (i + 1)) (i + 1) s.slots (clear s i).slots (λ j a b. ground arith) in
      rw (skip, count, p, listed) (ap (λ l. m ∷ l) rest)

  clear_below :
      (s : OutputMsgSet M) (index i : ℕ)
      → EmptyBelow s index
      → ((j : ℕ) → index ≤ j → j < i → s.slots j ≡ none)
      → EmptyBelow (clear s i) (i + 1)
  clear_below s index i below gap j lt = elim (Bool-cases (i == j)) [
    | inl at ↦ rw at
    | inr off ↦ elim (Bool-cases (ltb j index)) [
      | inl low ↦ rw off (below j (ground arith))
      | inr high ↦ rw off (gap j (ground arith) (ground arith))
    ]
  ]

  module _ {ℓ} {S : Type ℓ} (body : M → S → S × Bool) where
    -- A turn that finds a message, with the loop lemma for the turns after it.
    turn-some :
        (turns : ℕ → OutputMsgSet M → S → Bool × OutputMsgSet M × S) (m : M) (index : ℕ)
        (s : OutputMsgSet M) (st : S) (ms : List M) (n : ℕ)
        → IsSettled s
        → s.num_slots ≡ n
        → pending s ≡ ms
        → ((st' : S) → Drains body ms n st' (turns index s st'))
        → Drains body (m ∷ ms) n st (turn body turns (some m, index, s) st)
    unfolding turn
    turn-some turns m index s st ms n v size listing rest = elim (Bool-cases (body m st).1) [
      | inl go ↦
          rw (go, turn)
            (record {
              outcome = rw (go, each) (rest (body m st).0).outcome;
              settled = (rest (body m st).0).settled;
              size = (rest (body m st).0).size;
            })
      | inr stop ↦
          rw (stop, turn)
            (record { outcome = rw (stop, each, listing) refl; settled = v; size = size })
    ]

    -- A turn that finds none: no slot holds a message.
    turn-none :
        (turns : ℕ → OutputMsgSet M → S → Bool × OutputMsgSet M × S) (index : ℕ)
        (s : OutputMsgSet M) (st : S)
        → IsSettled s
        → index ≤ s.num_slots
        → EmptyBelow s index
        → ((i : ℕ) → index ≤ i → i < s.num_slots → s.slots i ≡ none)
        → Drains body
            (listed (s.num_slots - index) index s.slots)
            s.num_slots
            st
            (turn body turns (none, index, s) st)
    unfolding turn
    turn-none turns index s st v le below all = record {
      outcome = rw (
        listed-none (s.num_slots - index) index s.slots (λ i a b. all i a (omega arith)),
        listed-none s.num_slots 0 s.slots (λ i a b. elim (Bool-cases (ltb i index)) [
          | inl low ↦ below i (ground arith)
          | inr high ↦ all i (ground arith) (omega arith)
        ]),
      );
      settled = v;
      size = refl;
    }

    drain_for_lem :
        (fuel index : ℕ) (s : OutputMsgSet M) (st : S)
        → IsSettled s
        → index ≤ s.num_slots
        → s.num_slots - index < fuel
        → EmptyBelow s index
        → Drains body
            (listed (s.num_slots - index) index s.slots)
            s.num_slots
            st
            (drain_for body fuel index s st)
    unfolding drain_for
    drain_for_lem zero index s st v le f below = absurd (omega arith)
    drain_for_lem (suc fuel) index s st v le f below = elim (next_lem index s v le) [
      | inl (all, q) ↦ rw q (turn-none (drain_for body fuel) index s st v le below all)
      | inr (i, m, a, b, p, gap, q) ↦
          let v' = clear-IsSettled s i v in
          let below' = clear_below s index i below gap in
          rw (q, listed_first s index i m a b p gap)
            (turn-some (drain_for body fuel) m (i + 1) (clear s i) st _ s.num_slots v' refl
              (listed_tail s.num_slots (i + 1) (clear s i).slots (omega arith) below')
              (λ st'.
                drain_for_lem fuel (i + 1) (clear s i) st' v' (omega arith) (omega arith) below'))
    ]

    -- A drain of a settled set goes through the messages that it holds, in the order of the slots, as
    -- the loop over their list does: with the same results, whether it ends or the body leaves it.
    -- The set that is left is settled, keeps its slots, and holds the messages not reached.
    pub drain_lem :
        (s : OutputMsgSet M) (st : S)
        → IsSettled s
        → Drains body (pending s) s.num_slots st (drain body s st)
    unfolding drain
    drain_lem s st v =
        let whole : s.num_slots ≡ s.num_slots - 0 = omega arith in
        rw (ap (λ k. listed k 0 s.slots) whole)
          (drain_for_lem (suc s.num_slots) 0 s st v (omega arith) (omega arith) (λ i h. elim h [ ]))
