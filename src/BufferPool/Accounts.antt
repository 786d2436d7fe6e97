-- ===== src/BufferPool/Accounts.antt =====
-- Whose the buffers of a pool are: the flags of a pool against the list of the live buffers
-- (buffer_pool.rs).
use tansiv.Base.{
  ℕ, zero, suc, ◌+◌, ◌≤◌, ◌<◌, ◌≡◌, refl, true, inl, inr, List, [], ◌∷◌, ◌++◌, arith, Bool-cases,
  bit, count-sum, sum, sum_same, sum_change, sum-add, sym, ap, ◌∙◌, length, ok,
}
use tansiv.BufferPool.{InnerBuffer, BufferPool, Buffer, new, allocate_buffer, drop}
use tansiv.BufferPool.Alloc.{allocate_buffer-Served, busy_count}
use tansiv.BufferPool.Handles.{occurrences}

module _ (T : InnerBuffer) where
  -- Each slot that is busy is one of the pool's and has one buffer in the two lists; no other has any.
  pub record Account (pool : BufferPool T) (xs ys : List (Buffer T)) : Type 0 where
    pub owned : (i : ℕ) → occurrences T i xs + occurrences T i ys ≡ bit (pool.buffer_busy i)
    pub within : (i : ℕ) → pool.buffer_busy i ≡ true → i < pool.num_buffers

  pub new-Account : (z n : ℕ) → Account (new T z n) [] []
  unfolding new
  new-Account z n = record { owned = λ i. refl; within = λ i h. cc }

  pub occurrences-append :
      (i : ℕ) (xs ys : List (Buffer T))
      → occurrences T i (xs ++ ys) ≡ occurrences T i xs + occurrences T i ys
  occurrences-append i [] ys = omega arith
  occurrences-append i (x ∷ xs) ys = omega (arith, occurrences-append i xs ys)

  -- The lists may be told apart and ordered as one likes.
  pub Account-occurrences :
      {pool : BufferPool T} {xs ys xs' ys' : List (Buffer T)}
      → ((i : ℕ)
          → occurrences T i xs + occurrences T i ys ≡ occurrences T i xs' + occurrences T i ys')
      → Account pool xs ys
      → Account pool xs' ys'
  Account-occurrences same a = record {
    owned = λ i. omega (arith, same i, a.owned i);
    within = a.within;
  }

  pub Account-allocate_buffer :
      {pool after : BufferPool T} {xs ys : List (Buffer T)} {b : Buffer T} (size : ℕ)
      → allocate_buffer T pool size ≡ ok (b, after)
      → Account pool xs ys
      → Account after (b ∷ xs) ys
  Account-allocate_buffer {pool} {b = b} size e a =
      let s = allocate_buffer-Served T pool size e in
      record {
        owned = λ i. ground (arith, s.same, s.free, a.owned i);
        within = λ i h. ground (arith, s.same, s.below, a.within i);
      }

  pub Account-drop :
      {pool : BufferPool T} {xs ys : List (Buffer T)} (b : Buffer T)
      → Account pool (b ∷ xs) ys
      → Account (drop T pool b) xs ys
  unfolding drop
  Account-drop b a = record {
    owned = λ i. ground (arith, a.owned i);
    within = λ i h. ground (arith, a.within i);
  }

  -- The buffer at the head of a list is one of the pool's, and its flag is set.
  pub Account-busy :
      {pool : BufferPool T} {xs ys : List (Buffer T)} (b : Buffer T)
      → Account pool (b ∷ xs) ys
      → (b.index < pool.num_buffers) × (pool.buffer_busy b.index ≡ true)
  Account-busy b a = ground (arith, a.owned b.index, a.within b.index)

  sum-occurrences :
      (n : ℕ) (xs : List (Buffer T))
      → ((i : ℕ) → n ≤ i → occurrences T i xs ≡ 0)
      → sum n (λ i. occurrences T i xs) ≡ length xs
  sum-occurrences n [] h = sum_none n
    where
      sum_none : (k : ℕ) → sum k (λ i. 0) ≡ 0
      sum_none = elim [ zero ↦ refl | suc (k → ih) ↦ omega (arith, ih) ]
  sum-occurrences n (b ∷ xs) h =
      let below : b.index < n = grind (arith, h b.index) in
      ground (
        arith,
        sum_change n b.index (λ i. occurrences T i (b ∷ xs)) (λ i. occurrences T i xs) below
            (λ j ne. ground arith),
        sum-occurrences n xs (λ i le. omega (arith, h i le)),
      )

  -- The number of flags that are set is the number of live buffers.
  pub busy_count-Account :
      {pool : BufferPool T} {xs ys : List (Buffer T)}
      → Account pool xs ys
      → busy_count T pool ≡ length xs + length ys
  busy_count-Account {pool} {xs} {ys} a =
      let none_above : (i : ℕ)
          → pool.num_buffers ≤ i
          → occurrences T i xs + occurrences T i ys ≡ 0 =
        λ i le. elim (Bool-cases (pool.buffer_busy i)) [
          | inl busy ↦ absurd (omega (arith, a.within i busy))
          | inr idle ↦ a.owned i ∙ ap bit idle
        ] in
      omega (
        arith,
        count-sum pool.num_buffers pool.buffer_busy,
        sum_same pool.num_buffers (λ i. bit (pool.buffer_busy i))
            (λ i. occurrences T i xs + occurrences T i ys) (λ i. sym (a.owned i)),
        sum-add pool.num_buffers (λ i. occurrences T i xs) (λ i. occurrences T i ys),
        sum-occurrences pool.num_buffers xs (λ i le. omega (arith, none_above i le)),
        sum-occurrences pool.num_buffers ys (λ i le. omega (arith, none_above i le)),
      )
