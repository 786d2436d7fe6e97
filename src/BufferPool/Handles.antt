-- ===== src/BufferPool/Handles.antt =====
-- Any history of allocations and drops of one pool (buffer_pool.rs), and the buffers alive after it.
use tansiv.Base.{
  ℕ, zero, suc, ◌+◌, ◌≤◌, ◌≡◌, refl, ap, inl, inr, List, [], ◌∷◌, none, some, arith, ◌==◌,
  Option-cases, get_elem?, bit, Result, ok, err, panicked,
}
use tansiv.BufferPool.{InnerBuffer, BufferPool, Buffer, new, allocate_buffer, drop}
use tansiv.BufferPool.Alloc.{allocate_buffer-Served}

-- A holder asks for a buffer of a size, or drops the buffer at a place of the list of live ones.
pub data Op : Type 0 where
  allocates drops : ℕ → Op

abbrev pub remove_at {ℓ} : {A : Type ℓ} → ℕ → List A → List A
remove_at k [] = []
remove_at zero (x ∷ xs) = xs
remove_at (suc k) (x ∷ xs) = x ∷ remove_at k xs

module _ (T : InnerBuffer) where
  pub record Holders : Type 0 where
    pub pool : BufferPool T
    pub live : List (Buffer T)

  -- Buffers are not cloned: the list of live ones changes by these two steps alone.
  unfoldable pub step : Holders → Op → Holders
  step s (allocates size) = elim (allocate_buffer T s.pool size) [
    | ok (b, after) ↦ record { pool = after; live = b ∷ s.live }
    | err e ↦ s
    | panicked ↦ s
  ]
  step s (drops k) = elim (get_elem? s.live k) [
    | none ↦ s
    | some b ↦ record { pool = drop T s.pool b; live = remove_at k s.live }
  ]

  unfoldable pub run : Holders → List Op → Holders
  run s [] = s
  run s (o ∷ os) = run (step s o) os

  unfoldable pub fresh : ℕ → ℕ → Holders
  fresh buffer_size num_buffers = record { pool = new T buffer_size num_buffers; live = [] }

  -- How many live buffers have the index `i`.
  abbrev pub occurrences : ℕ → List (Buffer T) → ℕ
  occurrences i [] = 0
  occurrences i (b ∷ bs) = bit (b.index == i) + occurrences i bs

  occurrences-remove_at :
      (i k : ℕ) (bs : List (Buffer T)) (b : Buffer T)
      → get_elem? bs k ≡ some b
      → occurrences i (remove_at k bs) + bit (b.index == i) ≡ occurrences i bs
  occurrences-remove_at i k [] b h = cc
  occurrences-remove_at i zero (x ∷ bs) b h = ground arith
  occurrences-remove_at i (suc k) (x ∷ bs) b h = omega (arith, occurrences-remove_at i k bs b h)

  occurrences_pos :
      (k : ℕ) (bs : List (Buffer T)) (b : Buffer T)
      → get_elem? bs k ≡ some b
      → 1 ≤ occurrences b.index bs
  occurrences_pos k [] b h = cc
  occurrences_pos zero (x ∷ bs) b h = ground arith
  occurrences_pos (suc k) (x ∷ bs) b h = omega (arith, occurrences_pos k bs b h)

  -- Two places with one index are the same place, where no index occurs twice.
  places_eq :
      (j k : ℕ) (bs : List (Buffer T)) (b c : Buffer T)
      → get_elem? bs j ≡ some b
      → get_elem? bs k ≡ some c
      → b.index ≡ c.index
      → occurrences b.index bs ≤ 1
      → j ≡ k
  places_eq j k [] b c hj hk e o = cc
  places_eq zero zero (x ∷ bs) b c hj hk e o = refl
  places_eq zero (suc k) (x ∷ bs) b c hj hk e o = absurd (ground (arith, occurrences_pos k bs c hk))
  places_eq (suc j) zero (x ∷ bs) b c hj hk e o = absurd (ground (arith, occurrences_pos j bs b hj))
  places_eq (suc j) (suc k) (x ∷ bs) b c hj hk e o =
      ap suc (places_eq j k bs b c hj hk e (omega arith))

  -- The flag of a slot says how many live buffers have it: none or one.
  abbrev pub Owned : Holders → Type 0
  Owned s = (i : ℕ) → occurrences i s.live ≡ bit (s.pool.buffer_busy i)

  step-Owned : (s : Holders) (o : Op) → Owned s → Owned (step s o)
  unfolding step drop
  step-Owned s (allocates size) h i = go (allocate_buffer T s.pool size) refl
    where
      go :
          (r : Result _ (Buffer T × BufferPool T))
          → allocate_buffer T s.pool size ≡ r
          → occurrences i (step s (allocates size)).live
            ≡ bit ((step s (allocates size)).pool.buffer_busy i)
      go (ok (b, after)) e =
          let v = allocate_buffer-Served T s.pool size e in
          rw (e, step) (ground (arith, v.same, v.free, h i))
      go (err x) e = rw (e, step) (h i)
      go panicked e = rw (e, step) (h i)
  step-Owned s (drops k) h i = elim (Option-cases (get_elem? s.live k)) [
    | inl e ↦ rw (e, step) (h i)
    | inr (b, e) ↦
        rw (e, step)
          (ground (
            arith,
            h i,
            h b.index,
            occurrences-remove_at i k s.live b e,
            occurrences_pos k s.live b e,
          ))
  ]

  run-Owned : (s : Holders) (os : List Op) → Owned s → Owned (run s os)
  unfolding run
  run-Owned s [] h = h
  run-Owned s (o ∷ os) h = run-Owned (step s o) os (step-Owned s o h)

  fresh-Owned : (z n : ℕ) → Owned (fresh z n)
  unfolding fresh new
  fresh-Owned z n i = refl

  -- After any history of allocations and drops, no two live buffers share a slot.
  pub live_distinct :
      (z n : ℕ) (os : List Op) (j k : ℕ) (b c : Buffer T)
      → get_elem? (run (fresh z n) os).live j ≡ some b
      → get_elem? (run (fresh z n) os).live k ≡ some c
      → b.index ≡ c.index
      → j ≡ k
  live_distinct z n os j k b c hj hk e =
      places_eq j k (run (fresh z n) os).live b c hj hk e
        (ground (arith, run-Owned (fresh z n) os (fresh-Owned z n) b.index))
