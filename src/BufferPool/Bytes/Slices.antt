-- ===== src/BufferPool/Bytes/Slices.antt =====
-- Reads and writes of slices of one vector (bytes_buffer.rs), and why buffers do not overlap.
use tansiv.Base.{
  ℕ, zero, suc, ◌+◌, ◌-◌, ◌*◌, ◌≤◌, ◌<◌, ◌≡◌, ◌≢◌, refl, ap, ◌⊎◌, inl, inr, List, [], ◌∷◌, arith,
  length, take,
}
use tansiv.BufferPool.{BufferPool, Buffer, deref, deref_mut}
use tansiv.BufferPool.Bytes.{
  BytesBuffer, slice, overlay, write_at, get, get_mut, bytes, buffer_bounds,
}

length-overlay : (ds xs : List ℕ) → length (overlay ds xs) ≡ length xs
length-overlay [] xs = refl
length-overlay (d ∷ ds) [] = refl
length-overlay (d ∷ ds) (x ∷ xs) = ap suc (length-overlay ds xs)

pub length-write_at : (xs : List ℕ) (s : ℕ) (ds : List ℕ) → length (write_at xs s ds) ≡ length xs
length-write_at xs zero ds = length-overlay ds xs
length-write_at [] (suc s) ds = refl
length-write_at (x ∷ xs) (suc s) ds = ap suc (length-write_at xs s ds)

take-overlay : (ds xs : List ℕ) → length ds ≤ length xs → take (length ds) (overlay ds xs) ≡ ds
take-overlay [] xs h = refl
take-overlay (d ∷ ds) [] h = elim h [ ]
take-overlay (d ∷ ds) (x ∷ xs) h = ap (λ l. d ∷ l) (take-overlay ds xs (omega arith))

pub slice-write_at_self :
    (xs : List ℕ) (s : ℕ) (ds : List ℕ)
    → s + length ds ≤ length xs
    → slice (write_at xs s ds) s (length ds) ≡ ds
slice-write_at_self xs zero ds h = take-overlay ds xs (omega arith)
slice-write_at_self [] (suc s) ds h = absurd (omega arith)
slice-write_at_self (x ∷ xs) (suc s) ds h = slice-write_at_self xs s ds (omega arith)

take-write_at_above :
    (xs : List ℕ) (s : ℕ) (ds : List ℕ) (n : ℕ) → n ≤ s → take n (write_at xs s ds) ≡ take n xs
take-write_at_above xs s ds zero h = refl
take-write_at_above xs zero ds (suc n) h = absurd (omega arith)
take-write_at_above [] (suc s) ds (suc n) h = refl
take-write_at_above (x ∷ xs) (suc s) ds (suc n) h =
    ap (λ l. x ∷ l) (take-write_at_above xs s ds n (omega arith))

-- A slice that ends before the store starts reads the same.
pub slice-write_at_above :
    (xs : List ℕ) (s : ℕ) (ds : List ℕ) (r n : ℕ)
    → r + n ≤ s
    → slice (write_at xs s ds) r n ≡ slice xs r n
slice-write_at_above xs s ds zero n h = take-write_at_above xs s ds n (omega arith)
slice-write_at_above xs zero ds (suc r) n h = absurd (omega arith)
slice-write_at_above [] (suc s) ds (suc r) n h = refl
slice-write_at_above (x ∷ xs) (suc s) ds (suc r) n h =
    slice-write_at_above xs s ds r n (omega arith)

slice-overlay_below :
    (ds xs : List ℕ) (r n : ℕ) → length ds ≤ r → slice (overlay ds xs) r n ≡ slice xs r n
slice-overlay_below [] xs r n h = refl
slice-overlay_below (d ∷ ds) xs zero n h = absurd (omega arith)
slice-overlay_below (d ∷ ds) [] (suc r) n h = refl
slice-overlay_below (d ∷ ds) (x ∷ xs) (suc r) n h = slice-overlay_below ds xs r n (omega arith)

-- A slice that starts where the store has ended reads the same.
pub slice-write_at_below :
    (xs : List ℕ) (s : ℕ) (ds : List ℕ) (r n : ℕ)
    → s + length ds ≤ r
    → slice (write_at xs s ds) r n ≡ slice xs r n
slice-write_at_below xs zero ds r n h = slice-overlay_below ds xs r n (omega arith)
slice-write_at_below xs (suc s) ds zero n h = absurd (omega arith)
slice-write_at_below [] (suc s) ds (suc r) n h = refl
slice-write_at_below (x ∷ xs) (suc s) ds (suc r) n h =
    slice-write_at_below xs s ds r n (omega arith)

length-take_le : (n : ℕ) (xs : List ℕ) → length (take n xs) ≤ n
length-take_le zero xs = omega arith
length-take_le (suc n) [] = omega arith
length-take_le (suc n) (x ∷ xs) = omega (arith, length-take_le n xs)

take_all : (n : ℕ) (xs : List ℕ) → length xs ≡ n → take n xs ≡ xs
take_all zero [] h = refl
take_all zero (x ∷ xs) h = absurd (omega arith)
take_all (suc n) [] h = absurd (omega arith)
take_all (suc n) (x ∷ xs) h = ap (λ l. x ∷ l) (take_all n xs (omega arith))

-- The slot `i` of size `z` ends where the next slot starts, or before.
slots_apart : (z i j : ℕ) → i < j → z * i + z ≤ z * j
slots_apart z i j h = grind arith

-- Ranges of distinct indexes are disjoint, and lie within the vector.
pub buffer_bounds_disjoint :
    (b c : BytesBuffer) (z i j : ℕ)
    → b.size ≤ z
    → c.size ≤ z
    → i ≢ j
    → ((buffer_bounds b z i).end ≤ (buffer_bounds c z j).start)
      ⊎ ((buffer_bounds c z j).end ≤ (buffer_bounds b z i).start)
buffer_bounds_disjoint b c z i j hb hc ne = grind (arith, slots_apart z i j, slots_apart z j i)

pub buffer_bounds_fit :
    (b : BytesBuffer) (z i n : ℕ) → b.size ≤ z → i < n → (buffer_bounds b z i).end ≤ z * n
buffer_bounds_fit b z i n h lt = omega (arith, slots_apart z i n lt)

-- A store through one buffer is not seen through a buffer of another index.
pub deref-deref_mut_ne :
    (pool : BufferPool bytes) (b c : Buffer bytes) (content : List ℕ)
    → b.inner.size ≤ pool.buffer_size
    → c.inner.size ≤ pool.buffer_size
    → b.index ≢ c.index
    → deref bytes (deref_mut bytes pool b content) c ≡ deref bytes pool c
unfolding deref deref_mut get get_mut
deref-deref_mut_ne pool b c content hb hc ne =
    elim (buffer_bounds_disjoint b.inner c.inner pool.buffer_size b.index c.index hb hc ne) [
      | inl before ↦ slice-write_at_below pool.buffers _ _ _ _ (
          omega (
            arith,
            length-take_le (pool.buffer_size * b.index + b.inner.size - pool.buffer_size * b.index)
                content,
          ))
      | inr after ↦ slice-write_at_above pool.buffers _ _ _ _ (omega arith)
    ]

-- What is stored through a buffer is read back, if it has the buffer's size and the buffer fits.
pub deref-deref_mut_self :
    (pool : BufferPool bytes) (b : Buffer bytes) (content : List ℕ)
    → pool.buffer_size * pool.num_buffers ≤ length pool.buffers
    → b.inner.size ≤ pool.buffer_size
    → b.index < pool.num_buffers
    → length content ≡ b.inner.size
    → deref bytes (deref_mut bytes pool b content) b ≡ content
unfolding deref deref_mut get get_mut
deref-deref_mut_self pool b content whole small lt len =
    let z = pool.buffer_size in
    let size : z * b.index + b.inner.size - z * b.index ≡ length content = omega arith in
    rw size (
      rw (take_all (length content) content refl) (
        slice-write_at_self pool.buffers (z * b.index) content
          (omega (arith, buffer_bounds_fit b.inner z b.index pool.num_buffers small lt))))
