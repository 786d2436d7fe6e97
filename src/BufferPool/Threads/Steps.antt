-- ===== src/BufferPool/Threads/Steps.antt =====
-- Every step keeps the ownership of buffers (buffer_pool.rs).
use tansiv.Base.{ℕ, ◌+◌, ◌≡◌, ◌≢◌, update, true, none, some, arith, ◌==◌, Bool-cases, inl, inr}
use tansiv.BufferPool.Builders.{Flatbuffers}
use tansiv.BufferPool.Threads.{
  Pc, outside, scanning, resetting, System, Step, call_allocate, swap_taken, swap_free, no_buffer,
  reset, write, drop, Reach, start, later,
}
use tansiv.BufferPool.Threads.Invariant.{holds, slot_of, Kept, Held, Owned, Inv, init-Inv}

module _ {F : Flatbuffers} {s : System F} (inv : Inv F s) where
  open inv use {kept, held, distinct, unique, apart, owned}

  Step-Kept : {s' : System F} → Step F s s' → (g : ℕ) → Kept F s'.pool (s'.live g)
  Step-Kept (call_allocate t size e le) g = kept g
  Step-Kept (swap_taken t i e lt b) g = kept g
  Step-Kept (swap_free t i e lt b) g = ground (arith, kept g)
  Step-Kept (no_buffer t i e le) g = kept g
  Step-Kept (reset t i h e f) g = ground (arith, kept g, held t, apart t g i)
  Step-Kept (write h i old new e) g = ground (arith, kept g, kept h, distinct g h i)
  Step-Kept (drop h i c e) g = ground (arith, kept g, kept h, distinct g h i)

  Step-Held : {s' : System F} → Step F s s' → (u : ℕ) → Held F s'.pool (s'.threads u)
  Step-Held (call_allocate t size e le) u = ground (arith, held u)
  Step-Held (swap_taken t i e lt b) u = ground (arith, held u)
  Step-Held (swap_free t i e lt b) u = ground (arith, held u)
  Step-Held (no_buffer t i e le) u = ground (arith, held u)
  Step-Held (reset t i h e f) u = ground (arith, held u)
  Step-Held (write h i old new e) u = held u
  Step-Held (drop h i c e) u = ground (arith, held u, apart u h i)

  Step-distinct :
      {s' : System F}
      → Step F s s'
      → (x y j : ℕ) → slot_of F (s'.live x) ≡ some j
      → slot_of F (s'.live y) ≡ some j
      → x ≡ y
  Step-distinct (call_allocate t size e le) x y j p q = distinct x y j p q
  Step-distinct (swap_taken t i e lt b) x y j p q = distinct x y j p q
  Step-distinct (swap_free t i e lt b) x y j p q = distinct x y j p q
  Step-distinct (no_buffer t i e le) x y j p q = distinct x y j p q
  Step-distinct (reset t i h e f) x y j p q =
      ground (arith, distinct x y j, apart t x i, apart t y i)
  Step-distinct (write h i old new e) x y j p q =
      ground (arith, distinct x y j, distinct h x i, distinct h y i)
  Step-distinct (drop h i c e) x y j p q = ground (arith, distinct x y j)

  Step-unique :
      {s' : System F}
      → Step F s s'
      → (x y j : ℕ) → holds (s'.threads x) ≡ some j
      → holds (s'.threads y) ≡ some j
      → x ≡ y
  Step-unique (call_allocate t size e le) x y j p q = ground (arith, unique x y j)
  Step-unique (swap_taken t i e lt b) x y j p q = ground (arith, unique x y j)
  Step-unique (swap_free t i e lt b) x y j p q = ground (arith, unique x y j, held x, held y)
  Step-unique (no_buffer t i e le) x y j p q = ground (arith, unique x y j)
  Step-unique (reset t i h e f) x y j p q = ground (arith, unique x y j)
  Step-unique (write h i old new e) x y j p q = unique x y j p q
  Step-unique (drop h i c e) x y j p q = unique x y j p q

  Step-apart :
      {s' : System F}
      → Step F s s'
      → (x y j : ℕ) → holds (s'.threads x) ≡ some j
      → slot_of F (s'.live y) ≢ some j
  Step-apart (call_allocate t size e le) x y j p = ground (arith, apart x y j)
  Step-apart (swap_taken t i e lt b) x y j p = ground (arith, apart x y j)
  Step-apart (swap_free t i e lt b) x y j p = ground (arith, apart x y j, kept y)
  Step-apart (no_buffer t i e le) x y j p = ground (arith, apart x y j)
  Step-apart (reset t i h e f) x y j p = ground (arith, apart x y j, unique x t j)
  Step-apart (write h i old new e) x y j p = ground (arith, apart x y j, apart x h j)
  Step-apart (drop h i c e) x y j p = ground (arith, apart x y j)

  -- An owner is still one after a step of a call that holds no slot.
  still :
      (t : ℕ) (pc : Pc)
      → holds (s.threads t) ≡ none
      → (j : ℕ) → s.pool.buffer_busy j ≡ true
      → Owned F (record s { threads = update s.threads t pc }) j
  still t pc e j b = elim (owned j b) [
    | inl (h, q) ↦ inl (h, q)
    | inr (u, q) ↦ inr (u, ground arith)
  ]

  Step-Owned : {s' : System F} → Step F s s' → (j : ℕ) → s'.pool.buffer_busy j ≡ true → Owned F s' j
  Step-Owned (call_allocate t size e le) j b = still t (scanning 0) (ground arith) j b
  Step-Owned (swap_taken t i e lt q) j b = still t (scanning (i + 1)) (ground arith) j b
  Step-Owned (swap_free t i e lt q) j b = elim (Bool-cases (i == j)) [
    | inl at ↦ inr (t, ground arith)
    | inr away ↦ still t (resetting i) (ground arith) j (ground arith)
  ]
  Step-Owned (no_buffer t i e le) j b = still t outside (ground arith) j b
  Step-Owned (reset t i h e f) j b = elim (owned j b) [
    | inl (g, q) ↦ inl (g, ground arith)
    | inr (u, q) ↦ elim (Bool-cases (t == u)) [
      | inl same ↦ inl (h, ground arith)
      | inr other ↦ inr (u, ground arith)
    ]
  ]
  Step-Owned (write h i old new e) j b = elim (owned j b) [
    | inl (g, q) ↦ inl (g, ground arith)
    | inr (u, q) ↦ inr (u, q)
  ]
  Step-Owned (drop h i c e) j b = elim (owned j (ground arith)) [
    | inl (g, q) ↦ inl (g, ground arith)
    | inr (u, q) ↦ inr (u, q)
  ]

  pub Step-Inv : {s' : System F} → Step F s s' → Inv F s'
  Step-Inv st = record {
    kept = Step-Kept st;
    held = Step-Held st;
    distinct = Step-distinct st;
    unique = Step-unique st;
    apart = Step-apart st;
    owned = Step-Owned st;
  }

pub Reach-Inv : {F : Flatbuffers} {z n : ℕ} {s : System F} → Reach F z n s → Inv F s
Reach-Inv {F} {z} {n} start = init-Inv F z n
Reach-Inv (later r st) = Step-Inv (Reach-Inv r) st
