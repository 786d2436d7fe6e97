-- ===== src/BufferPool/Threads/Invariant.antt =====
-- Who owns which slot of the pool (buffer_pool.rs), true of every reachable state.
use tansiv.Base.{ℕ, ◌<◌, ◌≡◌, ◌≢◌, true, Option, none, some, ◌⊎◌}
use tansiv.BufferPool
use tansiv.BufferPool.{BufferPool}
use tansiv.BufferPool.Builders.{Flatbuffers, builders}
use tansiv.BufferPool.Threads.{Pc, outside, scanning, resetting, Live, System, init}

-- The slot of a call between the swap and the reset.
abbrev pub holds : Pc → Option ℕ
holds outside = none
holds (scanning i) = none
holds (resetting i) = some i

module _ (F : Flatbuffers) where
  -- The slot of a buffer that is in use.
  abbrev pub slot_of : Option (Live F) → Option ℕ
  slot_of none = none
  slot_of (some l) = some l.index

  abbrev pub Kept : BufferPool (builders F) → Option (Live F) → Type 0
  Kept pool none = Unit {0}
  Kept pool (some l) =
      (l.index < pool.num_buffers)
      × (pool.buffer_busy l.index ≡ true)
      × (pool.buffers l.index ≡ l.content)

  abbrev pub Held : BufferPool (builders F) → Pc → Type 0
  Held pool outside = Unit {0}
  Held pool (scanning i) = Unit {0}
  Held pool (resetting i) = (i < pool.num_buffers) × (pool.buffer_busy i ≡ true)

  -- A slot is some buffer's, or some call's.
  abbrev pub Owned : System F → ℕ → Type 0
  Owned s i = ((h : ℕ) × (slot_of (s.live h) ≡ some i)) ⊎ ((t : ℕ) × (holds (s.threads t) ≡ some i))

  pub record Inv (s : System F) : Type 0 where
    pub kept : (h : ℕ) → Kept s.pool (s.live h)
    pub held : (t : ℕ) → Held s.pool (s.threads t)
    pub distinct : (g h i : ℕ) → slot_of (s.live g) ≡ some i → slot_of (s.live h) ≡ some i → g ≡ h
    pub unique : (t u i : ℕ) → holds (s.threads t) ≡ some i → holds (s.threads u) ≡ some i → t ≡ u
    pub apart : (t h i : ℕ) → holds (s.threads t) ≡ some i → slot_of (s.live h) ≢ some i
    pub owned : (i : ℕ) → s.pool.buffer_busy i ≡ true → Owned s i

  pub init-Inv : (z n : ℕ) → Inv (init F z n)
  unfolding BufferPool.new
  init-Inv z n = record {
    kept = λ h. tt;
    held = λ t. tt;
    distinct = λ g h i p q. cc;
    unique = λ t u i p q. cc;
    apart = λ t h i p. cc;
    owned = λ i b. cc;
  }
