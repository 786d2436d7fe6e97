-- ===== src/BufferPool/Threads/Safety.antt =====
-- No two owners ever share a buffer, whatever the interleaving (buffer_pool.rs).
use tansiv.Base.{ℕ, ◌<◌, ◌≡◌, ◌≢◌, ◌↔◌, true, some, arith, inl, inr}
use tansiv.BufferPool.Builders.{Flatbuffers}
use tansiv.BufferPool.Threads.{System, Live, Reach}
use tansiv.BufferPool.Threads.Invariant.{holds, slot_of, Owned}
use tansiv.BufferPool.Threads.Steps.{Reach-Inv}

module _ {F : Flatbuffers} {z n : ℕ} {s : System F} where
  -- Under any interleaving of allocations, writes and drops, a buffer that is in use reads as what its
  -- owner has last made of it, its slot is one of the pool's and busy, no other buffer in use has that
  -- slot, and no call is about to reset it.
  pub live_alone :
      Reach F z n s
      → (h : ℕ) (l : Live F) → s.live h ≡ some l
      → (s.pool.buffers l.index ≡ l.content)
        × (l.index < s.pool.num_buffers)
        × (s.pool.buffer_busy l.index ≡ true)
        × ((g : ℕ) → slot_of F (s.live g) ≡ some l.index → g ≡ h)
        × ((t : ℕ) → holds (s.threads t) ≢ some l.index)
  live_alone r h l e =
      let inv = Reach-Inv r in
      (
        ground (arith, inv.kept h),
        ground (arith, inv.kept h),
        ground (arith, inv.kept h),
        (λ g q. inv.distinct g h l.index q (ground arith)),
        λ t q. inv.apart t h l.index q (ground arith),
      )

  -- No slot is lost: under any interleaving a slot is busy exactly if it is that of a buffer in use, or of
  -- a call that is about to hand it out.
  pub busy-Owned : Reach F z n s → (i : ℕ) → (s.pool.buffer_busy i ≡ true) ↔ Owned F s i
  busy-Owned r i =
      let inv = Reach-Inv r in
      (
        inv.owned i,
        λ o. elim o [
          | inl (h, q) ↦ ground (arith, inv.kept h)
          | inr (t, q) ↦ ground (arith, inv.held t)
        ],
      )
