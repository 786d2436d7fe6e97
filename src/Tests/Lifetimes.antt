-- ===== src/Tests/Lifetimes.antt =====
-- Threads that share a pool of buffers, at a concrete state.
use tansiv.Base.{ℕ, ◌<◌, ◌≡◌, ◌≢◌, ◌↔◌, refl, true, some, arith}
use tansiv.BufferPool
use tansiv.BufferPool.Threads.{
  System, Live, Reach, start, later, call_allocate, swap_taken, swap_free, reset, write,
}
use tansiv.BufferPool.Threads.Invariant.{holds, slot_of, Owned}
use tansiv.BufferPool.Threads.Safety.{live_alone, busy-Owned}
use tansiv.Tests.Fixtures.{flatbuffers}

-- Two threads scan; one has a buffer, has written to it, and the other has claimed the next.
abbrev allocating : (s : System flatbuffers) × Reach flatbuffers 8 2 s
unfolding BufferPool.new
allocating = (
  _,
  later
      (later
        (later
          (later
            (later
              (later (later start (call_allocate 4 5 refl (omega arith)))
                (call_allocate 6 8 refl (omega arith)))
              (swap_free 4 0 refl (omega arith) refl))
            (swap_taken 6 0 refl (omega arith) refl))
          (reset 4 0 9 refl refl))
        (swap_free 6 1 refl (omega arith) refl))
      (write 9 0 0 77 refl),
)

abbrev mine : Live flatbuffers
mine = record { index = 0; content = 77 }

live_alone_example :
    (allocating.0.pool.buffers 0 ≡ 77)
    × (0 < allocating.0.pool.num_buffers)
    × (allocating.0.pool.buffer_busy 0 ≡ true)
    × ((g : ℕ) → slot_of flatbuffers (allocating.0.live g) ≡ some 0 → g ≡ 9)
    × ((t : ℕ) → holds (allocating.0.threads t) ≢ some 0)
unfolding BufferPool.new
live_alone_example = live_alone allocating.1 9 mine refl

busy-Owned_example : (allocating.0.pool.buffer_busy 1 ≡ true) ↔ Owned flatbuffers allocating.0 1
busy-Owned_example = busy-Owned allocating.1 1
