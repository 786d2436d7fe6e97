-- ===== src/BufferPool/Threads.antt =====
-- buffer_pool.rs under concurrency: any number of threads allocate buffers of one pool, write to them,
-- hand them on and drop them. A step is one access to shared memory, in the order of the source. The
-- buffers are builders (flatbuilder_buffer.rs), one for each slot.
pub mod Invariant
pub mod Steps
pub mod Safety
use tansiv.Base.{ℕ, ◌+◌, ◌≤◌, ◌<◌, ◌≡◌, Bool, true, false, Option, none, some, update}
use tansiv.BufferPool
use tansiv.BufferPool.{BufferPool}
use tansiv.BufferPool.Builders.{Flatbuffers, builders}

-- Where a call of `allocate_buffer` stands.
pub data Pc : Type 0 where
  outside : Pc
  scanning : ℕ → Pc  -- before the swap of a busy flag
  resetting : ℕ → Pc  -- before the contents of its slot are reset

module _ (F : Flatbuffers) where
  -- A buffer that is in use: its slot, and what its owner has last made of the contents.
  pub record Live : Type 0 where
    pub index : ℕ
    pub content : F.Builder

  -- The buffers in use have names, so that a buffer may pass from one thread to another.
  pub record System : Type 0 where
    pub pool : BufferPool (builders F)
    pub threads : ℕ → Pc
    pub live : ℕ → Option Live

  abbrev pub store_busy : BufferPool (builders F) → ℕ → Bool → BufferPool (builders F)
  store_busy pool i b = record pool { buffer_busy = update pool.buffer_busy i b }

  abbrev pub store_content : BufferPool (builders F) → ℕ → F.Builder → BufferPool (builders F)
  store_content pool i c = record pool { buffers = update pool.buffers i c }

  pub data Step (s : System) : System → Type 0 where
    call_allocate :
        (t size : ℕ)
        → s.threads t ≡ outside
        → size ≤ s.pool.buffer_size
        → Step s (record s { threads = update s.threads t (scanning 0) })
    swap_taken :
        (t i : ℕ)
        → s.threads t ≡ scanning i
        → i < s.pool.num_buffers
        → s.pool.buffer_busy i ≡ true
        → Step s (record s { threads = update s.threads t (scanning (i + 1)) })
    swap_free :
        (t i : ℕ)
        → s.threads t ≡ scanning i
        → i < s.pool.num_buffers
        → s.pool.buffer_busy i ≡ false
        → Step s (record s {
          pool = store_busy s.pool i true;
          threads = update s.threads t (resetting i);
        })
    no_buffer :
        (t i : ℕ)
        → s.threads t ≡ scanning i
        → s.pool.num_buffers ≤ i
        → Step s (record s { threads = update s.threads t outside })
    reset :
        (t i h : ℕ)
        → s.threads t ≡ resetting i
        → s.live h ≡ none
        → Step s (record s {
          pool = store_content s.pool i (F.reset (s.pool.buffers i));
          threads = update s.threads t outside;
          live =
              update s.live h (some (record { index = i; content = F.reset (s.pool.buffers i) }));
        })
    write :
        (h i : ℕ) (old new : F.Builder)
        → s.live h ≡ some (record { index = i; content = old })
        → Step s (record s {
          pool = store_content s.pool i new;
          live = update s.live h (some (record { index = i; content = new }));
        })
    drop :
        (h i : ℕ) (c : F.Builder)
        → s.live h ≡ some (record { index = i; content = c })
        → Step s (record s { pool = store_busy s.pool i false; live = update s.live h none })

  -- `BufferPool::new`, before any call.
  abbrev pub init : ℕ → ℕ → System
  init buffer_size num_buffers = record {
    pool = BufferPool.new (builders F) buffer_size num_buffers;
    threads = λ _. outside;
    live = λ _. none;
  }

  pub data Reach (z n : ℕ) : System → Type 0 where
    start : Reach z n (init z n)
    later : {s t : System} → Reach z n s → Step s t → Reach z n t
