-- ===== src/SeqLock.antt =====
-- rust-deps/seq_lock/src/lib.rs: a value guarded by a sequence count. Any number of threads read and
-- write; a step is one access to shared memory, but for the load of the value by a writer that holds the
-- lock, which takes both words at once: no other thread stores them meanwhile. The value takes two words,
-- `first` and `second`. A reader loads them, and a writer stores them, one after the other, so that a torn
-- read is possible in the model.
pub mod Invariant
pub mod Steps
pub mod Safety
pub mod Progress
use tansiv.Base.{ℕ, suc, ◌+◌, ◌/◌, ◌%◌, ◌^◌, ◌≡◌, ◌≢◌, update}

-- `usize`
abbrev pub word : ℕ → ℕ
word n = n % 2 ^ 64

-- Where a thread stands. The number is the count that the thread has loaded.
pub data Pc (A B : Type 0) : Type 0 where
  outside : Pc A B
  read_wait : Pc A B  -- in `wait_released` of `read`
  read_first : ℕ → Pc A B
  read_second : ℕ → A → Pc A B
  read_check : ℕ → A → B → Pc A B  -- before `check_concurrent_write`
  read_done : ℕ → A → B → Pc A B  -- `read` returns with these words
  write_wait : (A × B → A × B) → Pc A B  -- in `wait_released` of `write`
  write_swap : (A × B → A × B) → ℕ → Pc A B  -- before `compare_and_swap`
  write_read : (A × B → A × B) → ℕ → Pc A B  -- the lock is held
  write_first : (A × B → A × B) → ℕ → A × B → Pc A B
  write_second : (A × B → A × B) → ℕ → A × B → Pc A B
  write_exit : (A × B → A × B) → ℕ → A × B → Pc A B  -- before `fetch_add`

-- Ghosts, which no step reads: `turns` is the count without the wrap of `usize`, `published k` the
-- value after `k` writes, and `applied k` the function of write `k`.
pub record System (A B : Type 0) : Type 0 where
  pub seq_count : ℕ
  pub first : A
  pub second : B
  pub threads : ℕ → Pc A B
  pub turns : ℕ
  pub published : ℕ → A × B
  pub applied : ℕ → A × B → A × B

module _ {A B : Type 0} where
  abbrev pub go : System A B → ℕ → Pc A B → System A B
  go s t p = record s { threads = update s.threads t p }

  pub data Step (s : System A B) : System A B → Type 0 where
    call_read : (t : ℕ) → s.threads t ≡ outside → Step s (go s t read_wait)
    read_spin : (t : ℕ) → s.threads t ≡ read_wait → s.seq_count % 2 ≢ 0 → Step s (go s t read_wait)
    read_released :
        (t : ℕ)
        → s.threads t ≡ read_wait
        → s.seq_count % 2 ≡ 0
        → Step s (go s t (read_first s.seq_count))
    load_first : (t k : ℕ) → s.threads t ≡ read_first k → Step s (go s t (read_second k s.first))
    load_second :
        (t k : ℕ) (a : A)
        → s.threads t ≡ read_second k a
        → Step s (go s t (read_check k a s.second))
    check_passes :
        (t k : ℕ) (a : A) (b : B)
        → s.threads t ≡ read_check k a b
        → k ≡ s.seq_count
        → Step s (go s t (read_done k a b))
    check_fails :
        (t k : ℕ) (a : A) (b : B)
        → s.threads t ≡ read_check k a b
        → k ≢ s.seq_count
        → Step s (go s t read_wait)
    read_returns :
        (t k : ℕ) (a : A) (b : B) → s.threads t ≡ read_done k a b → Step s (go s t outside)
    call_write :
        (t : ℕ) (f : A × B → A × B) → s.threads t ≡ outside → Step s (go s t (write_wait f))
    write_spin :
        (t : ℕ) (f : A × B → A × B)
        → s.threads t ≡ write_wait f
        → s.seq_count % 2 ≢ 0
        → Step s (go s t (write_wait f))
    write_released :
        (t : ℕ) (f : A × B → A × B)
        → s.threads t ≡ write_wait f
        → s.seq_count % 2 ≡ 0
        → Step s (go s t (write_swap f s.seq_count))
    swap_wins :
        (t k : ℕ) (f : A × B → A × B)
        → s.threads t ≡ write_swap f k
        → s.seq_count ≡ k
        → Step s (record s {
          seq_count = word (k + 1);
          turns = suc s.turns;
          threads = update s.threads t (write_read f k);
        })
    swap_loses :
        (t k : ℕ) (f : A × B → A × B)
        → s.threads t ≡ write_swap f k
        → s.seq_count ≢ k
        → Step s (go s t (write_wait f))
    load_value :
        (t k : ℕ) (f : A × B → A × B) (v : A × B)
        → s.threads t ≡ write_read f k
        → v ≡ f (s.first, s.second)
        → Step s (go s t (write_first f k v))
    store_first :
        (t k : ℕ) (f : A × B → A × B) (v : A × B)
        → s.threads t ≡ write_first f k v
        → Step s (record s { first = v.0; threads = update s.threads t (write_second f k v) })
    store_second :
        (t k : ℕ) (f : A × B → A × B) (v : A × B)
        → s.threads t ≡ write_second f k v
        → Step s (record s { second = v.1; threads = update s.threads t (write_exit f k v) })
    leave :
        (t k : ℕ) (f : A × B → A × B) (v : A × B)
        → s.threads t ≡ write_exit f k v
        → Step s (record s {
          seq_count = word (s.seq_count + 1);
          turns = suc s.turns;
          published = update s.published (suc (k / 2)) v;
          applied = update s.applied (k / 2) f;
          threads = update s.threads t outside;
        })

  -- `SeqLock::new(value)`
  abbrev pub init : A → B → System A B
  init a b = record {
    seq_count = 0;
    first = a;
    second = b;
    threads = λ _. outside;
    turns = 0;
    published = λ _. (a, b);
    applied = λ _ v. v;
  }

  pub data Reach (a : A) (b : B) : System A B → Type 0 where
    start : Reach a b (init a b)
    later : {s t : System A B} → Reach a b s → Step s t → Reach a b t
