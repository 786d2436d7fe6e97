-- ===== src/SeqLock/Safety.antt =====
-- What readers and writers of the lock may rely on (seq_lock/src/lib.rs).
use tansiv.Base.{ℕ, suc, ◌+◌, ◌/◌, ◌%◌, ◌^◌, ◌≤◌, ◌<◌, ◌≡◌, true, arith}
use tansiv.SeqLock.{System, read_done, write_exit, Reach}
use tansiv.SeqLock.Invariant.{is_writing}
use tansiv.SeqLock.Steps.{Reach-Inv}

module _ {A B : Type 0} {a : A} {b : B} {s : System A B} where
  -- A reader that returns has a value that was whole: the two words are those of one value that a
  -- write, or `new`, has published. The count must not have gone round.
  pub read_untorn :
      Reach a b s
      → s.turns < 2 ^ 64
      → (t k : ℕ) (x : A) (y : B) → s.threads t ≡ read_done k x y
      → (k / 2 ≤ s.turns / 2) × (x ≡ (s.published (k / 2)).0) × (y ≡ (s.published (k / 2)).1)
  read_untorn r h t k x y e = ground (arith, (Reach-Inv r h).place t)

  -- Two threads are never between the swap and the `fetch_add` of `write` together, as long as the count
  -- has not gone round.
  pub writers_exclusive :
      Reach a b s
      → s.turns < 2 ^ 64
      → (t u : ℕ) → is_writing (s.threads t) ≡ true
      → is_writing (s.threads u) ≡ true
      → t ≡ u
  writers_exclusive r h = (Reach-Inv r h).alone

  -- No write is lost, as long as the count has not gone round: each value published is its write's
  -- function of the value published before.
  pub writes_chained :
      Reach a b s
      → s.turns < 2 ^ 64
      → (j : ℕ) → j < s.turns / 2
      → s.published (suc j) ≡ s.applied j (s.published j)
  writes_chained r h = (Reach-Inv r h).chained

  -- The two assertions at the end of `write` hold, as long as the count has not gone round: the count that `fetch_add` returns is odd, and is
  -- one more than the count at which the lock was taken.
  pub write_asserts :
      Reach a b s
      → s.turns < 2 ^ 64
      → (t k : ℕ) (f : A × B → A × B) (v : A × B) → s.threads t ≡ write_exit f k v
      → (s.seq_count % 2 ≡ 1) × (k + 1 ≡ s.seq_count)
  write_asserts r h t k f v e = ground (arith, (Reach-Inv r h).place t, (Reach-Inv r h).wrapped)
