-- ===== src/Tests/Locks.antt =====
-- A run of the lock, in which one thread writes and then another reads.
use tansiv.Base.{ℕ, suc, ◌+◌, ◌/◌, ◌≤◌, ◌≡◌, refl, arith}
use tansiv.SeqLock.{
  outside, System, Reach, start, later, call_write, write_released, swap_wins, load_value,
  store_first, store_second, leave, call_read, read_released, load_first, load_second, check_passes,
}
use tansiv.SeqLock.Progress.{Alone, write_solo}
use tansiv.SeqLock.Safety.{read_untorn, writers_exclusive, writes_chained}

abbrev both_up : ℕ × ℕ → ℕ × ℕ
both_up v = (v.0 + 1, v.1 + 2)

-- Thread 1 is about to release the lock.
abbrev writing : (s : System ℕ ℕ) × Reach 5 6 s
writing = (
  _,
  later
      (later
        (later
          (later
            (later (later start (call_write 1 both_up refl)) (write_released 1 both_up refl refl))
            (swap_wins 1 0 both_up refl refl))
          (load_value 1 0 both_up (6, 8) refl refl))
        (store_first 1 0 both_up (6, 8) refl))
      (store_second 1 0 both_up (6, 8) refl),
)

writers_exclusive_example : ◌≡◌ {A = ℕ} 1 1
writers_exclusive_example = writers_exclusive writing.1 (omega arith) 1 1 refl refl

-- Thread 0 has read after the write.
abbrev reading : (s : System ℕ ℕ) × Reach 5 6 s
reading = (
  _,
  later
      (later
        (later
          (later (later (later writing.1 (leave 1 0 both_up (6, 8) refl)) (call_read 0 refl))
            (read_released 0 refl refl))
          (load_first 0 2 refl))
        (load_second 0 2 6 refl))
      (check_passes 0 2 6 8 refl refl),
)

writes_chained_example : reading.0.published 1 ≡ reading.0.applied 0 (reading.0.published 0)
writes_chained_example = writes_chained reading.1 (omega arith) 0 (omega arith)

read_untorn_example :
    (2 / 2 ≤ reading.0.turns / 2)
    × (6 ≡ (reading.0.published (2 / 2)).0)
    × (8 ≡ (reading.0.published (2 / 2)).1)
read_untorn_example = read_untorn reading.1 (omega arith) 0 2 6 8 refl

-- Thread 0 has loaded the count, and thread 1 waits to write.
abbrev waiting : (s : System ℕ ℕ) × Reach 5 6 s
waiting = (
  _,
  later (later (later start (call_read 0 refl)) (read_released 0 refl refl))
      (call_write 1 both_up refl),
)

write_solo_example :
    (s' : System ℕ ℕ) × Alone 1 waiting.0 6 s'
    × (s'.threads 1 ≡ outside)
    × (s'.turns ≡ 0 + 2)
    × (s'.published (suc (0 / 2)) ≡ both_up (5, 6))
    × ((s'.first, s'.second) ≡ both_up (5, 6))
write_solo_example = write_solo waiting.1 (omega arith) refl 1 both_up refl
