-- ===== src/SeqLock/Progress.antt =====
-- A thread that runs alone gets through, whatever the others were doing (seq_lock/src/lib.rs).
use tansiv.Base.{
  ℕ, suc, ◌+◌, ◌/◌, ◌%◌, ◌^◌, ◌<◌, ◌≡◌, ◌≢◌, refl, ap, ◌∙◌, sym, update, update_self, update_ne,
  arith,
}
use tansiv.SeqLock.{
  word, Pc, outside, read_wait, read_first, read_second, read_check, read_done, write_wait,
  write_swap, write_read, write_first, write_second, write_exit, System, Step, Reach, go,
  read_released, load_first, load_second, check_passes, write_released, swap_wins, load_value,
  store_first, store_second, leave,
}
use tansiv.SeqLock.Steps.{Reach-Inv}

module _ {A B : Type 0} where
  -- Steps of one thread, which leave the others where they stand.
  pub data Alone (t : ℕ) (s : System A B) : ℕ → System A B → Type 0 where
    nothing : Alone t s 0 s
    more :
        {n : ℕ} {s₁ s₂ : System A B}
        → Alone t s n s₁
        → Step s₁ s₂
        → ((u : ℕ) → u ≢ t → s₂.threads u ≡ s₁.threads u)
        → Alone t s (suc n) s₂

  module _ {a : A} {b : B} {s : System A B} (r : Reach a b s) (small : s.turns < 2 ^ 64)
      (free : s.turns % 2 ≡ 0) (t : ℕ) where
    apart : (threads : ℕ → Pc A B) (p : Pc A B) (u : ℕ) → u ≢ t → update threads t p u ≡ threads u
    apart threads p u d = update_ne threads t u p (λ e. d (sym e))

    count : s.seq_count ≡ s.turns
    count = omega (arith, (Reach-Inv r small).wrapped)

    -- A reader where the lock is free gets through in four steps of its own, with the value published last.
    pub read_solo :
        s.threads t ≡ read_wait
        → (s' : System A B) × Alone t s 4 s'
          × (s'.threads t
              ≡ read_done s.seq_count (s.published (s.turns / 2)).0 (s.published (s.turns / 2)).1)
    read_solo e =
        let k = s.seq_count in
        let (x, y) = (Reach-Inv r small).stable free in
        let s₁ = go s t (read_first k) in
        let s₂ = go s₁ t (read_second k s.first) in
        let s₃ = go s₂ t (read_check k s.first s.second) in
        let s₄ = go s₃ t (read_done k s.first s.second) in
        (
          s₄,
          more
              (more
                (more (more nothing (read_released t e (omega (arith, count))) (apart s.threads _))
                  (load_first t k (update_self s.threads t _)) (apart s₁.threads _))
                (load_second t k s.first (update_self s₁.threads t _)) (apart s₂.threads _))
              (check_passes t k s.first s.second (update_self s₂.threads t _) refl)
              (apart s₃.threads _),
          update_self s₃.threads t _
              ∙ ap (λ v. read_done k v s.second) x
              ∙ ap (λ v. read_done k (s.published (s.turns / 2)).0 v) y,
        )

    -- A thread that waits to write, where the lock is free, gets through in six steps of its own, during
    -- which the other threads stand still, wherever they are: it has published what its function gives of
    -- the value published last, the lock is free again, and both words are those of the new value. The
    -- count must not have gone round.
    pub write_solo :
        (f : A × B → A × B)
        → s.threads t ≡ write_wait f
        → let v = f (s.published (s.turns / 2)) in
          (s' : System A B) × Alone t s 6 s'
          × (s'.threads t ≡ outside)
          × (s'.turns ≡ s.turns + 2)
          × (s'.published (suc (s.turns / 2)) ≡ v)
          × ((s'.first, s'.second) ≡ v)
    write_solo f e =
        let k = s.seq_count in
        let (x, y) = (Reach-Inv r small).stable free in
        let v = f (s.published (s.turns / 2)) in
        let p : v ≡ f (s.first, s.second) = rw (x, y) refl in
        let s₁ = go s t (write_swap f k) in
        let s₂ : System A B = record s₁ {
          seq_count = word (k + 1);
          turns = suc s.turns;
          threads = update s₁.threads t (write_read f k);
        } in
        let s₃ = go s₂ t (write_first f k v) in
        let s₄ : System A B = record s₃ {
          first = v.0;
          threads = update s₃.threads t (write_second f k v);
        } in
        let s₅ : System A B = record s₄ {
          second = v.1;
          threads = update s₄.threads t (write_exit f k v);
        } in
        let s₆ : System A B = record s₅ {
          seq_count = word (s₅.seq_count + 1);
          turns = suc s₅.turns;
          published = update s₅.published (suc (k / 2)) v;
          applied = update s₅.applied (k / 2) f;
          threads = update s₅.threads t outside;
        } in
        (
          s₆,
          more
              (more
                (more
                  (more
                    (more
                      (more nothing (write_released t f e (omega (arith, count)))
                        (apart s.threads _))
                      (swap_wins t k f (update_self s.threads t _) refl) (apart s₁.threads _))
                    (load_value t k f v (update_self s₁.threads t _) p) (apart s₂.threads _))
                  (store_first t k f v (update_self s₂.threads t _)) (apart s₃.threads _))
                (store_second t k f v (update_self s₃.threads t _)) (apart s₄.threads _))
              (leave t k f v (update_self s₄.threads t _)) (apart s₅.threads _),
          update_self s₅.threads t _,
          omega arith,
          ap (λ n. update s.published (suc (k / 2)) v (suc (n / 2))) (sym count)
              ∙ update_self s.published (suc (k / 2)) v,
          refl,
        )
