-- ===== src/SeqLock/Invariant.antt =====
-- What the place of each thread says about the count and the value (seq_lock/src/lib.rs).
use tansiv.Base.{ℕ, suc, ◌/◌, ◌%◌, ◌≤◌, ◌<◌, ◌≡◌, refl, Bool, true, false}
use tansiv.SeqLock.{
  word, Pc, outside, read_wait, read_first, read_second, read_check, read_done, write_wait,
  write_swap, write_read, write_first, write_second, write_exit, System, init,
}

module _ {A B : Type 0} where
  -- The thread is between its successful swap and its `fetch_add`.
  abbrev pub is_writing : Pc A B → Bool
  is_writing (write_read f k) = true
  is_writing (write_first f k v) = true
  is_writing (write_second f k v) = true
  is_writing (write_exit f k v) = true
  is_writing outside = false
  is_writing read_wait = false
  is_writing (read_first k) = false
  is_writing (read_second k a) = false
  is_writing (read_check k a b) = false
  is_writing (read_done k a b) = false
  is_writing (write_wait f) = false
  is_writing (write_swap f k) = false

  -- A count that was even when it was loaded.
  abbrev Loaded : System A B → ℕ → Type 0
  Loaded s k = (k ≤ s.turns) × (k % 2 ≡ 0)

  -- The words loaded are those published, unless the count has moved on.
  abbrev pub Place : System A B → Pc A B → Type 0
  Place s outside = Unit {0}
  Place s read_wait = Unit {0}
  Place s (read_first k) = Loaded s k
  Place s (read_second k a) = Loaded s k × (k ≡ s.turns → a ≡ (s.published (k / 2)).0)
  Place s (read_check k a b) =
      Loaded s k
      × (k ≡ s.turns → a ≡ (s.published (k / 2)).0)
      × (k ≡ s.turns → b ≡ (s.published (k / 2)).1)
  Place s (read_done k a b) =
      Loaded s k × (a ≡ (s.published (k / 2)).0) × (b ≡ (s.published (k / 2)).1)
  Place s (write_wait f) = Unit {0}
  Place s (write_swap f k) = Loaded s k
  Place s (write_read f k) =
      (s.turns ≡ suc k)
      × (k % 2 ≡ 0)
      × (s.first ≡ (s.published (k / 2)).0)
      × (s.second ≡ (s.published (k / 2)).1)
  Place s (write_first f k v) = (s.turns ≡ suc k) × (k % 2 ≡ 0) × (v ≡ f (s.published (k / 2)))
  Place s (write_second f k v) =
      (s.turns ≡ suc k) × (k % 2 ≡ 0) × (v ≡ f (s.published (k / 2))) × (s.first ≡ v.0)
  Place s (write_exit f k v) =
      (s.turns ≡ suc k)
      × (k % 2 ≡ 0)
      × (v ≡ f (s.published (k / 2)))
      × (s.first ≡ v.0)
      × (s.second ≡ v.1)

  pub record Inv (s : System A B) : Type 0 where
    pub wrapped : s.seq_count ≡ word s.turns
    pub place : (t : ℕ) → Place s (s.threads t)
    pub alone :
        (t u : ℕ) → is_writing (s.threads t) ≡ true → is_writing (s.threads u) ≡ true → t ≡ u
    pub locked : (t : ℕ) → is_writing (s.threads t) ≡ true → s.turns % 2 ≡ 1
    pub stable :
        s.turns % 2 ≡ 0
        → (s.first ≡ (s.published (s.turns / 2)).0) × (s.second ≡ (s.published (s.turns / 2)).1)
    pub chained : (j : ℕ) → j < s.turns / 2 → s.published (suc j) ≡ s.applied j (s.published j)

  pub init-Inv : (a : A) (b : B) → Inv (init a b)
  init-Inv a b = record {
    wrapped = refl;
    place = λ t. tt;
    alone = λ t u h k. cc;
    locked = λ t h. cc;
    stable = λ h. (refl, refl);
    chained = λ j h. elim h [ ];
  }
