-- ===== src/SeqLock/Steps.antt =====
-- Every step keeps the invariant, while the count has not gone round (seq_lock/src/lib.rs).
use tansiv.Base.{ℕ, suc, ◌/◌, ◌%◌, ◌^◌, ◌≤◌, ◌<◌, ◌≡◌, true, arith}
use tansiv.SeqLock.{
  word, System, Step, call_read, read_spin, read_released, load_first, load_second, check_passes,
  check_fails, read_returns, call_write, write_spin, write_released, swap_wins, swap_loses,
  load_value, store_first, store_second, leave, Reach, start, later,
}
use tansiv.SeqLock.Invariant.{is_writing, Place, Inv, init-Inv}

pub turns_mono : {A B : Type 0} {s s' : System A B} → Step s s' → s.turns ≤ s'.turns
turns_mono (call_read t e) = omega arith
turns_mono st = omega arith

module _ {A B : Type 0} {s : System A B} (inv : Inv s) where
  open inv use {wrapped, place, alone, locked, stable, chained}

  Step-wrapped : {s' : System A B} → Step s s' → s'.turns < 2 ^ 64 → s'.seq_count ≡ word s'.turns
  Step-wrapped (call_read t e) b = wrapped
  Step-wrapped (swap_wins t k f e q) b = omega arith
  Step-wrapped (leave t k f v e) b = omega arith
  Step-wrapped st b = wrapped

  Step-Place : {s' : System A B} → Step s s' → s'.turns < 2 ^ 64 → (u : ℕ) → Place s' (s'.threads u)
  Step-Place (call_read t e) b u = ground (arith, place u)
  Step-Place (read_spin t e q) b u = ground (arith, place u)
  Step-Place (read_released t e q) b u = ground (arith, place u)
  Step-Place (load_first t k e) b u = ground (arith, place u, stable)
  Step-Place (load_second t k a e) b u = ground (arith, place u, stable)
  Step-Place (check_passes t k a c e q) b u = ground (arith, place u)
  Step-Place (check_fails t k a c e q) b u = ground (arith, place u)
  Step-Place (read_returns t k a c e) b u = ground (arith, place u)
  Step-Place (call_write t f e) b u = ground (arith, place u)
  Step-Place (write_spin t f e q) b u = ground (arith, place u)
  Step-Place (write_released t f e q) b u = ground (arith, place u)
  Step-Place (swap_wins t k f e q) b u = ground (arith, place u, place t, stable, locked u)
  Step-Place (swap_loses t k f e q) b u = ground (arith, place u)
  Step-Place (load_value t k f v e q) b u = ground (arith, place u, place t)
  Step-Place (store_first t k f v e) b u = ground (arith, place u, place t, alone t u)
  Step-Place (store_second t k f v e) b u = ground (arith, place u, place t, alone t u)
  Step-Place (leave t k f v e) b u = ground (arith, place u, place t, alone t u)

  Step-alone :
      {s' : System A B}
      → Step s s'
      → (t u : ℕ) → is_writing (s'.threads t) ≡ true
      → is_writing (s'.threads u) ≡ true
      → t ≡ u
  Step-alone (call_read t e) x y p q = ground (arith, alone x y)
  Step-alone (swap_wins t k f e h) x y p q = ground (arith, alone x y, locked x, locked y, place t)
  Step-alone (load_value t k f v e h) x y p q = ground (arith, alone x y)
  Step-alone (store_first t k f v e) x y p q = ground (arith, alone x y)
  Step-alone (store_second t k f v e) x y p q = ground (arith, alone x y)
  Step-alone (leave t k f v e) x y p q = ground (arith, alone x y)
  Step-alone st x y p q = ground (arith, alone x y)

  Step-locked :
      {s' : System A B} → Step s s' → (t : ℕ) → is_writing (s'.threads t) ≡ true → s'.turns % 2 ≡ 1
  Step-locked (call_read t e) x p = ground (arith, locked x)
  Step-locked (swap_wins t k f e h) x p = ground (arith, locked x, place t)
  Step-locked (leave t k f v e) x p = ground (arith, locked x, alone t x)
  Step-locked (load_value t k f v e h) x p = ground (arith, locked x)
  Step-locked (store_first t k f v e) x p = ground (arith, locked x)
  Step-locked (store_second t k f v e) x p = ground (arith, locked x)
  Step-locked st x p = ground (arith, locked x)

  Step-stable :
      {s' : System A B}
      → Step s s'
      → s'.turns % 2 ≡ 0
      → (s'.first ≡ (s'.published (s'.turns / 2)).0) × (s'.second ≡ (s'.published (s'.turns / 2)).1)
  Step-stable (call_read t e) h = stable h
  Step-stable (swap_wins t k f e q) h = ground (arith, place t)
  Step-stable (store_first t k f v e) h = ground (arith, place t)
  Step-stable (store_second t k f v e) h = ground (arith, place t)
  Step-stable (leave t k f v e) h = ground (arith, place t)
  Step-stable st h = stable h

  Step-chained :
      {s' : System A B}
      → Step s s'
      → (j : ℕ) → j < s'.turns / 2
      → s'.published (suc j) ≡ s'.applied j (s'.published j)
  Step-chained (call_read t e) j h = chained j h
  Step-chained (swap_wins t k f e q) j h = ground (arith, place t, chained j)
  Step-chained (leave t k f v e) j h = ground (arith, place t, chained j)
  Step-chained st j h = chained j h

  pub Step-Inv : {s' : System A B} → Step s s' → s'.turns < 2 ^ 64 → Inv s'
  Step-Inv st b = record {
    wrapped = Step-wrapped st b;
    place = Step-Place st b;
    alone = Step-alone st;
    locked = Step-locked st;
    stable = Step-stable st;
    chained = Step-chained st;
  }

pub Reach-Inv :
    {A B : Type 0} {a : A} {b : B} {s : System A B} → Reach a b s → s.turns < 2 ^ 64 → Inv s
Reach-Inv {a} {b} start h = init-Inv a b
Reach-Inv (later r st) h = Step-Inv (Reach-Inv r (omega (arith, turns_mono st))) st h
