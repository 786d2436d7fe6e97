-- ===== src/OutputMsgSet/Threads/Steps.antt =====
-- Every step keeps the ownership of slots (output_msg_set.rs).
use tansiv.Base.{ℕ, ◌≡◌, ◌≢◌, true, false, none, some, arith, is_some}
use tansiv.OutputMsgSet.Threads.{
  System, Step, call_insert, swap_taken, swap_free, no_slot, write, publish, call_drain, skip, see,
  finish, leave, take, invalidate, release, Reach, start, later,
}
use tansiv.OutputMsgSet.Threads.Invariant.{holds, drains, Holding, Draining, Inv, init-Inv}

module _ {M : Type 0} {s : System M} (inv : Inv s) where
  open inv use {holding, draining, unique, apart, free, full}

  Step-Holding : {s' : System M} → Step s s' → (u : ℕ) → Holding s'.set (s'.threads u)
  Step-Holding (call_insert t m e) u = ground (arith, holding u)
  Step-Holding (swap_taken t m i e lt b) u = ground (arith, holding u)
  Step-Holding (swap_free t m i e lt b) u = ground (arith, holding u, free i)
  Step-Holding (no_slot t m i e le) u = ground (arith, holding u)
  Step-Holding (write t m i e) u = ground (arith, holding u, holding t, unique t u i)
  Step-Holding (publish t m i e) u = ground (arith, holding u, holding t, unique t u i)
  Step-Holding (call_drain e) u = holding u
  Step-Holding (skip i e lt b) u = holding u
  Step-Holding (see i e lt b) u = holding u
  Step-Holding (finish i e le) u = holding u
  Step-Holding (leave i e) u = holding u
  Step-Holding (take i e) u = ground (arith, holding u, apart u i)
  Step-Holding (invalidate i o e) u = ground (arith, holding u, apart u i)
  Step-Holding (release i o e) u = ground (arith, holding u, apart u i)

  Step-draining : {s' : System M} → Step s s' → Draining s'.set s'.drainer
  Step-draining (call_insert t m e) = draining
  Step-draining (swap_taken t m i e lt b) = draining
  Step-draining (swap_free t m i e lt b) = ground (arith, draining)
  Step-draining (no_slot t m i e le) = draining
  Step-draining (write t m i e) = ground (arith, draining, apart t i)
  Step-draining (publish t m i e) = ground (arith, draining, apart t i)
  Step-draining (call_drain e) = tt
  Step-draining (skip i e lt b) = tt
  Step-draining (see i e lt b) = ground (arith, draining, full i, free i)
  Step-draining (finish i e le) = tt
  Step-draining (leave i e) = tt
  Step-draining (take i e) = ground (arith, draining)
  Step-draining (invalidate i o e) = ground (arith, draining)
  Step-draining (release i o e) = tt

  Step-unique :
      {s' : System M}
      → Step s s'
      → (t u i : ℕ) → holds (s'.threads t) ≡ some i
      → holds (s'.threads u) ≡ some i
      → t ≡ u
  Step-unique (swap_free t m i e lt b) x y j p q =
      ground (arith, unique x y j, holding x, holding y)
  Step-unique (call_drain e) x y j p q = unique x y j p q
  Step-unique (call_insert t m e) x y j p q = ground (arith, unique x y j)
  Step-unique (swap_taken t m i e lt b) x y j p q = ground (arith, unique x y j)
  Step-unique (no_slot t m i e le) x y j p q = ground (arith, unique x y j)
  Step-unique (write t m i e) x y j p q = ground (arith, unique x y j)
  Step-unique (publish t m i e) x y j p q = ground (arith, unique x y j)
  Step-unique (skip i e lt b) x y j p q = unique x y j p q
  Step-unique (see i e lt b) x y j p q = unique x y j p q
  Step-unique (finish i e le) x y j p q = unique x y j p q
  Step-unique (leave i e) x y j p q = unique x y j p q
  Step-unique (take i e) x y j p q = unique x y j p q
  Step-unique (invalidate i o e) x y j p q = unique x y j p q
  Step-unique (release i o e) x y j p q = unique x y j p q

  Step-apart :
      {s' : System M}
      → Step s s'
      → (t i : ℕ) → holds (s'.threads t) ≡ some i
      → drains s'.drainer ≢ some i
  Step-apart (call_insert t m e) x j p = ground (arith, apart x j)
  Step-apart (swap_taken t m i e lt b) x j p = ground (arith, apart x j)
  Step-apart (swap_free t m i e lt b) x j p = ground (arith, apart x j, draining)
  Step-apart (no_slot t m i e le) x j p = ground (arith, apart x j)
  Step-apart (write t m i e) x j p = ground (arith, apart x j, apart t j)
  Step-apart (publish t m i e) x j p = ground (arith, apart x j)
  Step-apart (call_drain e) x j p = λ q. cc
  Step-apart (skip i e lt b) x j p = λ q. cc
  Step-apart (see i e lt b) x j p = ground (arith, holding x)
  Step-apart (finish i e le) x j p = λ q. cc
  Step-apart (leave i e) x j p = λ q. cc
  Step-apart (take i e) x j p = ground (arith, apart x j)
  Step-apart (invalidate i o e) x j p = ground (arith, apart x j)
  Step-apart (release i o e) x j p = λ q. cc

  Step-free :
      {s' : System M}
      → Step s s'
      → (i : ℕ) → s'.set.slot_busy i ≡ false
      → (s'.set.slot_valid i ≡ false) × (s'.set.slots i ≡ none)
  Step-free (call_insert t m e) j p = free j p
  Step-free (swap_taken t m i e lt b) j p = free j p
  Step-free (swap_free t m i e lt b) j p = ground (arith, free j)
  Step-free (no_slot t m i e le) j p = free j p
  Step-free (write t m i e) j p = ground (arith, free j, holding t)
  Step-free (publish t m i e) j p = ground (arith, free j, holding t)
  Step-free (call_drain e) j p = free j p
  Step-free (skip i e lt b) j p = free j p
  Step-free (see i e lt b) j p = free j p
  Step-free (finish i e le) j p = free j p
  Step-free (leave i e) j p = free j p
  Step-free (take i e) j p = ground (arith, free j)
  Step-free (invalidate i o e) j p = ground (arith, free j)
  Step-free (release i o e) j p = ground (arith, free j, draining)

  Step-full :
      {s' : System M}
      → Step s s'
      → (i : ℕ) → s'.set.slot_valid i ≡ true
      → drains s'.drainer ≢ some i
      → is_some (s'.set.slots i) ≡ true
  Step-full (call_insert t m e) j p q = full j p q
  Step-full (swap_taken t m i e lt b) j p q = full j p q
  Step-full (swap_free t m i e lt b) j p q = full j p q
  Step-full (no_slot t m i e le) j p q = full j p q
  Step-full (write t m i e) j p q = ground (arith, full j)
  Step-full (publish t m i e) j p q = ground (arith, full j, holding t)
  Step-full (call_drain e) j p q = ground (arith, full j)
  Step-full (skip i e lt b) j p q = ground (arith, full j)
  Step-full (see i e lt b) j p q = ground (arith, full j)
  Step-full (finish i e le) j p q = ground (arith, full j)
  Step-full (leave i e) j p q = ground (arith, full j)
  Step-full (take i e) j p q = ground (arith, full j)
  Step-full (invalidate i o e) j p q = ground (arith, full j)
  Step-full (release i o e) j p q = ground (arith, full j, draining)

  pub Step-Inv : {s' : System M} → Step s s' → Inv s'
  Step-Inv st = record {
    holding = Step-Holding st;
    draining = Step-draining st;
    unique = Step-unique st;
    apart = Step-apart st;
    free = Step-free st;
    full = Step-full st;
  }

pub Reach-Inv : {M : Type 0} {n : ℕ} {s : System M} → Reach n s → Inv s
Reach-Inv {M} {n} start = init-Inv M n
Reach-Inv (later r st) = Step-Inv (Reach-Inv r) st
