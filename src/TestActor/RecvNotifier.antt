-- ===== src/TestActor/RecvNotifier.antt =====
-- `RecvNotifier` of the tests (lib.rs; capi/src/lib.rs has the same): a flag that `recv_callback` sets, in
-- the thread of the deadline handler, and that one thread of the application waits for and clears. A step
-- is one access to the flag.
use tansiv.Base.{ℕ, suc, ◌+◌, ◌≤◌, ◌≡◌, refl, Bool, true, false, arith}

-- Where the thread that waits stands.
pub data Pc : Type 0 where
  outside : Pc
  polling : Pc  -- before the load
  clearing : Pc  -- before the store

-- `notified` and `returned` count the calls that have come to their end; no step reads them.
pub record System : Type 0 where
  pub flag : Bool
  pub waiter : Pc
  pub notified : ℕ
  pub returned : ℕ

pub data Step (s : System) : System → Type 0 where
  notify : Step s (record s { flag = true; notified = suc s.notified })
  call_wait : s.waiter ≡ outside → Step s (record s { waiter = polling })
  load_false : s.waiter ≡ polling → s.flag ≡ false → Step s s
  load_true : s.waiter ≡ polling → s.flag ≡ true → Step s (record s { waiter = clearing })
  clear :
      s.waiter ≡ clearing
      → Step s (record s { flag = false; waiter = outside; returned = suc s.returned })

-- `RecvNotifier::new`
abbrev pub init : System
init = record { flag = false; waiter = outside; notified = 0; returned = 0 }

pub data Reach : System → Type 0 where
  start : Reach init
  later : {s t : System} → Reach s → Step s t → Reach t

-- A flag that is set stands for a call of `notify` of its own, and is set while it is cleared.
record Inv (s : System) : Type 0 where
  pub fewer : s.returned ≤ s.notified
  pub set : s.flag ≡ true → s.returned + 1 ≤ s.notified
  pub seen : s.waiter ≡ clearing → s.flag ≡ true

Step-Inv : {s t : System} → Step s t → Inv s → Inv t
Step-Inv notify v = record {
  fewer = omega (arith, v.fewer);
  set = λ e. omega (arith, v.fewer);
  seen = λ e. refl;
}
Step-Inv (call_wait e) v = record { fewer = v.fewer; set = v.set; seen = λ q. cc }
Step-Inv (load_false e f) v = v
Step-Inv (load_true e f) v = record { fewer = v.fewer; set = v.set; seen = λ q. f }
Step-Inv (clear e) v = record {
  fewer = omega (arith, v.set (v.seen e));
  set = λ q. cc;
  seen = λ q. cc;
}

Reach-Inv : {s : System} → Reach s → Inv s
Reach-Inv start = record { fewer = omega arith; set = λ e. cc; seen = λ e. cc }
Reach-Inv (later r st) = Step-Inv st (Reach-Inv r)

-- Each `wait` that returns has a call of `notify` of its own, and a flag that is set stands for one more;
-- calls of `notify` that come before the flag is cleared count as one.
pub wait_notified :
    {s : System}
    → Reach s
    → (s.returned ≤ s.notified) × (s.flag ≡ true → s.returned + 1 ≤ s.notified)
wait_notified r = ((Reach-Inv r).fewer, (Reach-Inv r).set)
