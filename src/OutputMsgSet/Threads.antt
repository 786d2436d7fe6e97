-- ===== src/OutputMsgSet/Threads.antt =====
-- output_msg_set.rs under concurrency: any number of threads insert while the deadline handler
-- drains. A step is one access to shared memory, in the order of the source. The handler may leave its
-- loop over the drain between two turns, as lib.rs does where a message cannot be sent.
pub mod Invariant
pub mod Steps
pub mod Counting
pub mod Safety
use tansiv.Base.{
  ℕ, ◌+◌, ◌≤◌, ◌<◌, ◌≡◌, Bool, true, false, Option, none, some, List, [], ◌∷◌, update,
}
use tansiv.OutputMsgSet.{OutputMsgSet, new}

-- Where an inserting thread stands.
pub data Pc (M : Type 0) : Type 0 where
  outside : Pc M
  scanning : M → ℕ → Pc M  -- before the swap of a busy flag
  claimed : M → ℕ → Pc M  -- before the slot is written
  written : M → ℕ → Pc M  -- before the slot is marked valid

-- Where the drain stands.
pub data DrainPc (M : Type 0) : Type 0 where
  resting : DrainPc M
  looking : ℕ → DrainPc M  -- before the load of a valid flag
  taking : ℕ → DrainPc M  -- before the slot is emptied
  taken : ℕ → Option M → DrainPc M  -- before the slot is marked invalid
  cleared : ℕ → Option M → DrainPc M  -- before the slot is released

-- `inserted` and `drained` log the messages of the inserts that succeeded and of the takes that
-- returned, newest first.
pub record System (M : Type 0) : Type 0 where
  pub set : OutputMsgSet M
  pub threads : ℕ → Pc M
  pub drainer : DrainPc M
  pub inserted : List M
  pub drained : List M

module _ {M : Type 0} where
  abbrev pub store_slot : OutputMsgSet M → ℕ → Option M → OutputMsgSet M
  store_slot s i o = record s { slots = update s.slots i o }

  abbrev pub store_busy : OutputMsgSet M → ℕ → Bool → OutputMsgSet M
  store_busy s i b = record s { slot_busy = update s.slot_busy i b }

  abbrev pub store_valid : OutputMsgSet M → ℕ → Bool → OutputMsgSet M
  store_valid s i b = record s { slot_valid = update s.slot_valid i b }

  abbrev pub log : Option M → List M → List M
  log none ms = ms
  log (some m) ms = m ∷ ms

  pub data Step (s : System M) : System M → Type 0 where
    call_insert :
        (t : ℕ) (m : M)
        → s.threads t ≡ outside
        → Step s (record s { threads = update s.threads t (scanning m 0) })
    swap_taken :
        (t : ℕ) (m : M) (i : ℕ)
        → s.threads t ≡ scanning m i
        → i < s.set.num_slots
        → s.set.slot_busy i ≡ true
        → Step s (record s { threads = update s.threads t (scanning m (i + 1)) })
    swap_free :
        (t : ℕ) (m : M) (i : ℕ)
        → s.threads t ≡ scanning m i
        → i < s.set.num_slots
        → s.set.slot_busy i ≡ false
        → Step s
            (record s { set = store_busy s.set i true; threads = update s.threads t (claimed m i) })
    no_slot :
        (t : ℕ) (m : M) (i : ℕ)
        → s.threads t ≡ scanning m i
        → s.set.num_slots ≤ i
        → Step s (record s { threads = update s.threads t outside })
    write :
        (t : ℕ) (m : M) (i : ℕ)
        → s.threads t ≡ claimed m i
        → Step s (record s {
          set = store_slot s.set i (some m);
          threads = update s.threads t (written m i);
        })
    publish :
        (t : ℕ) (m : M) (i : ℕ)
        → s.threads t ≡ written m i
        → Step s (record s {
          set = store_valid s.set i true;
          threads = update s.threads t outside;
          inserted = m ∷ s.inserted;
        })
    call_drain : s.drainer ≡ resting → Step s (record s { drainer = looking 0 })
    skip :
        (i : ℕ)
        → s.drainer ≡ looking i
        → i < s.set.num_slots
        → s.set.slot_valid i ≡ false
        → Step s (record s { drainer = looking (i + 1) })
    see :
        (i : ℕ)
        → s.drainer ≡ looking i
        → i < s.set.num_slots
        → s.set.slot_valid i ≡ true
        → Step s (record s { drainer = taking i })
    finish :
        (i : ℕ)
        → s.drainer ≡ looking i
        → s.set.num_slots ≤ i
        → Step s (record s { drainer = resting })
    -- The loop over the drain is left in the middle, between two turns.
    leave : (i : ℕ) → s.drainer ≡ looking i → Step s (record s { drainer = resting })
    take :
        (i : ℕ)
        → s.drainer ≡ taking i
        → Step s (record s { set = store_slot s.set i none; drainer = taken i (s.set.slots i) })
    invalidate :
        (i : ℕ) (o : Option M)
        → s.drainer ≡ taken i o
        → Step s (record s { set = store_valid s.set i false; drainer = cleared i o })
    release :
        (i : ℕ) (o : Option M)
        → s.drainer ≡ cleared i o
        → Step s (record s {
          set = store_busy s.set i false;
          drainer = looking (i + 1);
          drained = log o s.drained;
        })

-- `OutputMsgSet::new(n)`, before any call.
abbrev pub init : (M : Type 0) → ℕ → System M
init M n = record {
  set = new M n;
  threads = λ _. outside;
  drainer = resting;
  inserted = [];
  drained = [];
}

pub data Reach {M : Type 0} (n : ℕ) : System M → Type 0 where
  start : Reach n (init M n)
  later : {s t : System M} → Reach n s → Step s t → Reach n t
