-- ===== src/OutputMsgSet.antt =====
-- output_msg_set.rs: messages put in slots by the application and drained by the deadline handler.
-- Here each operation runs alone; OutputMsgSet/Threads.antt interleaves its shared accesses.
pub mod Listing
pub mod Drain
pub mod Threads
use tansiv.Base.{
  ℕ, zero, suc, ◌+◌, ◌-◌, Bool, true, false, Option, none, some, ltb, if◌then◌else◌, is_some,
  update, Result, ok, err,
}
use tansiv.Error.{SetError, no_slot_available}

pub record OutputMsgSet (M : Type 0) : Type 0 where
  pub num_slots : ℕ
  pub slots : ℕ → Option M
  pub slot_busy : ℕ → Bool
  pub slot_valid : ℕ → Bool

abbrev pub new : (M : Type 0) → ℕ → OutputMsgSet M
new M num_slots = record {
  num_slots = num_slots;
  slots = λ _. none;
  slot_busy = λ _. false;
  slot_valid = λ _. false;
}

module _ {M : Type 0} where
  -- The slot `idx` is claimed, written and published.
  abbrev pub fill : OutputMsgSet M → ℕ → M → OutputMsgSet M
  fill s idx m = record s {
    slots = update s.slots idx (some m);
    slot_busy = update s.slot_busy idx true;
    slot_valid = update s.slot_valid idx true;
  }

  -- The loop over the busy flags: `k` slots are left, from slot `idx` on.
  unfoldable pub insert_from : ℕ → ℕ → OutputMsgSet M → M → Result SetError (OutputMsgSet M)
  insert_from zero idx s m = err no_slot_available
  insert_from (suc k) idx s m =
      let rest = insert_from k (idx + 1) s m in if s.slot_busy idx then rest else ok (fill s idx m)

  unfoldable pub insert : OutputMsgSet M → M → Result SetError (OutputMsgSet M)
  unfolding insert_from
  insert s m = insert_from s.num_slots 0 s m

  -- The slot `index` is emptied, made invalid and released.
  abbrev pub clear : OutputMsgSet M → ℕ → OutputMsgSet M
  clear s index = record s {
    slots = update s.slots index none;
    slot_valid = update s.slot_valid index false;
    slot_busy = update s.slot_busy index false;
  }

  unfoldable pub take_slot : OutputMsgSet M → ℕ → Option M × OutputMsgSet M
  take_slot s index =
      if ltb index s.num_slots
      then (if s.slot_valid index then (s.slots index, clear s index) else (none, s))
      else (none, s)

  -- The loop of `OutputMsgDrain::next`: `k` slots are left from slot `index` on. The number beside
  -- the message is the drain's own `index`, which stays `old` where no message is found.
  unfoldable pub next_from : ℕ → ℕ → ℕ → OutputMsgSet M → Option M × ℕ × OutputMsgSet M
  unfolding take_slot
  next_from zero index old s = (none, old, s)
  next_from (suc k) index old s =
      let (val, after) = take_slot s index in
      let rest = next_from k (index + 1) old after in
      if is_some val then (val, index + 1, after) else rest

  unfoldable pub next : ℕ → OutputMsgSet M → Option M × ℕ × OutputMsgSet M
  unfolding next_from
  next index s = next_from (s.num_slots - index) index index s

  -- One turn of `for m in set.drain() { body }`: what `next` has found, and the turns after it. The
  -- body, over a state `S` of its own, returns `false` to leave the loop at once.
  unfoldable pub turn {ℓ} :
      {S : Type ℓ}
      → (M → S → S × Bool)
      → (ℕ → OutputMsgSet M → S → Bool × OutputMsgSet M × S)
      → Option M × ℕ × OutputMsgSet M
      → S
      → Bool × OutputMsgSet M × S
  turn body turns (none, index, s) st = (true, s, st)
  turn body turns (some m, index, s) st =
      let (st', go) = body m st in elim go [ true ↦ turns index s st' | false ↦ (false, s, st') ]

  unfoldable pub drain_for {ℓ} :
      {S : Type ℓ} → (M → S → S × Bool) → ℕ → ℕ → OutputMsgSet M → S → Bool × OutputMsgSet M × S
  unfolding next turn
  drain_for body zero index s st = (true, s, st)
  drain_for body (suc fuel) index s st = turn body (drain_for body fuel) (next index s) st

  -- `set.drain()` starts at slot 0. Each turn but the last takes a slot, so the fuel is enough.
  unfoldable pub drain {ℓ} :
      {S : Type ℓ} → (M → S → S × Bool) → OutputMsgSet M → S → Bool × OutputMsgSet M × S
  unfolding drain_for
  drain body s st = drain_for body (suc s.num_slots) 0 s st
