-- ===== src/Context/Receiving.antt =====
-- What `at_deadline` takes from the actor (lib.rs), on a finite stream: the loop ends, and the packets go
-- to the queue.
use tansiv.Base.{
  ℕ, suc, ◌≡◌, ◌≢◌, refl, Bool, true, false, List, [], ◌∷◌, ◌++◌, arith, if◌then◌else◌, Bool-cases,
  inl, inr, length, Result, ok, err, panicked,
}
use mathlib.Core.List.{append-nil}
use tansiv.Error.{IoError}
use tansiv.BufferPool.Builders.{Flatbuffers}
use tansiv.InputQueue.{ArrayQueue}
use tansiv.InputQueue.Laws.{is_empty_cases}
use tansiv.InputQueue
use tansiv.Connector.{Codec, Handle}
use tansiv.Timer.Interface.{Timer}
use tansiv.Context.{
  Context, recv_loop, receive_phase, send_phase, at_deadline, announce, notify, AfterDeadline,
  next_deadline, end_simulation, panic, out_of_fuel,
}
use tansiv.Context.Listening.{Listens}
use tansiv.Context.RecvLoop.{recv_loop_lem}

module _ (codec : Codec) (F : Flatbuffers) (aq : ArrayQueue Handle) (tm : Timer) where
  abbrev Ctx : Type 0
  Ctx = Context codec F aq tm

  abbrev waiting : Ctx → List Handle
  waiting c = aq.items c.input_queue

  -- `recv_callback` is due where the queue has gone from empty to not empty.
  abbrev pub call_due : List Handle → List Handle → Bool
  call_due [] [] = false
  call_due [] (d ∷ ds) = true
  call_due (b ∷ bs) ds = false

  -- The number of calls of `recv_callback` once one is made where it is due.
  abbrev pub calls_after : List Handle → List Handle → ℕ → ℕ
  calls_after before after n = if call_due before after then suc n else n

  -- The call of `deadline_callback` that an outcome of the loop makes.
  abbrev pub announced : AfterDeadline → List ℕ
  announced (next_deadline d) = d ∷ []
  announced end_simulation = []
  announced panic = []
  announced out_of_fuel = []

  pub announce-announced :
      (a : AfterDeadline) (c : Ctx)
      → announce codec F aq tm a c ≡ record c { deadline_calls = c.deadline_calls ++ announced a }
  announce-announced (next_deadline d) c = refl
  announce-announced end_simulation c = rw (append-nil c.deadline_calls) refl
  announce-announced panic c = rw (append-nil c.deadline_calls) refl
  announce-announced out_of_fuel c = rw (append-nil c.deadline_calls) refl

  pub notify-calls_after :
      (q : aq.Queue) (c : Ctx)
      → notify codec F aq tm (InputQueue.is_empty aq q) c
        ≡ record c { recv_calls = calls_after (aq.items q) (aq.items c.input_queue) c.recv_calls }
  notify-calls_after q c = elim (is_empty_cases aq q) [
    | inr (b, bs, e, f) ↦ rw (f, e) refl
    | inl (e, f) ↦ elim (is_empty_cases aq c.input_queue) [
      | inr (d, ds, e', f') ↦ rw (f, f', e, e') refl
      | inl (e', f') ↦ rw (f, f', e, e') refl
    ]
  ]

  -- What the receiving part of a deadline leaves.
  pub record Receives (c : Ctx) (r : AfterDeadline × Ctx) : Type 0 where
    pub ended : r.0 ≢ out_of_fuel
    pub listened :
        Listens codec
          (aq.capacity c.input_queue)
          c.reader
          c.input_buffer_pool
          (aq.items c.input_queue)
          r.0
          r.1.reader
          r.1.input_buffer_pool
          (aq.items r.1.input_queue)
    pub queued :
        (fresh : List Handle) × (aq.items r.1.input_queue ≡ aq.items c.input_queue ++ fresh)
    pub notified :
        r.1.recv_calls
        ≡ calls_after (aq.items c.input_queue) (aq.items r.1.input_queue) c.recv_calls
    pub scheduled : r.1.deadline_calls ≡ c.deadline_calls ++ announced r.0
    pub writer : r.1.writer ≡ c.writer
    pub outgoing : r.1.outgoing_messages ≡ c.outgoing_messages
    pub upcoming : r.1.upcoming_messages ≡ c.upcoming_messages
    pub output_pool : r.1.output_buffer_pool ≡ c.output_buffer_pool
    pub timer : r.1.timer_context ≡ c.timer_context

  -- On a stream of finitely many bytes, behind which a read fails, the receiving part of a deadline comes
  -- to an end. It has received the messages one by one up to the first that is no packet, whose deadline
  -- or end it gives, or up to the first error: each packet has joined the queue at its end if there was
  -- room, and else its buffer is given back; nothing else is done to the stream, the pool or the queue.
  -- `recv_callback` is called once if the queue was empty and no longer is, and otherwise not at all;
  -- `deadline_callback` is called with the new deadline if there is one; and what is to be sent stays as
  -- it was.
  pub receive_phase-Receives : (c : Ctx) → Receives c (receive_phase codec F aq tm c)
  unfolding receive_phase
  receive_phase-Receives c =
      let l = recv_loop_lem codec F aq tm (suc (length c.reader.bytes)) c (omega arith) in
      let (after, c') = recv_loop codec F aq tm (suc (length c.reader.bytes)) c in
      rw (notify-calls_after c.input_queue c') (
        rw
          (announce-announced after
            (record c' { recv_calls = calls_after (waiting c) (waiting c') c'.recv_calls }))
          (record {
            ended = l.ended;
            listened = l.listened;
            queued = l.kept.queued;
            notified = rw l.kept.recv_calls refl;
            scheduled = rw l.kept.deadline_calls refl;
            writer = l.kept.writer;
            outgoing = l.kept.outgoing;
            upcoming = l.kept.upcoming;
            output_pool = l.kept.output_pool;
            timer = l.kept.timer;
          }))

  -- The step after both deadlines are known.
  slice_ends :
      (previous current : ℕ) (c : Ctx)
      → tm.simulation_previous_deadline c.timer_context ≡ ok previous
      → tm.simulation_next_deadline c.timer_context ≡ ok current
      → (at_deadline codec F aq tm c).0 ≢ out_of_fuel
  unfolding at_deadline
  slice_ends previous current c p q =
      elim (Bool-cases (send_phase codec F aq tm previous current c).0) [
        | inl go ↦
            rw (at_deadline, p, q, go)
              (receive_phase-Receives (send_phase codec F aq tm previous current c).1).ended
        | inr stop ↦ rw (at_deadline, p, q, stop) (λ h. cc)
      ]

  -- Where the peer writes finitely many bytes and then closes the stream or fails, so that a read behind
  -- them gives an error, `at_deadline` comes to an end: whatever the bytes are, the loop that receives
  -- messages stops. A peer that stays silent or writes packets for ever is not covered.
  pub at_deadline_ends : (c : Ctx) → (at_deadline codec F aq tm c).0 ≢ out_of_fuel
  unfolding at_deadline
  at_deadline_ends c =
      go (tm.simulation_previous_deadline c.timer_context) refl
        (tm.simulation_next_deadline c.timer_context) refl
    where
      go :
          (p : Result IoError ℕ)
          → tm.simulation_previous_deadline c.timer_context ≡ p
          → (q : Result IoError ℕ) → tm.simulation_next_deadline c.timer_context ≡ q
          → (at_deadline codec F aq tm c).0 ≢ out_of_fuel
      go (err e) f q g = rw (at_deadline, f) (λ h. cc)
      go panicked f q g = rw (at_deadline, f) (λ h. cc)
      go (ok previous) f (err e) g = rw (at_deadline, f, g) (λ h. cc)
      go (ok previous) f panicked g = rw (at_deadline, f, g) (λ h. cc)
      go (ok previous) f (ok current) g = slice_ends previous current c f g
