-- ===== src/Context/Run/InputSteps.antt =====
-- The packets that `at_deadline` receives and the application takes (lib.rs): the account of the input
-- pool is kept, so that there is always room in the queue.
use tansiv.Base.{
  ℕ, zero, suc, ◌≡◌, refl, sym, Bool-cases, false, Option, none, some, Option-cases, List, [], ◌∷◌,
  ◌++◌, arith, inl, inr, length, Result, ok, err, panicked,
}
use tansiv.Error.{IoError}
use tansiv.BufferPool
use tansiv.BufferPool.Bytes.{bytes}
use tansiv.BufferPool.Accounts.{Account, Account-occurrences, occurrences-append}
use tansiv.BufferPool.Builders.{Flatbuffers}
use tansiv.InputQueue.{ArrayQueue, pop}
use tansiv.InputQueue.Laws.{push_cases}
use tansiv.Connector.{Codec, Handle, MsgIn, recv}
use tansiv.Timer.Interface.{Timer}
use tansiv.Context.{Context, AfterDeadline, handle_actor_msg, recv_msg, recv_loop, receive_phase}
use tansiv.Context.Receiving.{calls_after, announce-announced, notify-calls_after}
use tansiv.Context.Application
use tansiv.Context.Application.{deserialize}
use tansiv.Context.Run.Input.{Holds, Holds-drop, room, Fetched, recv-Fetched}

module _ (codec : Codec) (F : Flatbuffers) (aq : ArrayQueue Handle) (tm : Timer) where
  abbrev Ctx : Type 0
  Ctx = Context codec F aq tm

  -- Each busy buffer of the input pool is that of one packet in the queue, and the queue has a place
  -- for each buffer of the pool.
  abbrev pub Input : Ctx → Type 0
  Input c = Holds (aq.capacity c.input_queue) c.input_buffer_pool (aq.items c.input_queue)

  -- The packet is in the queue, at its end, and the handler goes on.
  pub record Pushed (c : Ctx) (d : Handle) (r : Option AfterDeadline × Ctx) : Type 0 where
    pub goes_on : r.0 ≡ none
    pub queued : aq.items r.1.input_queue ≡ aq.items c.input_queue ++ d ∷ []
    pub input : Input r.1
    pub pool : r.1.input_buffer_pool ≡ c.input_buffer_pool
    pub reader : r.1.reader ≡ c.reader

  -- A packet that has a buffer of the pool is put in the queue.
  pub deliver_packet-Pushed :
      (d : Handle) (c : Ctx)
      → Holds (aq.capacity c.input_queue) c.input_buffer_pool (d ∷ aq.items c.input_queue)
      → Pushed c d (handle_actor_msg codec F aq tm (MsgIn.deliver_packet d) c)
  unfolding handle_actor_msg
  deliver_packet-Pushed d c h = elim (push_cases aq c.input_queue d) [
    | inr (full, p) ↦ absurd (omega (arith, full, room d h))
    | inl (q, p, l, cap) ↦
        let moved : Account bytes c.input_buffer_pool (aq.items c.input_queue ++ d ∷ []) [] =
          Account-occurrences bytes
            (λ i. omega (arith, occurrences-append bytes i (aq.items c.input_queue) (d ∷ [])))
            h.account in
        rw (handle_actor_msg, p)
          (record {
            goes_on = refl;
            queued = l;
            input = rw (l, cap) (record { account = moved; size = h.size });
            pool = refl;
            reader = refl;
          })
  ]

  -- What `recv` has left, of a message that came or not.
  abbrev pub Arrived : Result IoError MsgIn → Ctx → Type 0
  Arrived msg c =
      Fetched codec (aq.capacity c.input_queue) msg c.input_buffer_pool (aq.items c.input_queue)

  handle_actor_msg-Input :
      (m : MsgIn) (c : Ctx) → Arrived (ok m) c → Input (handle_actor_msg codec F aq tm m c).1
  unfolding handle_actor_msg
  handle_actor_msg-Input (MsgIn.deliver_packet d) c h = (deliver_packet-Pushed d c h).input
  handle_actor_msg-Input (MsgIn.goto_deadline t) c h = h
  handle_actor_msg-Input MsgIn.end_simulation c h = h

  pub recv_msg-Arrived :
      (c : Ctx)
      → Input c
      → (msg : Result IoError MsgIn) → (recv codec c.reader c.input_buffer_pool).0 ≡ msg
      → Arrived msg (recv_msg codec F aq tm c).1
  recv_msg-Arrived c v msg e = rw (sym e) (
      recv-Fetched codec (aq.capacity c.input_queue) c.reader c.input_buffer_pool
        (aq.items c.input_queue) v)

  -- One turn of the loop, with the lemma for the turns after it.
  module _ (fuel : ℕ)
      (rest : (c' : Ctx) → Input c' → Input (recv_loop codec F aq tm fuel c').1) where
    turn :
        (c : Ctx) (m : MsgIn)
        → Arrived (ok m) (recv_msg codec F aq tm c).1
        → (recv codec c.reader c.input_buffer_pool).0 ≡ ok m
        → (after : Option AfterDeadline)
        → (handle_actor_msg codec F aq tm m (recv_msg codec F aq tm c).1).0 ≡ after
        → Input (recv_loop codec F aq tm (suc fuel) c).1
    unfolding recv_loop
    turn c m h q (some a) p =
        rw (recv_loop, q, p) (handle_actor_msg-Input m (recv_msg codec F aq tm c).1 h)
    turn c m h q none p =
        rw (recv_loop, q, p) (rest _ (handle_actor_msg-Input m (recv_msg codec F aq tm c).1 h))

    received :
        (c : Ctx)
        → Input c
        → (msg : Result IoError MsgIn) → (recv codec c.reader c.input_buffer_pool).0 ≡ msg
        → Input (recv_loop codec F aq tm (suc fuel) c).1
    unfolding recv_loop
    received c v (err e) q = rw (recv_loop, q) (recv_msg-Arrived c v (err e) q)
    received c v panicked q = rw (recv_loop, q) (recv_msg-Arrived c v panicked q)
    received c v (ok m) q =
        turn c m (recv_msg-Arrived c v (ok m) q) q
          (handle_actor_msg codec F aq tm m (recv_msg codec F aq tm c).1).0 refl

  recv_loop-Input : (fuel : ℕ) (c : Ctx) → Input c → Input (recv_loop codec F aq tm fuel c).1
  unfolding recv_loop
  recv_loop-Input zero c v = v
  recv_loop-Input (suc fuel) c v =
      received fuel (λ c' l. recv_loop-Input fuel c' l) c v
        (recv codec c.reader c.input_buffer_pool).0 refl

  pub receive_phase-Input : (c : Ctx) → Input c → Input (receive_phase codec F aq tm c).1
  unfolding receive_phase
  receive_phase-Input c v =
      let l = recv_loop-Input (suc (length c.reader.bytes)) c v in
      let (after, c') = recv_loop codec F aq tm (suc (length c.reader.bytes)) c in
      rw (notify-calls_after codec F aq tm c.input_queue c') (
        rw
          (announce-announced codec F aq tm after (record c' {
            recv_calls =
                calls_after codec F aq tm (aq.items c.input_queue) (aq.items c'.input_queue)
                  c'.recv_calls;
          }))
          l)

  -- The application takes the oldest packet, and its buffer is given back.
  pub recv-Input :
      (c : Ctx) (capacity : ℕ) → Input c → Input (Application.recv codec F aq tm c capacity).1
  unfolding Application.recv pop
  recv-Input c capacity v = go (aq.items c.input_queue) refl
    where
      go :
          (ds : List Handle)
          → aq.items c.input_queue ≡ ds
          → Input (Application.recv codec F aq tm c capacity).1
      go [] e = rw (Application.recv, aq.pop_nil c.input_queue e) v
      go (d ∷ ds) e =
          let (q, p, l, cap) = aq.pop_cons c.input_queue d ds e in
          let dropped : Holds (aq.capacity q) (BufferPool.drop bytes c.input_buffer_pool d)
              (aq.items q) =
            rw (cap, l) (Holds-drop d (rw (sym e) v)) in
          elim (Option-cases (deserialize codec c.input_buffer_pool d)) [
            | inl f ↦ rw (Application.recv, p, f) dropped
            | inr (packet, f) ↦ rw (Application.recv, p, f) dropped
          ]

  pub start-Input : (c : Ctx) → Input c → Input (Application.start codec F aq tm c).1
  unfolding Application.start
  start-Input c v = elim (Bool-cases c.started) [
    | inl on ↦ rw (Application.start, on) v
    | inr off ↦ go off (recv codec c.reader c.input_buffer_pool).0 refl
  ]
    where
      go :
          c.started ≡ false
          → (msg : Result IoError MsgIn) → (recv codec c.reader c.input_buffer_pool).0 ≡ msg
          → Input (Application.start codec F aq tm c).1
      go off (err e) q = rw (Application.start, off, q) (recv_msg-Arrived c v (err e) q)
      go off panicked q = rw (Application.start, off, q) (recv_msg-Arrived c v panicked q)
      go off (ok (MsgIn.goto_deadline t)) q =
          rw (Application.start, off, q) (recv_msg-Arrived c v _ q)
      go off (ok MsgIn.end_simulation) q = rw (Application.start, off, q) (recv_msg-Arrived c v _ q)
      go off (ok (MsgIn.deliver_packet d)) q =
          rw (Application.start, off, q) (Holds-drop d (recv_msg-Arrived c v _ q))
