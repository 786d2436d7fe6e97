-- ===== src/Context/RecvLoop.antt =====
-- The loop in which `at_deadline` receives the messages of the actor (lib.rs).
use tansiv.Base.{
  ℕ, zero, suc, ◌<◌, ◌≡◌, ◌≢◌, refl, ap, ◌∙◌, Option, none, some, List, arith, length, Result, ok,
  err, panicked,
}
use tansiv.Error.{IoError}
use tansiv.BufferPool.Builders.{Flatbuffers}
use tansiv.InputQueue.{ArrayQueue}
use tansiv.Connector.{Codec, Handle, MsgIn, recv, Reader, Pool}
use tansiv.Connector.Stream.{recv-consumes}
use tansiv.Timer.Interface.{Timer}
use tansiv.Context.Listening.{Turn, Listens}
use tansiv.Context.Listening
use tansiv.Context.{Context, handle_actor_msg, recv_msg, recv_loop, AfterDeadline, out_of_fuel}
use tansiv.Context.Message.{
  Kept, unchanged, Kept-trans, Turned, handle_actor_msg-Handled, handle_actor_msg-Turned,
}

module _ (codec : Codec) (F : Flatbuffers) (aq : ArrayQueue Handle) (tm : Timer) where
  abbrev Ctx : Type 0
  Ctx = Context codec F aq tm

  -- All that has been received.
  abbrev pub Listened : Ctx → AfterDeadline × Ctx → Type 0
  Listened c r =
      Listens codec (aq.capacity c.input_queue) c.reader c.input_buffer_pool
        (aq.items c.input_queue) r.0 r.1.reader r.1.input_buffer_pool (aq.items r.1.input_queue)

  pub record Loop (c : Ctx) (r : AfterDeadline × Ctx) : Type 0 where
    pub ended : r.0 ≢ out_of_fuel
    pub kept : Kept codec F aq tm c r.1
    pub listened : Listened c r

  recv_msg-Kept : (c : Ctx) → Kept codec F aq tm c (recv_msg codec F aq tm c).1
  recv_msg-Kept c = record {
    queued = (unchanged codec F aq tm c).queued;
    recv_calls = refl;
    deadline_calls = refl;
    writer = refl;
    outgoing = refl;
    upcoming = refl;
    output_pool = refl;
    timer = refl;
  }

  whole_recv :
      (c : Ctx) {msg : Result IoError MsgIn}
      → (recv codec c.reader c.input_buffer_pool).0 ≡ msg
      → recv codec c.reader c.input_buffer_pool ≡ (
        msg,
        (recv codec c.reader c.input_buffer_pool).1,
        (recv codec c.reader c.input_buffer_pool).2,
      )
  whole_recv c q =
      ap
        (λ x. (
          x,
          (recv codec c.reader c.input_buffer_pool).1,
          (recv codec c.reader c.input_buffer_pool).2,
        ))
        q

  same_start :
      {n n' : ℕ} {r r' r₂ : Reader} {p p₂ : Pool} {q q₂ : List Handle} {a : AfterDeadline}
      → n' ≡ n
      → r' ≡ r
      → Listens codec n' r' p q a r₂ p₂ q₂
      → Listens codec n r p q a r₂ p₂ q₂
  same_start e f l = rw (← e, ← f) l

  -- One turn, with the loop lemma for the turns after it.
  module _ (fuel : ℕ)
      (rest : (c' : Ctx)
        → length c'.reader.bytes < fuel
        → Loop c' (recv_loop codec F aq tm fuel c')) where
    turn :
        (c : Ctx) (m : MsgIn)
        → length c.reader.bytes < suc fuel
        → (recv codec c.reader c.input_buffer_pool).0 ≡ ok m
        → (after : Option AfterDeadline)
        → (handle_actor_msg codec F aq tm m (recv_msg codec F aq tm c).1).0 ≡ after
        → Loop c (recv_loop codec F aq tm (suc fuel) c)
    unfolding recv_loop
    turn c m lt q (some a) p =
        let h = handle_actor_msg-Handled codec F aq tm m (recv_msg codec F aq tm c).1 in
        let t : Turned codec F aq tm m (recv_msg codec F aq tm c).1
            (some a, (handle_actor_msg codec F aq tm m (recv_msg codec F aq tm c).1).1) =
          rw (← p) (handle_actor_msg-Turned codec F aq tm m (recv_msg codec F aq tm c).1) in
        rw (recv_loop, q, p)
          (record {
            ended = λ e. h.ended (p ∙ ap some e);
            kept = Kept-trans codec F aq tm (recv_msg-Kept c) h.kept;
            listened = rw h.reader (Listening.stops (whole_recv c q) t);
          })
    turn c m lt q none p =
        let h = handle_actor_msg-Handled codec F aq tm m (recv_msg codec F aq tm c).1 in
        let less = recv-consumes codec c.reader c.input_buffer_pool q in
        let later =
          rest (handle_actor_msg codec F aq tm m (recv_msg codec F aq tm c).1).1
            (rw h.reader (omega (arith, less, lt))) in
        let t : Turned codec F aq tm m (recv_msg codec F aq tm c).1
            (none, (handle_actor_msg codec F aq tm m (recv_msg codec F aq tm c).1).1) =
          rw (← p) (handle_actor_msg-Turned codec F aq tm m (recv_msg codec F aq tm c).1) in
        rw (recv_loop, q, p)
          (record {
            ended = later.ended;
            kept =
                Kept-trans codec F aq tm (recv_msg-Kept c)
                  (Kept-trans codec F aq tm h.kept later.kept);
            listened =
                Listening.goes_on (whole_recv c q) t
                  (same_start h.capacity h.reader later.listened);
          })

    received :
        (c : Ctx)
        → length c.reader.bytes < suc fuel
        → (msg : Result IoError MsgIn) → (recv codec c.reader c.input_buffer_pool).0 ≡ msg
        → Loop c (recv_loop codec F aq tm (suc fuel) c)
    unfolding recv_loop
    received c lt (err e) q =
        rw (recv_loop, q)
          (record {
            ended = λ h. cc;
            kept = recv_msg-Kept c;
            listened = Listening.fails (whole_recv c q);
          })
    received c lt panicked q =
        rw (recv_loop, q)
          (record {
            ended = λ h. cc;
            kept = recv_msg-Kept c;
            listened = Listening.panics (whole_recv c q);
          })
    received c lt (ok m) q =
        turn c m lt q (handle_actor_msg codec F aq tm m (recv_msg codec F aq tm c).1).0 refl

  pub recv_loop_lem :
      (fuel : ℕ) (c : Ctx) → length c.reader.bytes < fuel → Loop c (recv_loop codec F aq tm fuel c)
  recv_loop_lem zero c lt = absurd (omega arith)
  recv_loop_lem (suc fuel) c lt =
      received fuel (λ c' l. recv_loop_lem fuel c' l) c lt
        (recv codec c.reader c.input_buffer_pool).0 refl
