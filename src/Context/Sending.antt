-- ===== src/Context/Sending.antt =====
-- What `send` does to the messages of a context and to the pool of their buffers (lib.rs).
use tansiv.Base.{
  ℕ, ◌+◌, ◌<◌, ◌≡◌, refl, ap, ◌∙◌, sym, true, Option, none, some, List, [], ◌∷◌, ◌++◌, map, arith,
  ◌⊎◌, inl, inr, length, Result, ok, err, panicked,
}
use tansiv.Error.{
  Error, PoolError, SetError, no_slot_available, no_buffer_available, no_memory_available,
  from_pool_error, from_set_error,
}
use tansiv.BufferPool.{BufferPool, Buffer, allocate_buffer}
use tansiv.BufferPool
use tansiv.BufferPool.Alloc.{
  busy_count, Served, allocate_buffer-Served, busy_count-allocate_buffer, busy_count-drop,
  allocate_buffer_cases,
}
use tansiv.BufferPool.Builders.{Flatbuffers, builders}
use tansiv.OutputMsgSet.{OutputMsgSet, insert}
use tansiv.OutputMsgSet.Listing.{pending, IsSettled, insert-pending, insert_cases}
use tansiv.InputQueue.{ArrayQueue}
use tansiv.Connector.{Codec, Handle}
use tansiv.Connector.Send
use tansiv.Timer.Interface.{Timer}
use tansiv.Context.{Context, OutputMsg}
use tansiv.Context.Application.{enqueue, send}

module _ (codec : Codec) (F : Flatbuffers) (aq : ArrayQueue Handle) (tm : Timer) where
  abbrev Ctx : Type 0
  Ctx = Context codec F aq tm

  abbrev Msg : Type 0
  Msg = OutputMsg codec F aq tm

  abbrev pub in_use : Ctx → ℕ
  in_use c = busy_count (builders F) c.output_buffer_pool

  -- The message `m` is what the application asked for.
  pub record Carries (c : Ctx) (dst : ℕ) (msg : List ℕ) (m : Msg) : Type 0 where
    pub same_src : m.src ≡ c.address
    pub same_dst : m.dst ≡ dst
    pub same_payload : m.payload ≡ msg

  -- The message stands once more among those of the slice, and those keep their order.
  pub record Stored (c c' : Ctx) (t : ℕ) (m : Msg) : Type 0 where
    pub on_time : m.send_time ≡ t
    pub place :
        (before after : List Msg) × (pending c.outgoing_messages ≡ before ++ after)
        × (pending c'.outgoing_messages ≡ before ++ m ∷ after)
    pub upcoming : c'.upcoming_messages ≡ c.upcoming_messages

  -- The message is kept back behind the upcoming ones.
  pub record KeptBack (c c' : Ctx) (m : Msg) : Type 0 where
    pub upcoming : c'.upcoming_messages ≡ c.upcoming_messages ++ m ∷ []
    pub outgoing : c'.outgoing_messages ≡ c.outgoing_messages

  -- One message more, with one buffer more in use.
  pub record Accepted (c : Ctx) (t dst : ℕ) (msg : List ℕ) (c' : Ctx) : Type 0 where
    pub message : Msg
    pub carries : Carries c dst msg message
    pub kept : Stored c c' t message ⊎ KeptBack c c' message
    pub settled : IsSettled c'.outgoing_messages
    pub one_buffer : in_use c' ≡ in_use c + 1

  -- No message and no buffer more.
  pub record Refused (c : Ctx) (e : Error) (c' : Ctx) : Type 0 where
    pub reason : (e ≡ no_memory_available) ⊎ (e ≡ Error.size_too_big)
    pub outgoing : c'.outgoing_messages ≡ c.outgoing_messages
    pub upcoming : c'.upcoming_messages ≡ c.upcoming_messages
    pub no_buffer : in_use c' ≡ in_use c

  abbrev pub Outcome : Ctx → ℕ → ℕ → List ℕ → Result Error (Unit {0}) × Ctx → Type 0
  Outcome c t dst msg (ok u, c') = Accepted c t dst msg c'
  Outcome c t dst msg (err e, c') = Refused c e c'
  Outcome c t dst msg (panicked, c') = ⊥

  -- A buffer that is served and dropped again leaves as many in use as there were.
  give_back :
      (pool after : BufferPool (builders F)) (size : ℕ) (b : Buffer (builders F))
      → Served (builders F) pool size b after
      → busy_count (builders F) after ≡ busy_count (builders F) pool + 1
      → busy_count (builders F) (BufferPool.drop (builders F) after b)
        ≡ busy_count (builders F) pool
  give_back pool after size b s n =
      let set : after.buffer_busy b.index ≡ true = ground (arith, s.same) in
      let below : b.index < after.num_buffers = ground (arith, s.same, s.below) in
      omega (arith, busy_count-drop (builders F) after b below set, n)

  enqueue_lem :
      (c c₁ : Ctx) (dst t : ℕ) (msg : List ℕ) (b : Buffer (builders F))
      → IsSettled c.outgoing_messages
      → Served (builders F) c.output_buffer_pool (length msg) b c₁.output_buffer_pool
      → in_use c₁ ≡ in_use c + 1
      → c₁.outgoing_messages ≡ c.outgoing_messages
      → c₁.upcoming_messages ≡ c.upcoming_messages
      → c₁.address ≡ c.address
      → Outcome c t dst msg (enqueue codec F aq tm c₁ dst t msg b)
  unfolding enqueue Send.new from_set_error
  enqueue_lem c c₁ dst t msg b v s n o u a =
      go
        (tm.check_deadline_overrun c₁.timer_context t (map (λ m. m.send_time) c₁.upcoming_messages))
        refl
    where
      store :
          (r : Result SetError (OutputMsgSet Msg))
          → insert c₁.outgoing_messages (Send.new F c₁.address dst t msg b) ≡ r
          → tm.check_deadline_overrun c₁.timer_context t
              (map (λ m. m.send_time) c₁.upcoming_messages)
            ≡ none
          → Outcome c t dst msg (enqueue codec F aq tm c₁ dst t msg b)
      store (ok set) q p =
          let v' : IsSettled c₁.outgoing_messages = rw o v in
          let (w, size, (before, after, x, y)) = insert-pending c₁.outgoing_messages _ v' q in
          rw (enqueue, p, q)
            (record {
              message = Send.new F c₁.address dst t msg b;
              carries = record { same_src = a; same_dst = refl; same_payload = refl };
              kept = inl (record {
                on_time = refl;
                place = (before, after, ap pending (sym o) ∙ x, y);
                upcoming = u;
              });
              settled = w;
              one_buffer = n;
            })
      store (err no_slot_available) q p =
          rw (enqueue, p, q)
            (record {
              reason = inl refl;
              outgoing = o;
              upcoming = u;
              no_buffer = give_back c.output_buffer_pool c₁.output_buffer_pool (length msg) b s n;
            })
      store panicked q p =
          elim (insert_cases c₁.outgoing_messages (Send.new F c₁.address dst t msg b)) [
            | inl (i, lt, free, e) ↦ cc
            | inr (all, e) ↦ cc
          ]

      go :
          (over : Option ℕ)
          → tm.check_deadline_overrun c₁.timer_context t
              (map (λ m. m.send_time) c₁.upcoming_messages)
            ≡ over
          → Outcome c t dst msg (enqueue codec F aq tm c₁ dst t msg b)
      go none p = store (insert c₁.outgoing_messages (Send.new F c₁.address dst t msg b)) refl p
      go (some later) p =
          rw (enqueue, p)
            (record {
              message = Send.new F c₁.address dst later msg b;
              carries = record { same_src = a; same_dst = refl; same_payload = refl };
              kept = inr (record { upcoming = rw u refl; outgoing = o });
              settled = rw o v;
              one_buffer = n;
            })

  -- Every outcome of `send` at the time `t` of the simulation. If it succeeds, one message more is kept,
  -- with the caller's destination and payload and the context's address as source: in the set of the
  -- slice, stamped `t`, or behind the upcoming messages. The set stays settled, and one buffer more is
  -- in use. If it fails, it is for want of memory or because the payload is too big, and the messages
  -- and the number of buffers in use are as they were. It does not panic.
  pub send-Outcome :
      (c : Ctx) (t dst : ℕ) (msg : List ℕ)
      → IsSettled c.outgoing_messages
      → (tm.simulation_now c.timer_context).0 ≡ ok t
      → Outcome c t dst msg (send codec F aq tm c dst msg)
  unfolding send from_pool_error
  send-Outcome c t dst msg v p =
      served (allocate_buffer (builders F) c.output_buffer_pool (length msg)) refl
    where
      c₁ : Ctx
      c₁ = record c { timer_context = (tm.simulation_now c.timer_context).1 }

      served :
          (r : Result PoolError (Buffer (builders F) × BufferPool (builders F)))
          → allocate_buffer (builders F) c.output_buffer_pool (length msg) ≡ r
          → Outcome c t dst msg (send codec F aq tm c dst msg)
      served (ok (b, pool)) q =
          rw (send, p, q)
            (enqueue_lem c (record c₁ { output_buffer_pool = pool }) dst t msg b v
              (allocate_buffer-Served (builders F) c.output_buffer_pool (length msg) q)
              (busy_count-allocate_buffer (builders F) c.output_buffer_pool (length msg) q) refl
              refl refl)
      served (err no_buffer_available) q =
          rw (send, p, q)
            (record { reason = inl refl; outgoing = refl; upcoming = refl; no_buffer = refl })
      served (err PoolError.size_too_big) q =
          rw (send, p, q)
            (record { reason = inr refl; outgoing = refl; upcoming = refl; no_buffer = refl })
      served panicked q =
          elim (allocate_buffer_cases (builders F) c.output_buffer_pool (length msg)) [
            | inl (big, e) ↦ cc
            | inr (inl (fits, (i, f, e))) ↦ cc
            | inr (inr (fits, all, e)) ↦ cc
          ]
