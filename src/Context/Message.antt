-- ===== src/Context/Message.antt =====
-- What one message of the actor does to a context (lib.rs, `handle_actor_msg`).
use tansiv.Base.{◌≡◌, ◌≢◌, refl, ap, ◌∙◌, sym, Option, some, List, [], ◌∷◌, ◌++◌, inl, inr}
use mathlib.Core.List.{append_assoc, append-nil}
use tansiv.BufferPool.Builders.{Flatbuffers}
use tansiv.InputQueue.{ArrayQueue}
use tansiv.InputQueue.Laws.{push_cases, push_below}
use tansiv.Connector.{Codec, Handle, MsgIn}
use tansiv.Timer.Interface.{Timer}
use tansiv.Context.Listening.{Turn, Listens}
use tansiv.Context.Listening
use tansiv.Context.{Context, handle_actor_msg, AfterDeadline, out_of_fuel}

module _ (codec : Codec) (F : Flatbuffers) (aq : ArrayQueue Handle) (tm : Timer) where
  abbrev Ctx : Type 0
  Ctx = Context codec F aq tm

  -- What receiving leaves alone, and that packets only join the queue, at its end.
  pub record Kept (c c' : Ctx) : Type 0 where
    pub queued : (fresh : List Handle) × (aq.items c'.input_queue ≡ aq.items c.input_queue ++ fresh)
    pub recv_calls : c'.recv_calls ≡ c.recv_calls
    pub deadline_calls : c'.deadline_calls ≡ c.deadline_calls
    pub writer : c'.writer ≡ c.writer
    pub outgoing : c'.outgoing_messages ≡ c.outgoing_messages
    pub upcoming : c'.upcoming_messages ≡ c.upcoming_messages
    pub output_pool : c'.output_buffer_pool ≡ c.output_buffer_pool
    pub timer : c'.timer_context ≡ c.timer_context

  pub unchanged : (c : Ctx) → Kept c c
  unchanged c = record {
    queued = ([], sym (append-nil (aq.items c.input_queue)));
    recv_calls = refl;
    deadline_calls = refl;
    writer = refl;
    outgoing = refl;
    upcoming = refl;
    output_pool = refl;
    timer = refl;
  }

  pub Kept-trans : {c₁ c₂ c₃ : Ctx} → Kept c₁ c₂ → Kept c₂ c₃ → Kept c₁ c₃
  Kept-trans {c₁} {c₂} {c₃} p q =
      let (xs, e) = p.queued in
      let (ys, f) = q.queued in
      record {
        queued = (xs ++ ys, f ∙ ap (λ l. l ++ ys) e ∙ append_assoc (aq.items c₁.input_queue) xs ys);
        recv_calls = q.recv_calls ∙ p.recv_calls;
        deadline_calls = q.deadline_calls ∙ p.deadline_calls;
        writer = q.writer ∙ p.writer;
        outgoing = q.outgoing ∙ p.outgoing;
        upcoming = q.upcoming ∙ p.upcoming;
        output_pool = q.output_pool ∙ p.output_pool;
        timer = q.timer ∙ p.timer;
      }

  -- A handled message takes nothing from the stream, and ends the loop with an outcome of its own.
  pub record Handled (c : Ctx) (r : Option AfterDeadline × Ctx) : Type 0 where
    pub reader : r.1.reader ≡ c.reader
    pub ended : r.0 ≢ some out_of_fuel
    pub kept : Kept c r.1
    pub capacity : aq.capacity r.1.input_queue ≡ aq.capacity c.input_queue

  -- What the message has done.
  abbrev pub Turned : MsgIn → Ctx → Option AfterDeadline × Ctx → Type 0
  Turned m c r =
      Turn (aq.capacity c.input_queue) c.input_buffer_pool (aq.items c.input_queue) m r.0
        r.1.input_buffer_pool (aq.items r.1.input_queue)

  pub handle_actor_msg-Handled :
      (m : MsgIn) (c : Ctx) → Handled c (handle_actor_msg codec F aq tm m c)
  unfolding handle_actor_msg
  handle_actor_msg-Handled (MsgIn.deliver_packet d) c = elim (push_cases aq c.input_queue d) [
    | inl (q, p, l, n) ↦
        rw (p, handle_actor_msg)
          (record {
            reader = refl;
            ended = λ h. cc;
            kept = record {
              queued = (d ∷ [], l);
              recv_calls = refl;
              deadline_calls = refl;
              writer = refl;
              outgoing = refl;
              upcoming = refl;
              output_pool = refl;
              timer = refl;
            };
            capacity = n;
          })
    | inr (full, p) ↦
        rw (p, handle_actor_msg)
          (record {
            reader = refl;
            ended = λ h. cc;
            kept = record {
              queued = (unchanged c).queued;
              recv_calls = refl;
              deadline_calls = refl;
              writer = refl;
              outgoing = refl;
              upcoming = refl;
              output_pool = refl;
              timer = refl;
            };
            capacity = refl;
          })
  ]
  handle_actor_msg-Handled (MsgIn.goto_deadline d) c = record {
    reader = refl;
    ended = λ h. cc;
    kept = unchanged c;
    capacity = refl;
  }
  handle_actor_msg-Handled MsgIn.end_simulation c = record {
    reader = refl;
    ended = λ h. cc;
    kept = unchanged c;
    capacity = refl;
  }

  pub handle_actor_msg-Turned :
      (m : MsgIn) (c : Ctx) → Turned m c (handle_actor_msg codec F aq tm m c)
  unfolding handle_actor_msg
  handle_actor_msg-Turned (MsgIn.deliver_packet d) c = elim (push_cases aq c.input_queue d) [
    | inl (q, p, l, n) ↦
        rw (p, handle_actor_msg, l) (Listening.queued d (push_below aq c.input_queue d p))
    | inr (full, p) ↦ rw (p, handle_actor_msg) (Listening.refused d full)
  ]
  handle_actor_msg-Turned (MsgIn.goto_deadline d) c = Listening.goes_to d
  handle_actor_msg-Turned MsgIn.end_simulation c = Listening.ends
