-- ===== src/Context/Run/OutputSteps.antt =====
-- The sending part of `at_deadline` (lib.rs) keeps the account of the output pool.
use tansiv.Base.{ℕ, ◌≡◌, ap, ◌∙◌, sym, Bool-cases, inl, inr}
use tansiv.BufferPool.Builders.{Flatbuffers}
use tansiv.OutputMsgSet.{OutputMsgSet, drain}
use tansiv.OutputMsgSet.Listing.{pending, IsSettled}
use tansiv.OutputMsgSet.Drain.{drain_lem}
use tansiv.InputQueue.{ArrayQueue}
use tansiv.Connector.{Codec, Handle}
use tansiv.Connector.Send
use tansiv.Timer.Interface.{Timer}
use tansiv.Context.{Context, OutputMsg, send_outgoing, send_upcoming, send_phase}
use tansiv.Context.Run.Output.{Owned, Loop, each-Loop, Upcoming, send_upcoming-Upcoming}

module _ (codec : Codec) (F : Flatbuffers) (aq : ArrayQueue Handle) (tm : Timer) where
  abbrev Ctx : Type 0
  Ctx = Context codec F aq tm

  abbrev Msg : Type 0
  Msg = OutputMsg codec F aq tm

  -- The set is settled and has as many slots as the pool has buffers, and each busy buffer is that of
  -- one message of the set or of the upcoming ones.
  pub record Output (c : Ctx) : Type 0 where
    pub settled : IsSettled c.outgoing_messages
    pub owned :
        Owned codec F aq tm c.outgoing_messages.num_slots
          (pending c.outgoing_messages)
          c.upcoming_messages
          c

  -- A step that sends: it keeps the account, and leaves what is received alone.
  pub record Sends (c c' : Ctx) : Type 0 where
    pub output : Output c'
    pub input_pool : c'.input_buffer_pool ≡ c.input_buffer_pool
    pub queue : c'.input_queue ≡ c.input_queue

  -- The context after the drain, with what the loop over the list of messages has left.
  drained-Output :
      (n : ℕ) (c c₁ : Ctx) (set : OutputMsgSet Msg)
      → Loop codec F aq tm n c.upcoming_messages c (pending set) c₁
      → IsSettled set
      → set.num_slots ≡ n
      → Output (record c₁ { outgoing_messages = set })
  drained-Output n c c₁ set l v size = record {
    settled = v;
    owned = rw l.upcoming (record { account = l.owned.account; size = l.owned.size ∙ sym size });
  }

  sent-Output :
      (c c₂ : Ctx) (w : Send.Writer)
      → Output c
      → Upcoming codec F aq tm c.outgoing_messages.num_slots (pending c.outgoing_messages) c c₂
      → Output (record c₂ { writer = w })
  sent-Output c c₂ w o u = record {
    settled = rw u.outgoing o.settled;
    owned = rw u.outgoing (record { account = u.owned.account; size = u.owned.size });
  }

  pub send_phase-Sends :
      (previous current : ℕ) (c : Ctx)
      → Output c
      → Sends c (send_phase codec F aq tm previous current c).1
  unfolding send_phase
  send_phase-Sends previous current c o =
      let body = send_outgoing codec F aq tm previous current in
      let ms = pending c.outgoing_messages in
      let n = c.outgoing_messages.num_slots in
      let r = drain body c.outgoing_messages c in
      let d = drain_lem body c.outgoing_messages c o.settled in
      let l : Loop codec F aq tm n c.upcoming_messages c (pending r.1) r.2 =
        rw (ap (λ x. x.1) d.outcome, ap (λ x. x.2) d.outcome)
          (each-Loop codec F aq tm previous current n ms c.upcoming_messages c o.owned) in
      let drained : Ctx = record r.2 { outgoing_messages = r.1 } in
      let o' : Output drained = drained-Output n c r.2 r.1 l d.settled d.size in
      let u =
        send_upcoming-Upcoming codec F aq tm current r.1.num_slots drained.upcoming_messages
          (pending r.1) drained o'.owned in
      let c₂ : Ctx = (send_upcoming codec F aq tm current drained.upcoming_messages drained).1 in
      elim (Bool-cases r.0) [
        | inr stop ↦
            rw (send_phase, stop)
              (record { output = o'; input_pool = l.input_pool; queue = l.queue })
        | inl go ↦
            elim (Bool-cases
              (send_upcoming codec F aq tm current drained.upcoming_messages drained).0) [
                | inr stop ↦
                    rw (send_phase, go, stop)
                      (record {
                        output = sent-Output drained c₂ c₂.writer o' u;
                        input_pool = u.input_pool ∙ l.input_pool;
                        queue = u.queue ∙ l.queue;
                      })
                | inl go' ↦
                    rw (send_phase, go, go')
                      (record {
                        output = sent-Output drained c₂ _ o' u;
                        input_pool = u.input_pool ∙ l.input_pool;
                        queue = u.queue ∙ l.queue;
                      })
              ]
      ]
