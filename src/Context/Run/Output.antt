-- ===== src/Context/Run/Output.antt =====
-- The buffers of the messages to send, in `at_deadline` and `send` (lib.rs): each busy buffer of the
-- output pool is that of one message, which waits in the set or among the upcoming ones.
use tansiv.Base.{
  ℕ, ◌+◌, ◌≡◌, refl, ◌∙◌, Bool-cases, List, [], ◌∷◌, ◌++◌, map, arith, ltb, leb, inl, inr,
}
use tansiv.BufferPool
use tansiv.BufferPool.{BufferPool, Buffer, allocate_buffer}
use tansiv.BufferPool.Handles.{occurrences}
use tansiv.BufferPool.Accounts.{Account, Account-occurrences, Account-drop}
use tansiv.BufferPool.Builders.{Flatbuffers, builders}
use tansiv.OutputMsgSet.Drain.{each}
use tansiv.InputQueue.{ArrayQueue}
use tansiv.Connector.{Codec, Handle}
use tansiv.Timer.Interface.{Timer}
use tansiv.Context.{Context, OutputMsg, send_packet, send_outgoing, send_upcoming}

module _ (codec : Codec) (F : Flatbuffers) (aq : ArrayQueue Handle) (tm : Timer) where
  abbrev Ctx : Type 0
  Ctx = Context codec F aq tm

  abbrev Msg : Type 0
  Msg = OutputMsg codec F aq tm

  abbrev pub buffers : List Msg → List (Buffer (builders F))
  buffers ms = map (λ m. m.buffer) ms

  pub occurrences-buffers :
      (i : ℕ) (xs ys : List Msg)
      → occurrences (builders F) i (buffers (xs ++ ys))
        ≡ occurrences (builders F) i (buffers xs) + occurrences (builders F) i (buffers ys)
  occurrences-buffers i [] ys = omega arith
  occurrences-buffers i (x ∷ xs) ys = omega (arith, occurrences-buffers i xs ys)

  -- The pool of a context has `n` buffers, and those in use are the messages' of two lists.
  pub record Owned (n : ℕ) (outs ups : List Msg) (c : Ctx) : Type 0 where
    pub account : Account (builders F) c.output_buffer_pool (buffers outs) (buffers ups)
    pub size : c.output_buffer_pool.num_buffers ≡ n

  -- What the sending of a message does to the context, whatever its outcome.
  pub record Consumed (m : Msg) (c c' : Ctx) : Type 0 where
    pub pool : c'.output_buffer_pool ≡ BufferPool.drop (builders F) c.output_buffer_pool m.buffer
    pub upcoming : c'.upcoming_messages ≡ c.upcoming_messages
    pub outgoing : c'.outgoing_messages ≡ c.outgoing_messages
    pub input_pool : c'.input_buffer_pool ≡ c.input_buffer_pool
    pub queue : c'.input_queue ≡ c.input_queue

  send_packet-Consumed :
      (m : Msg) (t : ℕ) (c : Ctx) → Consumed m c (send_packet codec F aq tm m t c).0
  unfolding send_packet
  send_packet-Consumed m t c = record {
    pool = refl;
    upcoming = refl;
    outgoing = refl;
    input_pool = refl;
    queue = refl;
  }

  send_outgoing-Consumed :
      (previous current : ℕ) (m : Msg) (c : Ctx)
      → Consumed m c (send_outgoing codec F aq tm previous current m c).0
  unfolding send_outgoing
  send_outgoing-Consumed previous current m c = elim (Bool-cases (ltb m.send_time previous)) [
    | inl early ↦ rw early (send_packet-Consumed m previous c)
    | inr in_order ↦ elim (Bool-cases (ltb current m.send_time)) [
      | inl late ↦
          rw (in_order, late)
            (record {
              pool = refl;
              upcoming = refl;
              outgoing = refl;
              input_pool = refl;
              queue = refl;
            })
      | inr in_time ↦ rw (in_order, in_time) (send_packet-Consumed m m.send_time c)
    ]
  ]

  Owned-Consumed :
      {n : ℕ} {outs ups : List Msg} {m : Msg} {c c' : Ctx}
      → Consumed m c c'
      → Owned n (m ∷ outs) ups c
      → Owned n outs ups c'
  unfolding BufferPool.drop
  Owned-Consumed {m = m} e o = record {
    account = rw e.pool (Account-drop (builders F) m.buffer o.account);
    size = rw e.pool o.size;
  }

  Owned-swap : {n : ℕ} {outs ups : List Msg} {c : Ctx} → Owned n outs ups c → Owned n ups outs c
  Owned-swap o = record {
    account = Account-occurrences (builders F) (λ i. omega arith) o.account;
    size = o.size;
  }

  -- A loop that consumes its messages, run over a list of them.
  pub record Loop (n : ℕ) (ups : List Msg) (c : Ctx) (left : List Msg) (c' : Ctx) : Type 0 where
    pub owned : Owned n left ups c'
    pub upcoming : c'.upcoming_messages ≡ c.upcoming_messages
    pub input_pool : c'.input_buffer_pool ≡ c.input_buffer_pool
    pub queue : c'.input_queue ≡ c.input_queue

  pub each-Loop :
      (previous current n : ℕ) (ms ups : List Msg) (c : Ctx)
      → Owned n ms ups c
      → let (go, left, c') = each (send_outgoing codec F aq tm previous current) ms c in
        Loop n ups c left c'
  each-Loop previous current n [] ups c o = record {
    owned = o;
    upcoming = refl;
    input_pool = refl;
    queue = refl;
  }
  each-Loop previous current n (m ∷ ms) ups c o =
      let e = send_outgoing-Consumed previous current m c in
      let c₁ : Ctx = (send_outgoing codec F aq tm previous current m c).0 in
      let after = Owned-Consumed e o in
      elim (Bool-cases (send_outgoing codec F aq tm previous current m c).1) [
        | inr stop ↦
            rw (stop, each)
              (record {
                owned = after;
                upcoming = e.upcoming;
                input_pool = e.input_pool;
                queue = e.queue;
              })
        | inl go ↦
            let rest = each-Loop previous current n ms ups c₁ after in
            rw (go, each)
              (record {
                owned = rest.owned;
                upcoming = rest.upcoming ∙ e.upcoming;
                input_pool = rest.input_pool ∙ e.input_pool;
                queue = rest.queue ∙ e.queue;
              })
      ]

  -- The same of the loop over the upcoming messages, which stores those that are left.
  pub record Upcoming (n : ℕ) (outs : List Msg) (c c' : Ctx) : Type 0 where
    pub owned : Owned n outs c'.upcoming_messages c'
    pub outgoing : c'.outgoing_messages ≡ c.outgoing_messages
    pub input_pool : c'.input_buffer_pool ≡ c.input_buffer_pool
    pub queue : c'.input_queue ≡ c.input_queue

  pub send_upcoming-Upcoming :
      (current n : ℕ) (ms outs : List Msg) (c : Ctx)
      → Owned n outs ms c
      → Upcoming n outs c (send_upcoming codec F aq tm current ms c).1
  unfolding send_upcoming
  send_upcoming-Upcoming current n [] outs c o = record {
    owned = record { account = o.account; size = o.size };
    outgoing = refl;
    input_pool = refl;
    queue = refl;
  }
  send_upcoming-Upcoming current n (m ∷ ms) outs c o = elim (Bool-cases (leb m.send_time current)) [
    | inr late ↦ record {
      owned = rw late (record { account = o.account; size = o.size });
      outgoing = rw late refl;
      input_pool = rw late refl;
      queue = rw late refl;
    }
    | inl in_time ↦
        let c₀ : Ctx = record c { upcoming_messages = ms } in
        let o₀ : Owned n outs (m ∷ ms) c₀ = record { account = o.account; size = o.size } in
        let e = send_packet-Consumed m m.send_time c₀ in
        let after = Owned-swap (Owned-Consumed e (Owned-swap o₀)) in
        elim (Bool-cases (send_packet codec F aq tm m m.send_time c₀).1) [
          | inr stop ↦
              rw (in_time, stop)
                (record {
                  owned = rw e.upcoming after;
                  outgoing = e.outgoing;
                  input_pool = e.input_pool;
                  queue = e.queue;
                })
          | inl go ↦
              let rest =
                send_upcoming-Upcoming current n ms outs
                  (send_packet codec F aq tm m m.send_time c₀).0 after in
              rw (in_time, go)
                (record {
                  owned = rest.owned;
                  outgoing = rest.outgoing ∙ e.outgoing;
                  input_pool = rest.input_pool ∙ e.input_pool;
                  queue = rest.queue ∙ e.queue;
                })
        ]
  ]
