-- ===== src/Context/Run/OutputSends.antt =====
-- `send` (lib.rs) keeps the account of the output pool, whatever its outcome.
use tansiv.Base.{
  ℕ, ◌≡◌, refl, ap, ◌∙◌, sym, none, Option-cases, List, [], ◌∷◌, ◌++◌, map, arith, inl, inr, length,
  Result, ok, err, panicked,
}
use tansiv.Error.{IoError, PoolError, SetError}
use tansiv.BufferPool.{BufferPool, Buffer, allocate_buffer}
use tansiv.BufferPool
use tansiv.BufferPool.Alloc.{allocate_buffer-Served}
use tansiv.BufferPool.Handles.{occurrences}
use tansiv.BufferPool.Accounts.{Account, Account-occurrences, Account-allocate_buffer, Account-drop}
use tansiv.BufferPool.Builders.{Flatbuffers, builders}
use tansiv.OutputMsgSet.{OutputMsgSet, insert}
use tansiv.OutputMsgSet.Listing.{pending, IsSettled, insert-pending, insert_cases}
use tansiv.InputQueue.{ArrayQueue}
use tansiv.Connector.{Codec, Handle}
use tansiv.Connector.Send
use tansiv.Timer.Interface.{Timer}
use tansiv.Context.{Context, OutputMsg}
use tansiv.Context.Application.{enqueue, send}
use tansiv.Context.Run.Output.{buffers, occurrences-buffers}
use tansiv.Context.Run.OutputSteps.{Output, Sends}

module _ (codec : Codec) (F : Flatbuffers) (aq : ArrayQueue Handle) (tm : Timer) where
  abbrev Ctx : Type 0
  Ctx = Context codec F aq tm

  abbrev Msg : Type 0
  Msg = OutputMsg codec F aq tm

  -- The context `c₁` has a buffer more than `c`, for a message that is not stored yet.
  pub record Holding (b : Buffer (builders F)) (c c₁ : Ctx) : Type 0 where
    pub account :
        Account
          (builders F)
          c₁.output_buffer_pool
          (b ∷ buffers codec F aq tm (pending c.outgoing_messages))
          (buffers codec F aq tm c.upcoming_messages)
    pub size : c₁.output_buffer_pool.num_buffers ≡ c.outgoing_messages.num_slots
    pub outgoing : c₁.outgoing_messages ≡ c.outgoing_messages
    pub upcoming : c₁.upcoming_messages ≡ c.upcoming_messages
    pub input_pool : c₁.input_buffer_pool ≡ c.input_buffer_pool
    pub queue : c₁.input_queue ≡ c.input_queue

  module _ (c c₁ : Ctx) (b : Buffer (builders F)) (v : IsSettled c.outgoing_messages)
      (h : Holding b c c₁) where
    stored-Sends :
        (m : Msg) (set : OutputMsgSet Msg)
        → m.buffer ≡ b
        → insert c₁.outgoing_messages m ≡ ok set
        → Sends codec F aq tm c (record c₁ { outgoing_messages = set })
    stored-Sends m set mb q =
        let (w, size, (before, after, x, y)) =
          insert-pending c₁.outgoing_messages m (rw h.outgoing v) q in
        let x' : pending c.outgoing_messages ≡ before ++ after = ap pending (sym h.outgoing) ∙ x in
        record {
          output = record {
            settled = w;
            owned = record {
              account =
                  Account-occurrences (builders F)
                    (λ i.
                      rw (y, h.upcoming, x')
                        (omega (
                          arith,
                          occurrences-buffers codec F aq tm i before after,
                          occurrences-buffers codec F aq tm i before (m ∷ after),
                          ap (λ (k : Buffer (builders F)). occurrences (builders F) i (k ∷ [])) mb,
                        )))
                    h.account;
              size = h.size ∙ ap (λ s. s.num_slots) (sym h.outgoing) ∙ sym size;
            };
          };
          input_pool = h.input_pool;
          queue = h.queue;
        }

    kept_back-Sends :
        (m : Msg)
        → m.buffer ≡ b
        → Sends codec F aq tm c (record c₁ { upcoming_messages = c₁.upcoming_messages ++ m ∷ [] })
    kept_back-Sends m mb = record {
      output = record {
        settled = rw h.outgoing v;
        owned = record {
          account =
              Account-occurrences (builders F)
                (λ i.
                  rw (h.upcoming, h.outgoing)
                    (omega (
                      arith,
                      occurrences-buffers codec F aq tm i c.upcoming_messages (m ∷ []),
                      ap (λ (k : Buffer (builders F)). occurrences (builders F) i (k ∷ [])) mb,
                    )))
                h.account;
          size = rw h.outgoing h.size;
        };
      };
      input_pool = h.input_pool;
      queue = h.queue;
    }

    refused-Sends :
        Sends codec F aq tm c
          (record c₁ { output_buffer_pool = BufferPool.drop (builders F) c₁.output_buffer_pool b })
    unfolding BufferPool.drop
    refused-Sends = record {
      output = record {
        settled = rw h.outgoing v;
        owned = record {
          account = rw (h.upcoming, h.outgoing) (Account-drop (builders F) b h.account);
          size = rw h.outgoing h.size;
        };
      };
      input_pool = h.input_pool;
      queue = h.queue;
    }

  allocated-Holding :
      (c c₁ : Ctx) (size : ℕ) {b : Buffer (builders F)} {pool : BufferPool (builders F)}
      → Output codec F aq tm c
      → c₁ ≡ record c { timer_context = c₁.timer_context }
      → allocate_buffer (builders F) c.output_buffer_pool size ≡ ok (b, pool)
      → Holding b c (record c₁ { output_buffer_pool = pool })
  allocated-Holding c c₁ size {b} {pool} o same q = record {
    account = Account-allocate_buffer (builders F) size q o.owned.account;
    size =
        ap (λ p. p.num_buffers)
          (ap (λ r. r.1) (allocate_buffer-Served (builders F) c.output_buffer_pool size q).same)
        ∙ o.owned.size;
    outgoing = ap (λ x. x.outgoing_messages) same;
    upcoming = ap (λ x. x.upcoming_messages) same;
    input_pool = ap (λ x. x.input_buffer_pool) same;
    queue = ap (λ x. x.input_queue) same;
  }

  unsent-Sends :
      (c c₁ : Ctx)
      → Output codec F aq tm c
      → c₁ ≡ record c { timer_context = c₁.timer_context }
      → Sends codec F aq tm c c₁
  unsent-Sends c c₁ o same = rw same (record {
    output = record {
      settled = o.settled;
      owned = record { account = o.owned.account; size = o.owned.size };
    };
    input_pool = refl;
    queue = refl;
  })

  enqueue-Sends :
      (c c₁ : Ctx) (dst t : ℕ) (msg : List ℕ) (b : Buffer (builders F))
      → IsSettled c.outgoing_messages
      → Holding b c c₁
      → Sends codec F aq tm c (enqueue codec F aq tm c₁ dst t msg b).1
  unfolding enqueue Send.new
  enqueue-Sends c c₁ dst t msg b v h =
      elim (Option-cases (
        tm.check_deadline_overrun c₁.timer_context t
          (map (λ m. m.send_time) c₁.upcoming_messages))) [
            | inr (later, p) ↦
                rw (enqueue, p)
                  (kept_back-Sends c c₁ b v h (Send.new F c₁.address dst later msg b) refl)
            | inl p ↦ go (insert c₁.outgoing_messages (Send.new F c₁.address dst t msg b)) refl p
          ]
    where
      go :
          (r : Result SetError (OutputMsgSet Msg))
          → insert c₁.outgoing_messages (Send.new F c₁.address dst t msg b) ≡ r
          → tm.check_deadline_overrun c₁.timer_context t
              (map (λ m. m.send_time) c₁.upcoming_messages)
            ≡ none
          → Sends codec F aq tm c (enqueue codec F aq tm c₁ dst t msg b).1
      go (ok set) q p =
          rw (enqueue, p, q)
            (stored-Sends c c₁ b v h (Send.new F c₁.address dst t msg b) set refl q)
      go (err e) q p = rw (enqueue, p, q) (refused-Sends c c₁ b v h)
      go panicked q p =
          elim (insert_cases c₁.outgoing_messages (Send.new F c₁.address dst t msg b)) [
            | inl (i, lt, free, e) ↦ cc
            | inr (all, e) ↦ cc
          ]

  pub send-Sends :
      (c : Ctx) (dst : ℕ) (msg : List ℕ)
      → Output codec F aq tm c
      → Sends codec F aq tm c (send codec F aq tm c dst msg).1
  unfolding send
  send-Sends c dst msg o = clock (tm.simulation_now c.timer_context).0 refl
    where
      c₁ : Ctx
      c₁ = record c { timer_context = (tm.simulation_now c.timer_context).1 }

      served :
          (t : ℕ)
          → (tm.simulation_now c.timer_context).0 ≡ ok t
          → (r : Result PoolError (Buffer (builders F) × BufferPool (builders F)))
          → allocate_buffer (builders F) c.output_buffer_pool (length msg) ≡ r
          → Sends codec F aq tm c (send codec F aq tm c dst msg).1
      served t p (ok (b, pool)) q =
          rw (send, p, q)
            (enqueue-Sends c (record c₁ { output_buffer_pool = pool }) dst t msg b o.settled
              (allocated-Holding c c₁ (length msg) o refl q))
      served t p (err e) q = rw (send, p, q) (unsent-Sends c c₁ o refl)
      served t p panicked q = rw (send, p, q) (unsent-Sends c c₁ o refl)

      clock :
          (r : Result IoError ℕ)
          → (tm.simulation_now c.timer_context).0 ≡ r
          → Sends codec F aq tm c (send codec F aq tm c dst msg).1
      clock (ok t) p =
          served t p (allocate_buffer (builders F) c.output_buffer_pool (length msg)) refl
      clock (err e) p = rw (send, p) (unsent-Sends c c₁ o refl)
      clock panicked p = rw (send, p) (unsent-Sends c c₁ o refl)
