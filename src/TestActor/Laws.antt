-- ===== src/TestActor/Laws.antt =====
-- Every message that the test actor receives takes bytes of the stream, and the loop of
-- `recv_one_msg_actor` comes to an end (lib.rs, connector/mod.rs).
use tansiv.Base.{
  ℕ, zero, suc, ◌+◌, ◌≤◌, ◌<◌, ◌≡◌, ◌≢◌, refl, Option, Option-cases, inl, inr, none, List, arith,
  length, Result, ok, err, panicked,
}
use tansiv.Error.{IoError}
use tansiv.BufferPool.{BufferPool}
use tansiv.BufferPool.Builders.{Flatbuffers, builders}
use tansiv.Connector.{Codec, Handle, Reader, Pool, MsgIn, read_exact, read_prefixed_size, allocate}
use tansiv.Connector.Recv.{length-read_exact}
use tansiv.Connector.Send.{MsgOut}
use tansiv.Connector.Stream.{length-read_prefixed_size}
use tansiv.Connector.Wire.{Encoder, send_in}
use tansiv.Connector.Wire.Actor.{ToTansivMsg, recv_out}
use tansiv.TestActor.{
  TestActor, TestError, recv, send, write_all, recv_one_from, recv_one_msg_actor, send_control,
}

module _ (codec : Codec) (F : Flatbuffers) (root : List ℕ → Option ToTansivMsg) where
  -- Every message that the actor receives takes the four bytes of its size from the stream, at least.
  pub recv_out-consumes :
      (r : Reader) (pool : Pool) (fb_pool : BufferPool (builders F)) {m : MsgOut F}
      → (recv_out codec F root (r, pool, fb_pool)).0 ≡ ok m
      → length (recv_out codec F root (r, pool, fb_pool)).1.0.bytes + 4 ≤ length r.bytes
  unfolding recv_out
  recv_out-consumes r pool fb_pool {m} h = go (read_prefixed_size codec r).0 refl
    where
      r₁ : Reader
      r₁ = (read_prefixed_size codec r).1

      content :
          (n : ℕ)
          → (read_prefixed_size codec r).0 ≡ ok n
          → (b : Handle) (pool' : Pool) → allocate pool n ≡ ok (b, pool')
          → (c : Result IoError (List ℕ)) → (read_exact r₁ n).0 ≡ c
          → length (recv_out codec F root (r, pool, fb_pool)).1.0.bytes + 4 ≤ length r.bytes
      content n e b pool' q (ok c) f =
          rw (e, recv_out, q, f)
            (omega (arith, length-read_exact r₁ n, length-read_prefixed_size codec r e))
      content n e b pool' q (err x) f = cc (rw (e, recv_out, q, f) at h)
      content n e b pool' q panicked f = cc (rw (e, recv_out, q, f) at h)

      alloc :
          (n : ℕ)
          → (read_prefixed_size codec r).0 ≡ ok n
          → (a : Result IoError (Handle × Pool)) → allocate pool n ≡ a
          → length (recv_out codec F root (r, pool, fb_pool)).1.0.bytes + 4 ≤ length r.bytes
      alloc n e (ok (b, pool')) q = content n e b pool' q (read_exact r₁ n).0 refl
      alloc n e (err x) q = cc (rw (e, recv_out, q) at h)
      alloc n e panicked q = cc (rw (e, recv_out, q) at h)

      go :
          (size : Result IoError ℕ)
          → (read_prefixed_size codec r).0 ≡ size
          → length (recv_out codec F root (r, pool, fb_pool)).1.0.bytes + 4 ≤ length r.bytes
      go (ok n) e = alloc n e (allocate pool n) refl
      go (err x) e = cc (rw (e, recv_out) at h)
      go panicked e = cc (rw (e, recv_out) at h)

module _ {codec : Codec} (enc : Encoder codec) (F : Flatbuffers)
    (root : List ℕ → Option ToTansivMsg) where
  abbrev Actor : Type 0
  Actor = TestActor enc F root

  -- What is left to read.
  abbrev unread : Actor → ℕ
  unread a = length a.client.bytes

  write_all-unread : (b : List ℕ) (a : Actor) → unread (write_all enc F root b a).1 ≡ unread a
  unfolding write_all
  write_all-unread b a = elim (Option-cases (a.outcome a.attempts)) [
    | inl fine ↦ rw (write_all, fine) refl
    | inr (e, failed) ↦ rw (write_all, failed) refl
  ]

  send-unread :
      (pool : Pool) (msg : MsgIn) (a : Actor) → unread (send enc F root pool msg a).1 ≡ unread a
  unfolding send
  send-unread pool msg a = go (send_in enc F pool a.input_fb_buffer_pool msg).0 refl
    where
      built : Actor
      built = record a { input_fb_buffer_pool = (send_in enc F pool a.input_fb_buffer_pool msg).2 }

      go :
          (b : Result IoError (List ℕ))
          → (send_in enc F pool a.input_fb_buffer_pool msg).0 ≡ b
          → unread (send enc F root pool msg a).1 ≡ unread a
      go (ok b) e = rw (send, e) (write_all-unread b built)
      go (err x) e = rw (send, e) refl
      go panicked e = rw (send, e) refl

  recv-unread :
      (a : Actor) {m : MsgOut F}
      → (recv enc F root a).0 ≡ ok m
      → unread (recv enc F root a).1 + 4 ≤ unread a
  unfolding recv
  recv-unread a {m} h =
      go (recv_out codec F root (a.client, a.input_buffer_pool, a.input_fb_buffer_pool)).0 refl
    where
      go :
          (r : Result IoError (MsgOut F))
          → (recv_out codec F root (a.client, a.input_buffer_pool, a.input_fb_buffer_pool)).0 ≡ r
          → unread (recv enc F root a).1 + 4 ≤ unread a
      go (ok m') e =
          recv_out-consumes codec F root a.client a.input_buffer_pool a.input_fb_buffer_pool e
      go (err x) e = cc (rw (recv, e) at h)
      go panicked e = cc (rw (recv, e) at h)

  -- A turn of the loop of the actor that receives one message, with the lemma for the turns after it.
  module _ (fuel : ℕ)
      (rest : (deadline : ℕ) (a : Actor)
        → unread a < fuel
        → recv_one_from enc F root fuel deadline a ≢ none) where
    abbrev first : ℕ → Actor → Result TestError (Unit {0}) × Actor
    first deadline a = send_control enc F root (MsgIn.goto_deadline (deadline + 100_000)) a

    receiving :
        (deadline : ℕ) (a : Actor)
        → unread a < suc fuel
        → (first deadline a).0 ≡ ok tt
        → (r : Result TestError (MsgOut F)) → (recv enc F root (first deadline a).1).0 ≡ r
        → recv_one_from enc F root (suc fuel) deadline a ≢ none
    unfolding recv_one_from
    receiving deadline a lt e (ok MsgOut.at_deadline) f =
        let less = recv-unread (first deadline a).1 f in
        let same = send-unread a.input_buffer_pool (MsgIn.goto_deadline (deadline + 100_000)) a in
        rw (recv_one_from, e, f)
          (rest (deadline + 100_000) (recv enc F root (first deadline a).1).1
            (omega (arith, less, same, lt)))
    receiving deadline a lt e (ok (MsgOut.send_packet p)) f = rw (recv_one_from, e, f) (λ h. cc)
    receiving deadline a lt e (err x) f = rw (recv_one_from, e, f) (λ h. cc)
    receiving deadline a lt e panicked f = rw (recv_one_from, e, f) (λ h. cc)

    sending :
        (deadline : ℕ) (a : Actor)
        → unread a < suc fuel
        → (r : Result TestError (Unit {0})) → (first deadline a).0 ≡ r
        → recv_one_from enc F root (suc fuel) deadline a ≢ none
    unfolding recv_one_from
    sending deadline a lt (ok u) e =
        receiving deadline a lt e (recv enc F root (first deadline a).1).0 refl
    sending deadline a lt (err x) e = rw (recv_one_from, e) (λ h. cc)
    sending deadline a lt panicked e = rw (recv_one_from, e) (λ h. cc)

  recv_one_from_ends :
      (fuel deadline : ℕ) (a : Actor)
      → unread a < fuel
      → recv_one_from enc F root fuel deadline a ≢ none
  recv_one_from_ends zero deadline a lt = absurd (omega arith)
  recv_one_from_ends (suc fuel) deadline a lt =
      sending fuel (λ d a' l. recv_one_from_ends fuel d a' l) deadline a lt
        (send_control enc F root (MsgIn.goto_deadline (deadline + 100_000)) a).0 refl

  -- The loop of the actor that receives one message ends, whatever the client sends.
  pub recv_one_msg_actor_ends : (a : Actor) → recv_one_msg_actor enc F root a ≢ none
  unfolding recv_one_msg_actor
  recv_one_msg_actor_ends a = recv_one_from_ends (suc (unread a)) 0 a (omega arith)
