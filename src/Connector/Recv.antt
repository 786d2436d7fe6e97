-- ===== src/Connector/Recv.antt =====
-- What a call of `MsgIn::recv` takes from the stream and from the buffer pool (connector/mod.rs).
use tansiv.Base.{
  ℕ, ◌≤◌, ◌<◌, ◌≡◌, ◌≢◌, ◌∙◌, refl, ap, true, false, List, arith, update, length, take, drop,
  length-drop, Result, ok, err, panicked, inl, inr, ◌⊎◌,
}
use tansiv.Error.{IoError, invalid_data, other, PoolError}
use tansiv.BufferPool.{BufferPool, Buffer, allocate_buffer, deref, deref_mut}
use tansiv.BufferPool
use tansiv.BufferPool.Bytes.{bytes}
use tansiv.BufferPool.Alloc.{allocate_buffer-Served}
use tansiv.Connector.{
  Codec, Reader, Pool, Handle, MsgIn, read_exact, allocate, read_prefixed_size, decode, release,
  new_deliver_packet, new_goto_deadline, recv_into, recv,
}

-- A read that succeeds takes that many bytes, from the front.
pub read_exact-ok :
    (r : Reader) (n : ℕ) {b : List ℕ} {r' : Reader}
    → read_exact r n ≡ (ok b, r')
    → (n ≤ length r.bytes) × (b ≡ take n r.bytes) × (r' ≡ record r { bytes = drop n r.bytes })
unfolding read_exact
read_exact-ok r n h = ground arith

pub length-read_exact : (r : Reader) (n : ℕ) → length (read_exact r n).1.bytes ≤ length r.bytes
unfolding read_exact
length-read_exact r n = ground (arith, length-drop n r.bytes)

module _ (codec : Codec) where
  pub decode-deliver_packet :
      (content : List ℕ) (buffer : Handle) {b : Handle}
      → decode codec content buffer ≡ ok (MsgIn.deliver_packet b)
      → b ≡ buffer
  unfolding decode new_deliver_packet new_goto_deadline
  decode-deliver_packet content buffer h = ground arith

  -- A packet that is delivered keeps its buffer; in any other case the buffer is free again.
  abbrev Kept : Handle → Pool → Result IoError MsgIn → Pool → Type 0
  Kept buffer pool msg after =
      ((msg ≡ ok (MsgIn.deliver_packet buffer))
        × ((i : ℕ) → after.buffer_busy i ≡ pool.buffer_busy i))
      ⊎ (((b : Handle) → msg ≢ ok (MsgIn.deliver_packet b))
          × ((i : ℕ) → after.buffer_busy i ≡ update pool.buffer_busy buffer.index false i))

  release-Kept :
      (content : List ℕ) (buffer : Handle) (pool : Pool) (msg : Result IoError MsgIn)
      → decode codec content buffer ≡ msg
      → Kept buffer pool msg (release codec msg buffer pool)
  unfolding BufferPool.drop
  release-Kept content buffer pool (ok (MsgIn.deliver_packet b)) e =
      inl
        (ap (λ x. ok (MsgIn.deliver_packet x)) (decode-deliver_packet content buffer e), λ i. refl)
  release-Kept content buffer pool (ok (MsgIn.goto_deadline d)) e = inr ((λ b h. cc), λ i. refl)
  release-Kept content buffer pool (ok MsgIn.end_simulation) e = inr ((λ b h. cc), λ i. refl)
  release-Kept content buffer pool (err x) e = inr ((λ b h. cc), λ i. refl)
  release-Kept content buffer pool panicked e = inr ((λ b h. cc), λ i. refl)

  recv_into-Kept :
      (size : ℕ) (buffer : Handle) (r : Reader) (pool : Pool)
      → Kept buffer pool
          (recv_into codec size buffer r pool).0
          (recv_into codec size buffer r pool).2
  unfolding recv_into deref_mut BufferPool.drop
  recv_into-Kept size buffer r pool = go (read_exact r size).0 refl
    where
      go :
          (read : Result IoError (List ℕ))
          → (read_exact r size).0 ≡ read
          → Kept buffer pool
              (recv_into codec size buffer r pool).0
              (recv_into codec size buffer r pool).2
      go (ok b) e =
          rw (e, recv_into)
            (release-Kept (deref bytes (deref_mut bytes pool buffer b) buffer) buffer
              (deref_mut bytes pool buffer b) _ refl)
      go (err x) e = rw (e, recv_into) (inr ((λ b h. cc), λ i. refl))
      go panicked e = rw (e, recv_into) (inr ((λ b h. cc), λ i. refl))

  -- What a call of `recv` does to the flags of the pool.
  pub data Accounts (pool : Pool) (msg : Result IoError MsgIn) (after : Pool) : Type 0 where
    delivered :
        (b : Handle)
        → msg ≡ ok (MsgIn.deliver_packet b)
        → b.index < pool.num_buffers
        → pool.buffer_busy b.index ≡ false
        → ((i : ℕ) → after.buffer_busy i ≡ update pool.buffer_busy b.index true i)
        → Accounts pool msg after
    unchanged :
        ((b : Handle) → msg ≢ ok (MsgIn.deliver_packet b))
        → ((i : ℕ) → after.buffer_busy i ≡ pool.buffer_busy i)
        → Accounts pool msg after

  allocated-Accounts :
      (n : ℕ) (r : Reader) (pool : Pool) {buffer : Handle} {pool' : Pool}
      → allocate_buffer bytes pool n ≡ ok (buffer, pool')
      → Accounts pool (recv_into codec n buffer r pool').0 (recv_into codec n buffer r pool').2
  allocated-Accounts n r pool {buffer} {pool'} e =
      let v = allocate_buffer-Served bytes pool n e in
      let busy : (i : ℕ) → pool'.buffer_busy i ≡ update pool.buffer_busy buffer.index true i =
        λ i. ground (arith, v.same) in
      elim (recv_into-Kept n buffer r pool') [
        | inl (is, flags) ↦ delivered buffer is v.below v.free (λ i. flags i ∙ busy i)
        | inr (isnt, flags) ↦ unchanged isnt (λ i. ground (arith, flags i, busy i, v.free))
      ]

  -- `recv` keeps the pool's account, on every path: a packet that is delivered has a buffer of its
  -- own, which was free, and is the only one that the call has taken; after any other message and
  -- after every error the same buffers are in use as before.
  pub recv-Accounts :
      (r : Reader) (pool : Pool) → Accounts pool (recv codec r pool).0 (recv codec r pool).2
  unfolding recv allocate
  recv-Accounts r pool = go (read_prefixed_size codec r).0 refl
    where
      nothing : (e : IoError) → Accounts pool (err e) pool
      nothing e = unchanged (λ b h. cc) (λ i. refl)

      alloc :
          (n : ℕ)
          → (read_prefixed_size codec r).0 ≡ ok n
          → (a : Result PoolError (Handle × Pool)) → allocate_buffer bytes pool n ≡ a
          → Accounts pool (recv codec r pool).0 (recv codec r pool).2
      alloc n e (ok (buffer, pool')) q =
          rw (e, recv, q, allocate) (allocated-Accounts n (read_prefixed_size codec r).1 pool q)
      alloc n e (err PoolError.size_too_big) q = rw (e, recv, q, allocate) (nothing invalid_data)
      alloc n e (err PoolError.no_buffer_available) q = rw (e, recv, q, allocate) (nothing other)
      alloc n e panicked q = rw (e, recv, q, allocate) (unchanged (λ b h. cc) (λ i. refl))

      go :
          (size : Result IoError ℕ)
          → (read_prefixed_size codec r).0 ≡ size
          → Accounts pool (recv codec r pool).0 (recv codec r pool).2
      go (ok n) e = alloc n e (allocate_buffer bytes pool n) refl
      go (err x) e = rw (e, recv) (nothing x)
      go panicked e = rw (e, recv) (unchanged (λ b h. cc) (λ i. refl))
