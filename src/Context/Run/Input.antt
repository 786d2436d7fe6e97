-- ===== src/Context/Run/Input.antt =====
-- The buffers of the packets received (lib.rs, connector/mod.rs): each busy buffer of the input pool
-- is that of one packet in the queue, so the queue has room for every packet.
use tansiv.Base.{
  ℕ, ◌<◌, ◌≡◌, refl, ap, ◌∙◌, List, [], ◌∷◌, arith, count-le, length, Result, ok, err, panicked,
}
use tansiv.Error.{IoError, PoolError}
use tansiv.BufferPool
use tansiv.BufferPool.{BufferPool, Buffer, allocate_buffer, deref, deref_mut}
use tansiv.BufferPool.Alloc.{allocate_buffer-Served}
use tansiv.BufferPool.Bytes.{bytes}
use tansiv.BufferPool.Accounts.{Account, Account-drop, Account-allocate_buffer, busy_count-Account}
use tansiv.Connector.{
  Codec, Handle, Pool, Reader, MsgIn, read_exact, read_prefixed_size, allocate, decode, release,
  recv_into, recv,
}
use tansiv.Connector.Recv.{decode-deliver_packet}

-- A pool of `n` buffers in which those of the packets `ds` are in use.
pub record Holds (n : ℕ) (pool : Pool) (ds : List Handle) : Type 0 where
  pub account : Account bytes pool ds []
  pub size : pool.num_buffers ≡ n

pub Holds-drop :
    {n : ℕ} {pool : Pool} {ds : List Handle} (d : Handle)
    → Holds n pool (d ∷ ds)
    → Holds n (BufferPool.drop bytes pool d) ds
unfolding BufferPool.drop
Holds-drop d h = record { account = Account-drop bytes d h.account; size = h.size }

Holds-allocate_buffer :
    {n : ℕ} {pool after : Pool} {ds : List Handle} {d : Handle} (size : ℕ)
    → allocate_buffer bytes pool size ≡ ok (d, after)
    → Holds n pool ds
    → Holds n after (d ∷ ds)
Holds-allocate_buffer {pool = pool} size e h = record {
  account = Account-allocate_buffer bytes size e h.account;
  size = ap (λ r. r.1.num_buffers) (allocate_buffer-Served bytes pool size e).same ∙ h.size;
}

-- A packet of a pool's account leaves room in a queue of as many places.
pub room :
    {n : ℕ} {pool : Pool} {ds : List Handle} (d : Handle) → Holds n pool (d ∷ ds) → length ds < n
room {n} {pool} {ds} d h =
    omega (
      arith,
      busy_count-Account bytes h.account,
      count-le pool.num_buffers pool.buffer_busy,
      h.size,
    )

module _ (codec : Codec) where
  -- The pool after a call of `recv`: the packet that is delivered, if any, has a buffer more.
  abbrev pub Fetched : ℕ → Result IoError MsgIn → Pool → List Handle → Type 0
  Fetched n (ok (MsgIn.deliver_packet d)) pool ds = Holds n pool (d ∷ ds)
  Fetched n (ok (MsgIn.goto_deadline t)) pool ds = Holds n pool ds
  Fetched n (ok MsgIn.end_simulation) pool ds = Holds n pool ds
  Fetched n (err e) pool ds = Holds n pool ds
  Fetched n panicked pool ds = Holds n pool ds

  release-Fetched :
      (n : ℕ) (content : List ℕ) (buffer : Handle) (pool : Pool) (ds : List Handle)
      (msg : Result IoError MsgIn)
      → decode codec content buffer ≡ msg
      → Holds n pool (buffer ∷ ds)
      → Fetched n msg (release codec msg buffer pool) ds
  release-Fetched n content buffer pool ds (ok (MsgIn.deliver_packet d)) e a =
      rw (decode-deliver_packet codec content buffer e) a
  release-Fetched n content buffer pool ds (ok (MsgIn.goto_deadline t)) e a = Holds-drop buffer a
  release-Fetched n content buffer pool ds (ok MsgIn.end_simulation) e a = Holds-drop buffer a
  release-Fetched n content buffer pool ds (err x) e a = Holds-drop buffer a
  release-Fetched n content buffer pool ds panicked e a = Holds-drop buffer a

  recv_into-Fetched :
      (n size : ℕ) (buffer : Handle) (r : Reader) (pool : Pool) (ds : List Handle)
      → Holds n pool (buffer ∷ ds)
      → Fetched n (recv_into codec size buffer r pool).0 (recv_into codec size buffer r pool).2 ds
  unfolding recv_into deref_mut
  recv_into-Fetched n size buffer r pool ds a = go (read_exact r size).0 refl
    where
      go :
          (read : Result IoError (List ℕ))
          → (read_exact r size).0 ≡ read
          → Fetched n
              (recv_into codec size buffer r pool).0
              (recv_into codec size buffer r pool).2
              ds
      go (ok b) e =
          rw (e, recv_into)
            (release-Fetched n (deref bytes (deref_mut bytes pool buffer b) buffer) buffer
              (deref_mut bytes pool buffer b) ds _ refl
              (record {
                account = record { owned = a.account.owned; within = a.account.within };
                size = a.size;
              }))
      go (err x) e = rw (e, recv_into) (Holds-drop buffer a)
      go panicked e = rw (e, recv_into) (Holds-drop buffer a)

  -- `recv` keeps the account of the pool, in which the packets `ds` wait.
  pub recv-Fetched :
      (n : ℕ) (r : Reader) (pool : Pool) (ds : List Handle)
      → Holds n pool ds
      → Fetched n (recv codec r pool).0 (recv codec r pool).2 ds
  unfolding recv allocate
  recv-Fetched n r pool ds a = go (read_prefixed_size codec r).0 refl
    where
      alloc :
          (size : ℕ)
          → (read_prefixed_size codec r).0 ≡ ok size
          → (x : Result PoolError (Handle × Pool)) → allocate_buffer bytes pool size ≡ x
          → Fetched n (recv codec r pool).0 (recv codec r pool).2 ds
      alloc size e (ok (buffer, pool')) q =
          rw (e, recv, q, allocate)
            (recv_into-Fetched n size buffer (read_prefixed_size codec r).1 pool' ds
              (Holds-allocate_buffer size q a))
      alloc size e (err PoolError.size_too_big) q = rw (e, recv, q, allocate) a
      alloc size e (err PoolError.no_buffer_available) q = rw (e, recv, q, allocate) a
      alloc size e panicked q = rw (e, recv, q, allocate) a

      go :
          (size : Result IoError ℕ)
          → (read_prefixed_size codec r).0 ≡ size
          → Fetched n (recv codec r pool).0 (recv codec r pool).2 ds
      go (ok size) e = alloc size e (allocate_buffer bytes pool size) refl
      go (err x) e = rw (e, recv) a
      go panicked e = rw (e, recv) a
