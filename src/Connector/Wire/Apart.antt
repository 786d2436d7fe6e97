-- ===== src/Connector/Wire/Apart.antt =====
-- What `MsgIn::recv` stores in its buffer leaves the packets in the other buffers as they are
-- (connector/mod.rs, buffer_pool.rs, bytes_buffer.rs).
use tansiv.Base.{
  ℕ, ◌≤◌, ◌≡◌, ◌≢◌, refl, ap, ◌∙◌, true, false, List, arith, length, replicate, Result, ok, err,
  panicked,
}
use tansiv.Error.{IoError, PoolError}
use tansiv.BufferPool
use tansiv.BufferPool.{BufferPool, Buffer, allocate_buffer, deref, deref_mut}
use tansiv.BufferPool.Alloc.{allocate_buffer-Served}
use tansiv.BufferPool.Bytes.{bytes, reset, new, get_mut}
use tansiv.BufferPool.Bytes.Slices.{length-write_at, deref-deref_mut_ne}
use tansiv.Connector.{
  Codec, Handle, Pool, Reader, MsgIn, read_exact, read_prefixed_size, allocate, release, recv_into,
  recv,
}

-- A buffer that is in use, within its slot.
pub record Held (pool : Pool) (h : Handle) : Type 0 where
  pub busy : pool.buffer_busy h.index ≡ true
  pub fits : h.inner.size ≤ pool.buffer_size

-- A pool of the same shape.
pub record SameShape (pool after : Pool) : Type 0 where
  pub buffer_size : after.buffer_size ≡ pool.buffer_size
  pub num_buffers : after.num_buffers ≡ pool.num_buffers
  pub buffers : length after.buffers ≡ length pool.buffers

-- Every buffer in use but `b` is still in use, and reads the same.
pub record Apart (b : Handle) (pool after : Pool) : Type 0 where
  pub shape : SameShape pool after
  pub others :
      (h : Handle)
      → b.index ≢ h.index
      → Held pool h
      → (deref bytes after h ≡ deref bytes pool h) × Held after h

Apart-refl : (b : Handle) (pool : Pool) → Apart b pool pool
Apart-refl b pool = record {
  shape = record { buffer_size = refl; num_buffers = refl; buffers = refl };
  others = λ h ne held. (refl, held);
}

Apart-trans : (b : Handle) (p₁ p₂ p₃ : Pool) → Apart b p₁ p₂ → Apart b p₂ p₃ → Apart b p₁ p₃
Apart-trans b p₁ p₂ p₃ x y = record {
  shape = record {
    buffer_size = y.shape.buffer_size ∙ x.shape.buffer_size;
    num_buffers = y.shape.num_buffers ∙ x.shape.num_buffers;
    buffers = y.shape.buffers ∙ x.shape.buffers;
  };
  others = λ h ne held.
      let (e, held₂) = x.others h ne held in
      let (e', held₃) = y.others h ne held₂ in (e' ∙ e, held₃);
}

Apart-drop : (b : Handle) (pool : Pool) → Apart b pool (BufferPool.drop bytes pool b)
unfolding BufferPool.drop deref
Apart-drop b pool = record {
  shape = record { buffer_size = refl; num_buffers = refl; buffers = refl };
  others = λ h ne held. (refl, record { busy = ground (arith, held.busy); fits = held.fits });
}

Apart-deref_mut :
    (b : Handle) (pool : Pool) (content : List ℕ)
    → b.inner.size ≤ pool.buffer_size
    → Apart b pool (deref_mut bytes pool b content)
unfolding deref_mut get_mut
Apart-deref_mut b pool content small = record {
  shape = record {
    buffer_size = refl;
    num_buffers = refl;
    buffers = length-write_at pool.buffers _ _;
  };
  others = λ h ne held. (
    deref-deref_mut_ne pool b h content small held.fits ne,
    record { busy = held.busy; fits = held.fits },
  );
}

-- A buffer that is served is none of those in use; its slot is filled with zeros.
Apart-allocate_buffer :
    (pool : Pool) (size : ℕ) {b : Handle} {after : Pool}
    → allocate_buffer bytes pool size ≡ ok (b, after)
    → Apart b pool after × (pool.buffer_busy b.index ≡ false) × (b.inner.size ≤ after.buffer_size)
unfolding reset new get_mut deref deref_mut
Apart-allocate_buffer pool size {b} {after} e =
    let s = allocate_buffer-Served bytes pool size e in
    let zeros =
      Apart-deref_mut (record { index = b.index; inner = record { size = size } }) pool
        (replicate size 0) s.fits in
    (
      rw (ap (λ x. x.1) s.same) (record {
        shape = record { buffer_size = refl; num_buffers = refl; buffers = zeros.shape.buffers };
        others = λ h ne held.
            let (same, still) = zeros.others h ne held in
            (same, record { busy = ground (arith, held.busy); fits = held.fits });
      }),
      s.free,
      rw (ap (λ x. x.0.inner.size) s.same, ap (λ x. x.1.buffer_size) s.same) s.fits,
    )

-- Every buffer in use is still in use, and reads the same.
pub record Unspoilt (pool after : Pool) : Type 0 where
  pub shape : SameShape pool after
  pub others :
      (h : Handle) → Held pool h → (deref bytes after h ≡ deref bytes pool h) × Held after h

pub Unspoilt-refl : (pool : Pool) → Unspoilt pool pool
Unspoilt-refl pool = record {
  shape = record { buffer_size = refl; num_buffers = refl; buffers = refl };
  others = λ h held. (refl, held);
}

pub Unspoilt-trans : (p₁ p₂ p₃ : Pool) → Unspoilt p₁ p₂ → Unspoilt p₂ p₃ → Unspoilt p₁ p₃
Unspoilt-trans p₁ p₂ p₃ x y = record {
  shape = record {
    buffer_size = y.shape.buffer_size ∙ x.shape.buffer_size;
    num_buffers = y.shape.num_buffers ∙ x.shape.num_buffers;
    buffers = y.shape.buffers ∙ x.shape.buffers;
  };
  others = λ h held.
      let (e, held₂) = x.others h held in let (e', held₃) = y.others h held₂ in (e' ∙ e, held₃);
}

Unspoilt-Apart :
    (b : Handle) (pool after : Pool)
    → pool.buffer_busy b.index ≡ false
    → Apart b pool after
    → Unspoilt pool after
Unspoilt-Apart b pool after free a = record {
  shape = a.shape;
  others = λ h held. a.others h (λ same. cc (free, held.busy, ap pool.buffer_busy same)) held;
}

module _ (codec : Codec) where
  release-Apart :
      (msg : Result IoError MsgIn) (b : Handle) (pool : Pool)
      → Apart b pool (release codec msg b pool)
  release-Apart (ok (MsgIn.deliver_packet d)) b pool = Apart-refl b pool
  release-Apart (ok (MsgIn.goto_deadline t)) b pool = Apart-drop b pool
  release-Apart (ok MsgIn.end_simulation) b pool = Apart-drop b pool
  release-Apart (err e) b pool = Apart-drop b pool
  release-Apart panicked b pool = Apart-drop b pool

  recv_into-Apart :
      (n : ℕ) (b : Handle) (r : Reader) (pool : Pool)
      → b.inner.size ≤ pool.buffer_size
      → Apart b pool (recv_into codec n b r pool).2
  unfolding recv_into
  recv_into-Apart n b r pool small = go (read_exact r n).0 refl
    where
      go :
          (read : Result IoError (List ℕ))
          → (read_exact r n).0 ≡ read
          → Apart b pool (recv_into codec n b r pool).2
      go (ok content) e =
          rw (e, recv_into)
            (Apart-trans b pool (deref_mut bytes pool b content) _
              (Apart-deref_mut b pool content small)
              (release-Apart _ b (deref_mut bytes pool b content)))
      go (err x) e = rw (e, recv_into) (Apart-drop b pool)
      go panicked e = rw (e, recv_into) (Apart-drop b pool)

  -- Whatever its outcome, a call of `recv` leaves every buffer in use as it is, and the pool's shape.
  pub recv-Unspoilt : (r : Reader) (pool : Pool) → Unspoilt pool (recv codec r pool).2
  unfolding recv allocate
  recv-Unspoilt r pool = go (read_prefixed_size codec r).0 refl
    where
      alloc :
          (n : ℕ)
          → (read_prefixed_size codec r).0 ≡ ok n
          → (x : Result PoolError (Handle × Pool)) → allocate_buffer bytes pool n ≡ x
          → Unspoilt pool (recv codec r pool).2
      alloc n e (ok (b, after)) q =
          let (apart, free, small) = Apart-allocate_buffer pool n q in
          rw (e, recv, q, allocate)
            (Unspoilt-Apart b pool _ free (
              Apart-trans b pool after _ apart
                (recv_into-Apart n b (read_prefixed_size codec r).1 after small)))
      alloc n e (err PoolError.size_too_big) q = rw (e, recv, q, allocate) (Unspoilt-refl pool)
      alloc n e (err PoolError.no_buffer_available) q =
          rw (e, recv, q, allocate) (Unspoilt-refl pool)
      alloc n e panicked q = rw (e, recv, q, allocate) (Unspoilt-refl pool)

      go :
          (size : Result IoError ℕ)
          → (read_prefixed_size codec r).0 ≡ size
          → Unspoilt pool (recv codec r pool).2
      go (ok n) e = alloc n e (allocate_buffer bytes pool n) refl
      go (err x) e = rw (e, recv) (Unspoilt-refl pool)
      go panicked e = rw (e, recv) (Unspoilt-refl pool)
