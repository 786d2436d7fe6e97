-- ===== src/Connector/Stream.antt =====
-- What `MsgIn::recv` takes from the stream, and that it decodes the very bytes of a frame
-- (connector/mod.rs).
use tansiv.Base.{
  ℕ, ◌+◌, ◌*◌, ◌≤◌, ◌<◌, ◌^◌, ◌≡◌, refl, List, ◌⊎◌, arith, length, length-drop, Result, ok, err,
  panicked,
}
use tansiv.Error.{IoError}
use tansiv.Duration.{nanos_per_sec}
use tansiv.Connector.{
  Codec, Reader, Pool, Handle, MsgIn, Time, read_exact, allocate, read_prefixed_size, recv_into,
  recv, goto_of,
}
use tansiv.Connector.Recv.{length-read_exact}

module _ (codec : Codec) where
  length-recv_into :
      (n : ℕ) (b : Handle) (r : Reader) (pool : Pool)
      → length (recv_into codec n b r pool).1.bytes ≤ length r.bytes
  unfolding recv_into
  length-recv_into n b r pool = go (read_exact r n).0 refl
    where
      go :
          (read : Result IoError (List ℕ))
          → (read_exact r n).0 ≡ read
          → length (recv_into codec n b r pool).1.bytes ≤ length r.bytes
      go (ok c) e = rw (e, recv_into) (length-read_exact r n)
      go (err x) e = rw (e, recv_into) (length-read_exact r n)
      go panicked e = rw (e, recv_into) (length-read_exact r n)

  pub length-read_prefixed_size :
      (r : Reader) {n : ℕ}
      → (read_prefixed_size codec r).0 ≡ ok n
      → length (read_prefixed_size codec r).1.bytes + 4 ≤ length r.bytes
  unfolding read_prefixed_size read_exact
  length-read_prefixed_size r h = ground (arith, length-drop 4 r.bytes)

  -- Every message that is received takes the four bytes of its size from the stream, at least.
  pub recv-consumes :
      (r : Reader) (pool : Pool) {m : MsgIn}
      → (recv codec r pool).0 ≡ ok m
      → length (recv codec r pool).1.bytes + 4 ≤ length r.bytes
  unfolding recv
  recv-consumes r pool {m} h = go (read_prefixed_size codec r).0 refl h
    where
      alloc :
          (n : ℕ)
          → (read_prefixed_size codec r).0 ≡ ok n
          → (a : Result IoError (Handle × Pool)) → allocate pool n ≡ a
          → (recv codec r pool).0 ≡ ok m
          → length (recv codec r pool).1.bytes + 4 ≤ length r.bytes
      alloc n e (ok (b, pool')) q p =
          rw (e, recv, q)
            (omega (
              arith,
              length-recv_into n b (read_prefixed_size codec r).1 pool',
              length-read_prefixed_size r e,
            ))
      alloc n e (err x) q p = cc (rw (e, recv, q) at p)
      alloc n e panicked q p = cc (rw (e, recv, q) at p)

      go :
          (size : Result IoError ℕ)
          → (read_prefixed_size codec r).0 ≡ size
          → (recv codec r pool).0 ≡ ok m
          → length (recv codec r pool).1.bytes + 4 ≤ length r.bytes
      go (ok n) e p = alloc n e (allocate pool n) refl p
      go (err x) e p = cc (rw (e, recv) at p)
      go panicked e p = cc (rw (e, recv) at p)

  -- A deadline is accepted exactly if its nanoseconds are below one second; it is then the duration
  -- of those seconds and nanoseconds. The seconds are a `u64`.
  pub goto_of-bounds :
      (time : Time)
      → time.seconds < 2 ^ 64
      → ((goto_of time ≡ ok (time.seconds * nanos_per_sec + time.nseconds))
          × (time.nseconds < nanos_per_sec))
        ⊎ ((goto_of time ≡ err IoError.invalid_data) × (nanos_per_sec ≤ time.nseconds))
  unfolding goto_of
  goto_of-bounds time h = ground arith
