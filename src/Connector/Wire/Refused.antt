-- ===== src/Connector/Wire/Refused.antt =====
-- What `MsgIn::recv` makes of any bytes behind a size, errors included (connector/mod.rs).
use tansiv.Base.{
  ℕ, ◌*◌, ◌≤◌, ◌<◌, ◌^◌, ◌≡◌, refl, ap, ◌∙◌, false, inl, inr, ◌⊎◌, List, ◌++◌, arith, length,
  count_all, ok, err,
}
use mathlib.Core.List.{append_assoc}
use tansiv.Error.{invalid_data, other, IoError}
use tansiv.BufferPool.Alloc.{AllBusy, allocate_buffer_cases}
use tansiv.BufferPool.Bytes.{bytes}
use tansiv.Connector.{Codec, Handle, Pool, Reader, FromTansivMsg, allocate, recv_into, recv, decode}
use tansiv.Connector.Wire.{Encoder, finish_size_prefixed}
use tansiv.Connector.Wire.RoundTrip.{served-Placed, recv_into-run, read_prefixed_size-written, Room}

module _ {codec : Codec} (enc : Encoder codec) where
  -- The stream `r` starts with a size and as many bytes.
  abbrev pub Framed : Reader → List ℕ → List ℕ → Type 0
  Framed r content rest = r.bytes ≡ enc.prefix (length content) ++ (content ++ rest)

  module _ (content rest : List ℕ) (r : Reader) (pool : Pool) (small : length content < 2 ^ 32)
      (s : Framed r content rest) where
    abbrev left : Reader
    left = record r { bytes = content ++ rest }

    -- The call, once the size has been read.
    recv-allocate_err :
        {e : IoError}
        → allocate pool (length content) ≡ err e
        → recv codec r pool ≡ (err e, left, pool)
    unfolding recv
    recv-allocate_err q =
        let sized = read_prefixed_size-written enc r (content ++ rest) (length content) small s in
        rw (recv, ap (λ x. x.0) sized, q, ap (λ x. x.1) sized) refl

    recv-allocate_ok :
        {b : Handle} {after : Pool}
        → allocate pool (length content) ≡ ok (b, after)
        → recv codec r pool ≡ recv_into codec (length content) b left after
    unfolding recv
    recv-allocate_ok q =
        let sized = read_prefixed_size-written enc r (content ++ rest) (length content) small s in
        rw (recv, ap (λ x. x.0) sized, q, ap (λ x. x.1) sized) refl

  -- Every outcome of receiving a message of any bytes behind their size: bytes that do not fit in a
  -- buffer are refused as invalid data, and without a free buffer the call fails with another error, in
  -- both cases with the bytes left on the stream and the pool as it was; else the call gives what the
  -- bytes decode to, and the stream goes on behind them.
  pub recv_cases :
      (content rest : List ℕ) (r : Reader) (pool : Pool)
      → length content < 2 ^ 32
      → Framed r content rest
      → pool.buffer_size * pool.num_buffers ≤ length pool.buffers
      → let left : Reader = record r { bytes = content ++ rest } in
        ((pool.buffer_size < length content) × (recv codec r pool ≡ (err invalid_data, left, pool)))
        ⊎ ((length content ≤ pool.buffer_size)
            × AllBusy bytes pool 0 pool.num_buffers
            × (recv codec r pool ≡ (err other, left, pool)))
        ⊎ ((length content ≤ pool.buffer_size)
            × ((b : Handle) × (b.index < pool.num_buffers)
                × (pool.buffer_busy b.index ≡ false)
                × ((recv codec r pool).0 ≡ decode codec content b)
                × ((recv codec r pool).1 ≡ record r { bytes = rest })))
  unfolding allocate
  recv_cases content rest r pool small s whole =
      elim (allocate_buffer_cases bytes pool (length content)) [
        | inl (big, q) ↦
            inl (big, recv-allocate_err content rest r pool small s (rw (allocate, q) refl))
        | inr (inr (fits, all, q)) ↦
            inr (
              inl
                (fits, all, recv-allocate_err content rest r pool small s (rw (allocate, q) refl)))
        | inr (inl (fits, (i, f, q))) ↦
            let into =
              recv_into-run enc content rest _ (record r { bytes = content ++ rest }) _ refl
                (served-Placed pool (length content) whole q) in
            let received =
              recv-allocate_ok content rest r pool small s (rw (allocate, q) refl) ∙ into in
            inr (inr (fits, (_, f.below, f.free, ap (λ x. x.0) received, ap (λ x. x.1) received)))
      ]

  -- A message of the actor with any table is decoded from its bytes, where there is room for them.
  pub recv-finish_size_prefixed :
      (m : FromTansivMsg) (rest : List ℕ) (r : Reader) (pool : Pool)
      → length (enc.body m) < 2 ^ 32
      → r.bytes ≡ finish_size_prefixed enc m ++ rest
      → Room pool (length (enc.body m))
      → (b : Handle) × ((recv codec r pool).0 ≡ decode codec (enc.body m) b)
        × ((recv codec r pool).1.bytes ≡ rest)
  recv-finish_size_prefixed m rest r pool small s room =
      let front = s ∙ append_assoc (enc.prefix (length (enc.body m))) (enc.body m) rest in
      elim (recv_cases (enc.body m) rest r pool small front room.whole) [
        | inl (big, q) ↦ absurd (omega (arith, room.fits))
        | inr (inl (fits, all, q)) ↦ absurd (
            omega (
              arith,
              room.free,
              count_all pool.num_buffers pool.buffer_busy (λ j lt. all j (omega arith) lt),
            ))
        | inr (inr (fits, (b, below, free, msg, after))) ↦ (b, msg, ap (λ x. x.bytes) after)
      ]
