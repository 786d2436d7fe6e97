-- ===== src/Tests/Pools.antt =====
-- Pools of buffers at concrete inputs.
use tansiv.Base.{◌≡◌, [], ◌∷◌, arith, ◌==◌}
use tansiv.BufferPool.{BufferPool, Buffer, deref, deref_mut}
use tansiv.BufferPool.Bytes.{bytes}
use tansiv.BufferPool.Bytes.Slices.{deref-deref_mut_ne}

abbrev two_slots : BufferPool bytes
two_slots = record {
  buffer_size = 4;
  num_buffers = 2;
  buffers = 1 ∷ 2 ∷ 3 ∷ 4 ∷ 5 ∷ 6 ∷ 7 ∷ 8 ∷ [];
  buffer_busy = λ i. i == 0;
}

abbrev left : Buffer bytes
left = record { index = 0; inner = record { size = 3 } }

abbrev right : Buffer bytes
right = record { index = 1; inner = record { size = 2 } }

deref-deref_mut_ne_example :
    deref bytes (deref_mut bytes two_slots left (9 ∷ 9 ∷ 9 ∷ [])) right
    ≡ deref bytes two_slots right
deref-deref_mut_ne_example =
    deref-deref_mut_ne two_slots left right (9 ∷ 9 ∷ 9 ∷ []) (omega arith) (omega arith)
      (λ h. omega (arith, h))
