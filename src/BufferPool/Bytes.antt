-- ===== src/BufferPool/Bytes.antt =====
-- bytes_buffer.rs: buffers of bytes, side by side in one vector.
pub mod Slices
use tansiv.Base.{ℕ, zero, suc, ◌+◌, ◌-◌, ◌*◌, List, [], ◌∷◌, take, replicate}
use tansiv.BufferPool.{InnerBuffer}

-- `&bytes[start..start + len]`
abbrev pub slice : List ℕ → ℕ → ℕ → List ℕ
slice xs zero len = take len xs
slice [] (suc start) len = []
slice (x ∷ xs) (suc start) len = slice xs start len

abbrev pub overlay : List ℕ → List ℕ → List ℕ
overlay [] xs = xs
overlay (d ∷ ds) [] = []
overlay (d ∷ ds) (x ∷ xs) = d ∷ overlay ds xs

-- A store of `ds` through `&mut bytes[start..]`; the vector keeps its length.
abbrev pub write_at : List ℕ → ℕ → List ℕ → List ℕ
write_at xs zero ds = overlay ds xs
write_at [] (suc start) ds = []
write_at (x ∷ xs) (suc start) ds = x ∷ write_at xs start ds

pub record BytesBuffer : Type 0 where
  pub size : ℕ

-- The range `start..end` of a buffer in the vector.
pub record Range : Type 0 where
  pub start : ℕ
  pub end : ℕ

abbrev pub buffer_bounds : BytesBuffer → ℕ → ℕ → Range
buffer_bounds b buffer_size index =
    let buffer_start : ℕ = buffer_size * index in
    record { start = buffer_start; end = buffer_start + b.size }

unfoldable pub calloc : ℕ → ℕ → List ℕ
calloc buffer_size num_buffers = replicate (buffer_size * num_buffers) 0

unfoldable pub new : ℕ → ℕ → BytesBuffer
new index size = record { size = size }

unfoldable pub get : BytesBuffer → ℕ → List ℕ → ℕ → List ℕ
get b buffer_size buffers index =
    let range : Range = buffer_bounds b buffer_size index in
    slice buffers range.start (range.end - range.start)

-- A store of `content` through the slice that `get_mut` hands out, which holds `size` bytes.
unfoldable pub get_mut : BytesBuffer → ℕ → List ℕ → ℕ → List ℕ → List ℕ
get_mut b buffer_size buffers index content =
    let range : Range = buffer_bounds b buffer_size index in
    write_at buffers range.start (take (range.end - range.start) content)

-- `fill(0u8)`
unfoldable pub reset : BytesBuffer → ℕ → List ℕ → ℕ → List ℕ
unfolding get_mut
reset b buffer_size buffers index = get_mut b buffer_size buffers index (replicate b.size 0)

-- `impl InnerBuffer for BytesBuffer`
abbrev pub bytes : InnerBuffer
bytes = record {
  Array = List ℕ;
  Content = List ℕ;
  Inner = BytesBuffer;
  calloc = calloc;
  new = new;
  get = get;
  set = get_mut;
  reset = reset;
}
