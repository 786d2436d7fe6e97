-- ===== src/BufferPool/Builders.antt =====
-- flatbuilder_buffer.rs: buffers that are flatbuffers builders, one for each slot. The builder is
-- the flatbuffers crate's, so its type, `FbBuilderInitializer::init` and `reset` are parameters.
use tansiv.Base.{ℕ, update}
use tansiv.BufferPool.{InnerBuffer}

-- The crate's builder, with the initializer that the pool is given.
pub record Flatbuffers : Type 1 where
  pub Builder : Type 0
  pub init : ℕ → Builder
  pub reset : Builder → Builder

-- `FbBuilder` holds nothing but types.
pub record FbBuilder : Type 0 where

module _ (F : Flatbuffers) where
  unfoldable pub calloc : ℕ → ℕ → ℕ → F.Builder
  calloc buffer_size num_buffers = λ index. F.init buffer_size

  unfoldable pub new : ℕ → ℕ → FbBuilder
  new index size = record {}

  unfoldable pub get : FbBuilder → ℕ → (ℕ → F.Builder) → ℕ → F.Builder
  get b buffer_size buffers index = buffers index

  unfoldable pub get_mut : FbBuilder → ℕ → (ℕ → F.Builder) → ℕ → F.Builder → ℕ → F.Builder
  get_mut b buffer_size buffers index content = update buffers index content

  unfoldable pub reset : FbBuilder → ℕ → (ℕ → F.Builder) → ℕ → ℕ → F.Builder
  unfolding get get_mut
  reset b buffer_size buffers index =
      get_mut b buffer_size buffers index (F.reset (get b buffer_size buffers index))

  -- `impl InnerBuffer for FbBuilder`
  abbrev pub builders : InnerBuffer
  builders = record {
    Array = ℕ → F.Builder;
    Content = F.Builder;
    Inner = FbBuilder;
    calloc = calloc;
    new = new;
    get = get;
    set = get_mut;
    reset = reset;
  }
