-- ===== src/Context/Listening.antt =====
-- What a client that receives messages until it is told what comes next has of them (lib.rs), said of the
-- stream, the pool and the list of waiting packets, without the context or the fuel of its loop.
use tansiv.Base.{
  ℕ, ◌<◌, ◌≤◌, ◌≡◌, Option, none, some, List, [], ◌∷◌, ◌++◌, length, ok, err, panicked,
}
use tansiv.Error.{IoError}
use tansiv.BufferPool
use tansiv.BufferPool.Bytes.{bytes}
use tansiv.Connector.{Codec, Handle, Reader, Pool, MsgIn, recv}
use tansiv.Context.{AfterDeadline, next_deadline, end_simulation, panic}

-- What one message does to the pool and the packets that wait, of which there is room for `capacity`, and
-- what it says comes next. A packet for which there is no room gives its buffer back.
pub data Turn (capacity : ℕ) (pool : Pool) (waiting : List Handle)
    : MsgIn → Option AfterDeadline → Pool → List Handle → Type 0 where
  goes_to :
      (d : ℕ)
      → Turn capacity pool waiting (MsgIn.goto_deadline d) (some (next_deadline d)) pool waiting
  ends : Turn capacity pool waiting MsgIn.end_simulation (some end_simulation) pool waiting
  queued :
      (b : Handle)
      → length waiting < capacity
      → Turn capacity pool waiting (MsgIn.deliver_packet b) none pool (waiting ++ b ∷ [])
  refused :
      (b : Handle)
      → capacity ≤ length waiting
      → Turn capacity pool waiting
          (MsgIn.deliver_packet b)
          none
          (BufferPool.drop bytes pool b)
          waiting

-- The messages of a stream, one after the other, up to the first that is no packet. An error ends the
-- simulation.
pub data Listens (codec : Codec) (capacity : ℕ)
    : Reader → Pool → List Handle → AfterDeadline → Reader → Pool → List Handle → Type 0 where
  stops :
      {r r' : Reader} {p p' p'' : Pool} {q q'' : List Handle} {m : MsgIn} {a : AfterDeadline}
      → recv codec r p ≡ (ok m, r', p')
      → Turn capacity p' q m (some a) p'' q''
      → Listens codec capacity r p q a r' p'' q''
  goes_on :
      {r r₁ r₂ : Reader} {p p' p₁ p₂ : Pool} {q q₁ q₂ : List Handle} {m : MsgIn} {a : AfterDeadline}
      → recv codec r p ≡ (ok m, r₁, p')
      → Turn capacity p' q m none p₁ q₁
      → Listens codec capacity r₁ p₁ q₁ a r₂ p₂ q₂
      → Listens codec capacity r p q a r₂ p₂ q₂
  fails :
      {r r' : Reader} {p p' : Pool} {q : List Handle} {e : IoError}
      → recv codec r p ≡ (err e, r', p')
      → Listens codec capacity r p q end_simulation r' p' q
  panics :
      {r r' : Reader} {p p' : Pool} {q : List Handle}
      → recv codec r p ≡ (panicked, r', p')
      → Listens codec capacity r p q panic r' p' q
