-- ===== src/Context/Run/Delivery/Taking.antt =====
-- From the queue to the application: `recv` (lib.rs) gives the packets in the order in which the actor has
-- written them.
use tansiv.Base.{ℕ, zero, suc, List, [], ◌∷◌, Result}
use tansiv.Error.{Error}
use tansiv.BufferPool
use tansiv.BufferPool.Builders.{Flatbuffers}
use tansiv.InputQueue.{ArrayQueue}
use tansiv.Connector.{Codec, Handle}
use tansiv.Connector.Wire.{Encoder}
use tansiv.Timer.Interface.{Timer}
use tansiv.Context.{Context}
use tansiv.Context.Application.{Packet, recv}

module _ {codec : Codec} (enc : Encoder codec) (F : Flatbuffers) (aq : ArrayQueue Handle)
    (tm : Timer) where
  abbrev Ctx : Type 0
  Ctx = Context codec F aq tm

  -- What `n` calls of `recv` give, one after the other, with room for a payload of `capacity` bytes.
  abbrev pub taken : ℕ → ℕ → Ctx → List (Result Error Packet)
  taken zero capacity c = []
  taken (suc n) capacity c = let (r, c') = recv codec F aq tm c capacity in r ∷ taken n capacity c'
