-- ===== src/Context/Reading.antt =====
-- How the application reads the packets of the queue (lib.rs, connector/mod.rs).
use tansiv.Base.{
  ℕ, ◌≤◌, ◌<◌, ◌≡◌, refl, Option, none, some, List, ◌∷◌, arith, leb, Bool-cases, ◌⊎◌, inl, inr,
  length, Result, ok, err,
}
use tansiv.Error.{Error, size_too_big}
use tansiv.BufferPool
use tansiv.BufferPool.{deref}
use tansiv.BufferPool.Bytes.{bytes}
use tansiv.BufferPool.Builders.{Flatbuffers}
use tansiv.InputQueue.{ArrayQueue, pop}
use tansiv.Connector.{
  PacketMeta, GotoTable, Codec, Handle, Pool, MsgIn, FromTansivMsg, DeliverTable, decode,
  new_deliver_packet, new_goto_deadline,
}
use tansiv.Timer.Interface.{Timer}
use tansiv.Context.{Context}
use tansiv.Context.Application.{Packet, deserialize, recv}

module _ (codec : Codec) where
  -- A buffer whose contents the connector has accepted as a packet reads as a packet: the `unwrap`s of
  -- `DeliverPacket` do not panic.
  pub decode-deserialize :
      (pool : Pool) (b : Handle) {d : Handle}
      → decode codec (deref bytes pool b) b ≡ ok (MsgIn.deliver_packet d)
      → (p : Packet) × (deserialize codec pool d ≡ some p)
  unfolding decode deserialize new_deliver_packet new_goto_deadline
  decode-deserialize pool b {d} h = go (codec.root (deref bytes pool b)) refl h
    where
      table :
          (t : DeliverTable) (m : Option PacketMeta) (l : Option (List ℕ))
          → t.metadata ≡ m
          → t.payload ≡ l
          → codec.root (deref bytes pool b) ≡ some (FromTansivMsg.deliver_packet (some t))
          → decode codec (deref bytes pool b) b ≡ ok (MsgIn.deliver_packet d)
          → (p : Packet) × (deserialize codec pool d ≡ some p)
      table t none l f g e q = cc (rw (decode, e, new_deliver_packet, f) at q)
      table t (some m) none f g e q = cc (rw (decode, e, new_deliver_packet, f, g) at q)
      table t (some m) (some l) f g e q =
          let same : b ≡ d = cc (rw (decode, e, new_deliver_packet, f, g) at q) in
          (record { src = m.src; dst = m.dst; payload = l }, rw (← same, deserialize, e, f, g) refl)

      time :
          (g : Option GotoTable)
          → new_goto_deadline codec g ≡ ok (MsgIn.deliver_packet d)
          → (p : Packet) × (deserialize codec pool d ≡ some p)
      time g q = ground arith

      go :
          (r : Option FromTansivMsg)
          → codec.root (deref bytes pool b) ≡ r
          → decode codec (deref bytes pool b) b ≡ ok (MsgIn.deliver_packet d)
          → (p : Packet) × (deserialize codec pool d ≡ some p)
      go none e q = cc (rw (decode, e) at q)
      go (some (FromTansivMsg.deliver_packet none)) e q =
          cc (rw (decode, e, new_deliver_packet) at q)
      go (some (FromTansivMsg.deliver_packet (some t))) e q =
          table t t.metadata t.payload refl refl e q
      go (some (FromTansivMsg.goto_deadline g)) e q = time g (rw (decode, e) at q)
      go (some FromTansivMsg.end_simulation) e q = cc (rw (decode, e) at q)
      go (some FromTansivMsg.unknown) e q = cc (rw (decode, e) at q)

module _ (codec : Codec) (F : Flatbuffers) (aq : ArrayQueue Handle) (tm : Timer) where
  abbrev Ctx : Type 0
  Ctx = Context codec F aq tm

  -- The packet `d` has left the queue, its buffer has been dropped, and the result is the packet `p`
  -- that the buffer held, if its payload fits.
  pub record Taken (c : Ctx) (capacity : ℕ) (d : Handle) (rest : List Handle) (p : Packet)
      (r : Result Error Packet × Ctx) : Type 0 where
    pub queue : aq.items r.1.input_queue ≡ rest
    pub dropped : r.1.input_buffer_pool ≡ BufferPool.drop bytes c.input_buffer_pool d
    pub result :
        ((length p.payload ≤ capacity) × (r.0 ≡ ok p))
        ⊎ ((capacity < length p.payload) × (r.0 ≡ err size_too_big))

  -- `recv` takes the first packet of the queue, if its buffer reads as a packet: the packet leaves the
  -- queue and its buffer is dropped, both also where the payload is too big for the caller's bytes. The
  -- packet is returned if the payload fits, and reported as too big if not.
  pub recv-Taken :
      (c : Ctx) (capacity : ℕ) {d : Handle} {rest : List Handle} {p : Packet}
      → aq.items c.input_queue ≡ d ∷ rest
      → deserialize codec c.input_buffer_pool d ≡ some p
      → Taken c capacity d rest p (recv codec F aq tm c capacity)
  unfolding recv pop
  recv-Taken c capacity {d} {rest} {p} e f =
      let (q, g, items, cap) = aq.pop_cons c.input_queue d rest e in
      elim (Bool-cases (leb (length p.payload) capacity)) [
        | inl fits ↦
            rw (recv, pop, g, f, fits)
              (record { queue = items; dropped = refl; result = inl (ground arith, refl) })
        | inr big ↦
            rw (recv, pop, g, f, big)
              (record { queue = items; dropped = refl; result = inr (ground arith, refl) })
      ]
