-- ===== src/Context/Run/Created.antt =====
-- The contexts that `Context::new` makes (lib.rs) have lost no buffer.
use tansiv.Base.{ℕ, ◌≡◌, refl, ap, List, [], Result, ok, err, panicked}
use tansiv.Error.{IoError, Error, from_io_error}
use tansiv.BufferPool
use tansiv.BufferPool.Bytes.{bytes}
use tansiv.BufferPool.Accounts.{new-Account}
use tansiv.BufferPool.Builders.{Flatbuffers, builders}
use tansiv.OutputMsgSet.Listing.{new-IsSettled, pending-new}
use tansiv.InputQueue.{ArrayQueue, pop}
use tansiv.InputQueue
use tansiv.Connector.{Codec, Handle, Reader, max_packet_size}
use tansiv.Connector.Send.{Writer}
use tansiv.Timer.Interface.{Timer}
use tansiv.Context.{Context}
use tansiv.Context.Setup.{Config, UnixConnector, connector_new, assembled, new}
use tansiv.Context.Run.Sound.{Sound}

module _ (codec : Codec) (F : Flatbuffers) (aq : ArrayQueue Handle) (tm : Timer) where
  abbrev Ctx : Type 0
  Ctx = Context codec F aq tm

  assembled-Sound :
      (config : Config) (actor : Reader × Writer) (t : tm.T)
      → Sound codec F aq tm (
          assembled codec F aq tm config
            (record {
              actor = actor;
              input_buffer_pool = BufferPool.new bytes max_packet_size config.num_buffers;
            })
            t)
  unfolding assembled InputQueue.new BufferPool.new
  assembled-Sound config actor t =
      let (empty, places) = aq.items-make config.num_buffers in
      record {
        output = record {
          settled = new-IsSettled config.num_buffers;
          owned = record {
            account =
                rw (pending-new config.num_buffers)
                  (new-Account (builders F) max_packet_size config.num_buffers);
            size = refl;
          };
        };
        input =
            rw (empty, places)
              (record {
                account = new-Account bytes max_packet_size config.num_buffers;
                size = refl;
              });
      }

  module _ (connect : List ℕ → Result IoError (Reader × Writer))
      (make_timer : Config → Result IoError tm.T) (register : tm.T → Result IoError tm.T) where
    abbrev created : Config → Result Error Ctx
    created config = new codec F aq tm connect make_timer register config

    -- A context that `Context::new` has made is the assembled one.
    abbrev pub Assembled : Config → Ctx → Type 0
    Assembled config c =
        (actor : Reader × Writer) × (t : tm.T) × (c
          ≡ assembled codec F aq tm config
              (record {
                actor = actor;
                input_buffer_pool = BufferPool.new bytes max_packet_size config.num_buffers;
              })
              t)

    pub new-Assembled : (config : Config) (c : Ctx) → created config ≡ ok c → Assembled config c
    unfolding new connector_new
    new-Assembled config c e = stream (connect config.actor_socket) refl
      where
        registered :
            (actor : Reader × Writer)
            → connect config.actor_socket ≡ ok actor
            → (t : tm.T) → make_timer config ≡ ok t
            → (r : Result IoError tm.T) → register t ≡ r
            → Assembled config c
        registered actor p t q (err x) f =
            let failed : created config ≡ err (from_io_error x) =
              rw (new, p, connector_new, q, f) refl in
            absurd cc
        registered actor p t q panicked f =
            let failed : created config ≡ panicked = rw (new, p, connector_new, q, f) refl in
            absurd cc
        registered actor p t q (ok t') f =
            let connector : UnixConnector = record {
              actor = actor;
              input_buffer_pool = BufferPool.new bytes max_packet_size config.num_buffers;
            } in
            let made : created config ≡ ok (assembled codec F aq tm config connector t') =
              rw (new, p, connector_new, q, f) refl in
            let same : c ≡ assembled codec F aq tm config connector t' = cc in (actor, t', same)

        timer :
            (actor : Reader × Writer)
            → connect config.actor_socket ≡ ok actor
            → (r : Result IoError tm.T) → make_timer config ≡ r
            → Assembled config c
        timer actor p (err x) q =
            let failed : created config ≡ err (from_io_error x) =
              rw (new, p, connector_new, q) refl in
            absurd cc
        timer actor p panicked q =
            let failed : created config ≡ panicked = rw (new, p, connector_new, q) refl in absurd cc
        timer actor p (ok t) q = registered actor p t q (register t) refl

        stream :
            (r : Result IoError (Reader × Writer))
            → connect config.actor_socket ≡ r
            → Assembled config c
        stream (err x) p =
            let failed : created config ≡ err (from_io_error x) = rw (new, connector_new, p) refl in
            absurd cc
        stream panicked p =
            let failed : created config ≡ panicked = rw (new, connector_new, p) refl in absurd cc
        stream (ok actor) p = timer actor p (make_timer config) refl

    pub new-Sound_lem : (config : Config) (c : Ctx) → created config ≡ ok c → Sound codec F aq tm c
    new-Sound_lem config c e =
        let (actor, t, same) = new-Assembled config c e in rw same (assembled-Sound config actor t)

    pub new-upcoming :
        (config : Config) (c : Ctx) → created config ≡ ok c → c.upcoming_messages ≡ []
    unfolding assembled
    new-upcoming config c e =
        let (actor, t, same) = new-Assembled config c e in ap (λ x. x.upcoming_messages) same

    -- Its buffers for sending are as many as the configuration says, of the size of a packet.
    pub new-shape :
        (config : Config) (c : Ctx)
        → created config ≡ ok c
        → (c.output_buffer_pool.buffer_size ≡ max_packet_size)
          × (c.output_buffer_pool.num_buffers ≡ config.num_buffers)
    unfolding assembled BufferPool.new
    new-shape config c e =
        let (actor, t, same) = new-Assembled config c e in
        (
          ap (λ x. x.output_buffer_pool.buffer_size) same,
          ap (λ x. x.output_buffer_pool.num_buffers) same,
        )
