-- ===== src/Tests/Wire.antt =====
-- The wire at concrete inputs: a format in which each shape of a message has a tag of its own.
use tansiv.Base.{ℕ, zero, suc, ◌≡◌, ◌==◌, refl, Option, none, some, List, [], ◌∷◌}
use tansiv.Error.{IoError}
use tansiv.Connector.{Codec, FromTansivMsg, Reader, Pool, PacketMeta, Time}
use tansiv.Connector.Wire.{Encoder}
use tansiv.Connector.Wire.RoundTrip.{ActorMsg, packet}

abbrev meta_of : List ℕ → Option PacketMeta
meta_of [] = none
meta_of (src ∷ []) = none
meta_of (src ∷ dst ∷ left) = some (record { src = src; dst = dst })

abbrev behind_meta : List ℕ → List ℕ
behind_meta [] = []
behind_meta (src ∷ []) = []
behind_meta (src ∷ dst ∷ left) = left

abbrev time_of : List ℕ → Option Time
time_of [] = none
time_of (s ∷ []) = none
time_of (s ∷ n ∷ left) = some (record { seconds = s; nseconds = n })

-- The tags: the end, an unknown message, a deadline without a table, one with a table, then packets
-- without a table, with neither field, with one of them, and with both.
abbrev tagged : ℕ → List ℕ → Option FromTansivMsg
tagged zero l = some FromTansivMsg.end_simulation
tagged (suc zero) l = some FromTansivMsg.unknown
tagged (suc (suc zero)) l = some (FromTansivMsg.goto_deadline none)
tagged (suc (suc (suc zero))) l =
    some (FromTansivMsg.goto_deadline (some (record { time = time_of l })))
tagged (suc (suc (suc (suc zero)))) l = some (FromTansivMsg.deliver_packet none)
tagged (suc (suc (suc (suc (suc zero))))) l =
    some (FromTansivMsg.deliver_packet (some (record { metadata = none; payload = none })))
tagged (suc (suc (suc (suc (suc (suc zero)))))) l =
    some (FromTansivMsg.deliver_packet (some (record { metadata = none; payload = some l })))
tagged (suc (suc (suc (suc (suc (suc (suc zero))))))) l =
    some (FromTansivMsg.deliver_packet (some (record { metadata = meta_of l; payload = none })))
tagged (suc (suc (suc (suc (suc (suc (suc (suc n)))))))) l = some (
    FromTansivMsg.deliver_packet
      (some (record { metadata = meta_of l; payload = some (behind_meta l) })))

abbrev root : List ℕ → Option FromTansivMsg
root [] = none
root (t ∷ l) = tagged t l

abbrev read_scalar : List ℕ → ℕ
read_scalar [] = 0
read_scalar (n ∷ l) = n

abbrev pub tagged_codec : Codec
tagged_codec = record { root = root; read_scalar = read_scalar }

abbrev time_bytes : Option Time → List ℕ
time_bytes none = []
time_bytes (some t) = t.seconds ∷ t.nseconds ∷ []

abbrev deliver_bytes : Option PacketMeta → Option (List ℕ) → List ℕ
deliver_bytes none none = 5 ∷ []
deliver_bytes none (some p) = 6 ∷ p
deliver_bytes (some m) none = 7 ∷ m.src ∷ m.dst ∷ []
deliver_bytes (some m) (some p) = 8 ∷ m.src ∷ m.dst ∷ p

abbrev body : FromTansivMsg → List ℕ
body FromTansivMsg.end_simulation = 0 ∷ []
body FromTansivMsg.unknown = 1 ∷ []
body (FromTansivMsg.goto_deadline none) = 2 ∷ []
body (FromTansivMsg.goto_deadline (some g)) = 3 ∷ time_bytes g.time
body (FromTansivMsg.deliver_packet none) = 4 ∷ []
body (FromTansivMsg.deliver_packet (some d)) = deliver_bytes d.metadata d.payload

root-time_bytes : (t : Option Time) → time_of (time_bytes t) ≡ t
root-time_bytes none = refl
root-time_bytes (some t) = refl

root-deliver_bytes :
    (m : Option PacketMeta) (p : Option (List ℕ))
    → root (deliver_bytes m p)
      ≡ some (FromTansivMsg.deliver_packet (some (record { metadata = m; payload = p })))
root-deliver_bytes none none = refl
root-deliver_bytes none (some p) = refl
root-deliver_bytes (some m) none = refl
root-deliver_bytes (some m) (some p) = refl

pub root-body : (m : FromTansivMsg) → root (body m) ≡ some m
root-body FromTansivMsg.end_simulation = refl
root-body FromTansivMsg.unknown = refl
root-body (FromTansivMsg.goto_deadline none) = refl
root-body (FromTansivMsg.goto_deadline (some g)) = rw (root-time_bytes g.time) refl
root-body (FromTansivMsg.deliver_packet none) = refl
root-body (FromTansivMsg.deliver_packet (some d)) = root-deliver_bytes d.metadata d.payload

abbrev pub encoder : Encoder tagged_codec
encoder = record {
  finish = body;
  body = body;
  prefix = λ n. n ∷ 0 ∷ 0 ∷ 0 ∷ [];
  root-finish = λ m h. root-body m;
  root-body = λ m h. root-body m;
  length-prefix = λ n. refl;
  read_scalar-prefix = λ n lt. refl;
}

abbrev message : ActorMsg
message = packet (record { src = 5; dst = 6; payload = 8 ∷ 9 ∷ [] })

-- The packet, with the first bytes of another message behind it.
abbrev stream : Reader
stream = record {
  bytes = 5 ∷ 0 ∷ 0 ∷ 0 ∷ 8 ∷ 5 ∷ 6 ∷ 8 ∷ 9 ∷ 1 ∷ 0 ∷ [];
  at_end = IoError.unexpected_eof;
}

abbrev pub pool : Pool
pool = record {
  buffer_size = 6;
  num_buffers = 2;
  buffers = 0 ∷ 0 ∷ 0 ∷ 0 ∷ 0 ∷ 0 ∷ 0 ∷ 0 ∷ 0 ∷ 0 ∷ 0 ∷ 0 ∷ [];
  buffer_busy = λ i. i == 0;
}
