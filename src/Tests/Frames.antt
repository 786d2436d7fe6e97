-- ===== src/Tests/Frames.antt =====
-- The client's messages at concrete inputs: a format in which each field says whether it is there.
use tansiv.Base.{
  ℕ, zero, suc, ◌≡◌, ◌==◌, refl, Option, none, some, List, [], ◌∷◌, ◌++◌, arith, Result, ok,
}
use tansiv.Error.{IoError}
use tansiv.BufferPool.{BufferPool}
use tansiv.BufferPool.Builders.{builders}
use tansiv.Connector.{PacketMeta, Time, Reader, Pool}
use tansiv.Connector.Send.{Frame, MsgOut, frame_of}
use tansiv.Connector.Wire.{create_end_simulation}
use tansiv.Connector.Wire.Actor.{SendTable, ToTansivMsg, recv_out}
use tansiv.Connector.Wire.Frames.{Sender, frame_bytes}
use tansiv.Connector.Wire.Frames.Received.{recv_out-frame_bytes}
use tansiv.TestActor
use tansiv.TestActor.{TestActor, TestError, recv_one_msg_actor, write_all}
use tansiv.TestActor.Turns.{new-Ready}
use tansiv.TestActor.Scripts.{Readable, deadlines, recv_one_msg_actor-written}
use tansiv.TestActor.Unix.{run, exit_code, recv_at_deadline}
use tansiv.TestActor.Unix.Codes.{exit_code-recv_at_deadline}
use tansiv.Tests.Fixtures.{flatbuffers}
use tansiv.Tests.Wire.{tagged_codec, encoder}

abbrev pub meta_bytes : Option PacketMeta → List ℕ → List ℕ
meta_bytes none l = 0 ∷ l
meta_bytes (some m) l = 1 ∷ m.src ∷ m.dst ∷ l

abbrev pub time_bytes : Option Time → List ℕ → List ℕ
time_bytes none l = 0 ∷ l
time_bytes (some t) l = 1 ∷ t.seconds ∷ t.nseconds ∷ l

abbrev pub payload_bytes : Option (List ℕ) → List ℕ
payload_bytes none = 0 ∷ []
payload_bytes (some p) = 1 ∷ p

abbrev pub read_payload : List ℕ → Option (List ℕ)
read_payload [] = none
read_payload (zero ∷ l) = none
read_payload (suc n ∷ l) = some l

-- A time, and the payload behind it.
abbrev pub read_time : Option PacketMeta → List ℕ → SendTable
read_time m [] = record { metadata = m; time = none; payload = none }
read_time m (zero ∷ l) = record { metadata = m; time = none; payload = read_payload l }
read_time m (suc n ∷ []) = record { metadata = m; time = none; payload = none }
read_time m (suc n ∷ s ∷ []) = record { metadata = m; time = none; payload = none }
read_time m (suc n ∷ s ∷ ns ∷ l) = record {
  metadata = m;
  time = some (record { seconds = s; nseconds = ns });
  payload = read_payload l;
}

abbrev pub read_table : List ℕ → SendTable
read_table [] = record { metadata = none; time = none; payload = none }
read_table (zero ∷ l) = read_time none l
read_table (suc n ∷ []) = record { metadata = none; time = none; payload = none }
read_table (suc n ∷ src ∷ []) = record { metadata = none; time = none; payload = none }
read_table (suc n ∷ src ∷ dst ∷ l) = read_time (some (record { src = src; dst = dst })) l

abbrev pub out_root : List ℕ → Option ToTansivMsg
out_root [] = none
out_root (zero ∷ l) = some ToTansivMsg.at_deadline
out_root (suc zero ∷ l) = some (ToTansivMsg.send_packet none)
out_root (suc (suc zero) ∷ l) = some ToTansivMsg.unknown
out_root (suc (suc (suc n)) ∷ l) = some (ToTansivMsg.send_packet (some (read_table l)))

abbrev pub out_body : ToTansivMsg → List ℕ
out_body ToTansivMsg.at_deadline = 0 ∷ []
out_body (ToTansivMsg.send_packet none) = 1 ∷ []
out_body ToTansivMsg.unknown = 2 ∷ []
out_body (ToTansivMsg.send_packet (some t)) =
    3 ∷ meta_bytes t.metadata (time_bytes t.time (payload_bytes t.payload))

read_table-bytes :
    (m : Option PacketMeta) (t : Option Time) (p : Option (List ℕ))
    → read_table (meta_bytes m (time_bytes t (payload_bytes p)))
      ≡ record { metadata = m; time = t; payload = p }
read_table-bytes none none none = refl
read_table-bytes none none (some p) = refl
read_table-bytes none (some t) none = refl
read_table-bytes none (some t) (some p) = refl
read_table-bytes (some m) none none = refl
read_table-bytes (some m) none (some p) = refl
read_table-bytes (some m) (some t) none = refl
read_table-bytes (some m) (some t) (some p) = refl

pub out_root-body : (m : ToTansivMsg) → out_root (out_body m) ≡ some m
out_root-body ToTansivMsg.at_deadline = refl
out_root-body (ToTansivMsg.send_packet none) = refl
out_root-body ToTansivMsg.unknown = refl
out_root-body (ToTansivMsg.send_packet (some t)) =
    rw (read_table-bytes t.metadata t.time t.payload) refl

abbrev pub sender : Sender out_root
sender = record { body = out_body; root-body = λ m h. out_root-body m }

-- A deadline that is reached, a packet, and the first byte of another message.
abbrev pub client : Reader
client = record {
  bytes = 1 ∷ 0 ∷ 0 ∷ 0 ∷ 0 ∷ 10 ∷ 0 ∷ 0 ∷ 0 ∷ 3 ∷ 1 ∷ 0 ∷ 1 ∷ 1 ∷ 3 ∷ 200 ∷ 1 ∷ 8 ∷ 9 ∷ 5 ∷ [];
  at_end = IoError.unexpected_eof;
}

abbrev pub packet : Frame
packet = Frame.send_packet 0 1 3 200 (8 ∷ 9 ∷ [])

abbrev pub packet_client : Reader
packet_client = record {
  bytes = 10 ∷ 0 ∷ 0 ∷ 0 ∷ 3 ∷ 1 ∷ 0 ∷ 1 ∷ 1 ∷ 3 ∷ 200 ∷ 1 ∷ 8 ∷ 9 ∷ 5 ∷ [];
  at_end = IoError.unexpected_eof;
}

pub deadline-Readable : Readable encoder flatbuffers sender Frame.at_deadline
deadline-Readable = record { fits = tt; small = omega arith }

pub packet-Readable : Readable encoder flatbuffers sender packet
packet-Readable = record {
  fits = (omega arith, omega arith, omega arith, omega arith, (omega arith, (omega arith, tt)));
  small = omega arith;
}

abbrev pub actor : TestActor encoder flatbuffers out_root
actor = TestActor.new encoder flatbuffers out_root client (λ n. none)

recv_one_msg_actor-written_example :
    (a' : TestActor encoder flatbuffers out_root) × (recv_one_msg_actor encoder flatbuffers out_root
        actor
      ≡ some (ok tt, a'))
    × (a'.written
        ≡ [] ++ (deadlines encoder flatbuffers sender 2 0 ++ create_end_simulation encoder))
    × (a'.client.bytes ≡ 5 ∷ [])
unfolding TestActor.new frame_bytes
recv_one_msg_actor-written_example =
    recv_one_msg_actor-written encoder flatbuffers sender 0 1 3 200 (8 ∷ 9 ∷ []) 1 (5 ∷ []) actor
      deadline-Readable packet-Readable
      (new-Ready encoder flatbuffers sender client (λ n. none) (λ n. refl)) refl

exit_code-recv_at_deadline_example :
    (result : Result TestError (Unit {0})) × (run encoder flatbuffers out_root
        (ok (packet_client, λ n. none))
        (λ a. some (recv_at_deadline encoder flatbuffers out_root a))
      ≡ some result)
    × (exit_code result ≡ some 123)
unfolding frame_bytes
exit_code-recv_at_deadline_example =
    exit_code-recv_at_deadline encoder flatbuffers sender (5 ∷ []) packet_client (λ n. none)
      (λ n. refl) packet packet-Readable refl

abbrev builder_pool : BufferPool (builders flatbuffers)
builder_pool = record {
  buffer_size = 8;
  num_buffers = 2;
  buffers = λ i. 8;
  buffer_busy = λ i. i == 0;
}

abbrev wide_pool : Pool
wide_pool = record {
  buffer_size = 12;
  num_buffers = 1;
  buffers = 0 ∷ 0 ∷ 0 ∷ 0 ∷ 0 ∷ 0 ∷ 0 ∷ 0 ∷ 0 ∷ 0 ∷ 0 ∷ 0 ∷ [];
  buffer_busy = λ i. i == 1;
}

recv_out-frame_bytes_example :
    let (result, after) =
      recv_out tagged_codec flatbuffers out_root (packet_client, wide_pool, builder_pool) in
    (m : MsgOut flatbuffers) × (result ≡ ok m)
    × (frame_of flatbuffers m ≡ packet)
    × (after.0.bytes ≡ 5 ∷ [])
unfolding frame_bytes
recv_out-frame_bytes_example =
    recv_out-frame_bytes encoder flatbuffers sender packet (5 ∷ []) packet_client wide_pool
      builder_pool
      (omega arith, omega arith, omega arith, omega arith, (omega arith, (omega arith, tt)))
      (omega arith) refl (record { whole = omega arith; fits = omega arith; free = omega arith })
      (omega arith)
