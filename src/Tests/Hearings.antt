-- ===== src/Tests/Hearings.antt =====
-- A slice of the client, the actor that hears it, and deadlines out of bounds.
use tansiv.Base.{ℕ, ◌+◌, ◌*◌, ◌<◌, ◌≤◌, ◌≡◌, ◌⊎◌, refl, none, [], ◌∷◌, ◌++◌, arith, ok, err, false}
use tansiv.Error.{IoError, invalid_data, other}
use tansiv.Duration.{nanos_per_sec}
use tansiv.BufferPool.Alloc.{AllBusy}
use tansiv.BufferPool.Bytes.{bytes}
use tansiv.Connector.{Reader, Handle, MsgIn, recv, decode}
use tansiv.Connector.Send.{Frame}
use tansiv.Connector.Send
use tansiv.Connector.Wire.Frames.{frame_bytes}
use tansiv.Connector.Wire.Refused.{recv_cases}
use tansiv.OutputMsgSet.{
  OutputMsgSet, new, fill, drain, drain_for, next, next_from, take_slot, turn,
}
use tansiv.OutputMsgSet.Listing.{IsSettled, new-IsSettled, fill-IsSettled}
use tansiv.Context.{Context, OutputMsg, send_phase, send_outgoing, send_packet, send_upcoming}
use tansiv.Context.Deadline.{sent}
use tansiv.TestActor
use tansiv.TestActor.{TestActor}
use tansiv.TestActor.Turns.{new-Ready}
use tansiv.TestActor.Hearing.{Heard, slice, send_phase-Heard}
use tansiv.TestActor.Unix.{send_go_to_deadline}
use tansiv.TestActor.Unix.Answers.{recv-send_go_to_deadline}
use tansiv.Tests.Fixtures.{flatbuffers, queue, vm_timer}
use tansiv.Tests.Wire.{tagged_codec, encoder, pool}
use tansiv.Tests.Frames.{out_root, sender}
use tansiv.Tests.Delivery

abbrev Msg : Type 0
Msg = OutputMsg tagged_codec flatbuffers queue vm_timer

abbrev message : ℕ → ℕ → Msg
message index send_time = record {
  src = 11;
  dst = 12;
  send_time = send_time;
  payload = 8 ∷ 9 ∷ [];
  buffer = record { index = index; inner = record {} };
}

-- A message of the slice from 100 to 200 that is stamped 90, and two that were kept back.
abbrev outgoing : OutputMsgSet Msg
outgoing = fill (new Msg 2) 1 (message 0 90)

outgoing-IsSettled : IsSettled outgoing
outgoing-IsSettled = fill-IsSettled (new Msg 2) 1 (message 0 90) (new-IsSettled 2)

abbrev context : Context tagged_codec flatbuffers queue vm_timer
context = record Delivery.context {
  outgoing_messages = outgoing;
  upcoming_messages = message 1 150 ∷ message 2 220 ∷ [];
}

abbrev heard : Reader
heard = record {
  bytes =
      10 ∷ 0 ∷ 0 ∷ 0 ∷ 3 ∷ 1 ∷ 11 ∷ 12 ∷ 1 ∷ 0 ∷ 100 ∷ 1 ∷ 8 ∷ 9 ∷ 10 ∷ 0 ∷ 0 ∷ 0 ∷ 3 ∷ 1 ∷ 11 ∷ 12
      ∷ 1 ∷ 0 ∷ 150 ∷ 1 ∷ 8 ∷ 9 ∷ 1 ∷ 0 ∷ 0 ∷ 0 ∷ 0 ∷ 7 ∷ [];
  at_end = IoError.unexpected_eof;
}

abbrev actor : TestActor encoder flatbuffers out_root
actor = TestActor.new encoder flatbuffers out_root heard (λ n. none)

send_phase-Heard_example :
    (sent tagged_codec flatbuffers queue vm_timer
        (send_phase tagged_codec flatbuffers queue vm_timer 100 200 context).1
      ≡ [] ++ slice encoder flatbuffers sender queue vm_timer 100 200 context)
    × Heard encoder flatbuffers sender
        (slice encoder flatbuffers sender queue vm_timer 100 200 context)
        (7 ∷ [])
        actor
unfolding send_phase drain drain_for next next_from take_slot turn send_outgoing send_packet
    send_upcoming Send.send TestActor.new frame_bytes
send_phase-Heard_example =
    send_phase-Heard encoder flatbuffers sender queue vm_timer 100 200 context (7 ∷ []) actor
      outgoing-IsSettled refl
      (
        record {
          fits = (
            omega arith,
            omega arith,
            omega arith,
            omega arith,
            (omega arith, (omega arith, tt)),
          );
          small = omega arith;
        },
        (
          record {
            fits = (
              omega arith,
              omega arith,
              omega arith,
              omega arith,
              (omega arith, (omega arith, tt)),
            );
            small = omega arith;
          },
          (record { fits = tt; small = omega arith }, tt),
        ),
      )
      (new-Ready encoder flatbuffers sender heard (λ n. none) (λ n. refl)) refl

-- Seven bytes behind their size, for a buffer of six.
abbrev too_long : Reader
too_long = record {
  bytes = 7 ∷ 0 ∷ 0 ∷ 0 ∷ 8 ∷ 5 ∷ 6 ∷ 8 ∷ 9 ∷ 1 ∷ 0 ∷ [];
  at_end = IoError.unexpected_eof;
}

abbrev left : Reader
left = record { bytes = 8 ∷ 5 ∷ 6 ∷ 8 ∷ 9 ∷ 1 ∷ 0 ∷ []; at_end = IoError.unexpected_eof }

recv_cases_example :
    ((6 < 7) × (recv tagged_codec too_long pool ≡ (err invalid_data, left, pool)))
    ⊎ ((7 ≤ 6)
        × AllBusy bytes pool 0 2
        × (recv tagged_codec too_long pool ≡ (err other, left, pool)))
    ⊎ ((7 ≤ 6)
        × ((b : Handle) × (b.index < 2)
            × (pool.buffer_busy b.index ≡ false)
            × ((recv tagged_codec too_long pool).0
                ≡ decode tagged_codec (8 ∷ 5 ∷ 6 ∷ 8 ∷ 9 ∷ 1 ∷ 0 ∷ []) b)
            × ((recv tagged_codec too_long pool).1 ≡ record too_long { bytes = [] })))
recv_cases_example =
    recv_cases encoder (8 ∷ 5 ∷ 6 ∷ 8 ∷ 9 ∷ 1 ∷ 0 ∷ []) [] too_long pool (omega arith) refl
      (omega arith)

-- A deadline with a second too much among its nanoseconds.
abbrev over : Reader
over = record {
  bytes = 3 ∷ 0 ∷ 0 ∷ 0 ∷ 3 ∷ 2 ∷ 1_000_000_000 ∷ 9 ∷ [];
  at_end = IoError.unexpected_eof;
}

recv-send_go_to_deadline_example :
    ((send_go_to_deadline encoder flatbuffers out_root 2 1_000_000_000 actor).0 ≡ ok tt)
    × ((recv tagged_codec over pool).1.bytes ≡ 9 ∷ [])
    × (((1_000_000_000 < nanos_per_sec)
          × ((recv tagged_codec over pool).0
              ≡ ok (MsgIn.goto_deadline (2 * nanos_per_sec + 1_000_000_000))))
        ⊎ ((nanos_per_sec ≤ 1_000_000_000) × ((recv tagged_codec over pool).0 ≡ err invalid_data)))
unfolding TestActor.new send_go_to_deadline
recv-send_go_to_deadline_example =
    recv-send_go_to_deadline encoder flatbuffers out_root 2 1_000_000_000 actor (9 ∷ []) over pool
      (omega arith) (omega arith) refl refl refl (omega arith)
      (record { whole = omega arith; fits = omega arith; free = omega arith })
