-- ===== src/Tests/Sessions.antt =====
-- The client and the actor that receives one message, together.
use tansiv.Base.{◌+◌, ◌*◌, ◌≡◌, refl, none, some, [], ◌∷◌, arith, ok}
use tansiv.Error.{IoError}
use tansiv.BufferPool
use tansiv.BufferPool.Bytes
use tansiv.Connector.{Reader, recv}
use tansiv.Connector.Send
use tansiv.Connector.Send.{Frame}
use tansiv.Connector.Wire.{create_goto_deadline, create_end_simulation}
use tansiv.Connector.Wire.Frames.{frame_bytes}
use tansiv.OutputMsgSet.Listing.{new-IsSettled}
use tansiv.Base.Int.{◌-ℤ◌}
use tansiv.Timer.Qemu
use tansiv.InputQueue
use tansiv.OutputMsgSet
use tansiv.OutputMsgSet.{drain, drain_for, next, next_from, take_slot, turn}
use tansiv.Context.{
  Context, send_phase, receive_phase, send_outgoing, send_packet, send_upcoming, end_simulation,
}
use tansiv.Context.Application.{start, send}
use tansiv.Context.Run.Waiting.{Waits}
use tansiv.TestActor
use tansiv.TestActor.{TestActor, recv_one_msg_actor}
use tansiv.TestActor.Notifiers.{notified, marks}
use tansiv.TestActor.Notifiers
use tansiv.TestActor.Scripts.{Readable, recv_one_msg_actor-written}
use tansiv.TestActor.Client.{Session, started, sends, reaches}
use tansiv.TestActor.Sessions.{given, Session-notified}
use tansiv.TestActor.Turns.{new-Ready, Ready}
use tansiv.Tests.Fixtures.{flatbuffers, queue, vm_timer}
use tansiv.Tests.Wire.{tagged_codec, encoder}
use tansiv.Tests.Frames.{out_root, sender, deadline-Readable}
use tansiv.Tests.Delivery
use tansiv.Tests.Delivery.{account}

abbrev Ctx : Type 0
Ctx = Context tagged_codec flatbuffers queue vm_timer

-- Two deadlines and the end.
abbrev context : Ctx
context = record Delivery.context {
  reader = record {
    bytes =
        3 ∷ 0 ∷ 0 ∷ 0 ∷ 3 ∷ 0 ∷ 100_000 ∷ 3 ∷ 0 ∷ 0 ∷ 0 ∷ 3 ∷ 0 ∷ 200_000 ∷ 1 ∷ 0 ∷ 0 ∷ 0 ∷ 0 ∷ [];
    at_end = IoError.unexpected_eof;
  };
}

waits : Waits encoder flatbuffers queue vm_timer context
waits = record {
  input = account;
  wide = record {
    whole = omega arith;
    prefix = omega arith;
    deadlines = λ d. omega arith;
    ending = omega arith;
  };
  free = omega arith;
}

-- What the client writes up to the end of its second slice: a deadline that is reached, the packet, and
-- the deadline behind it.
abbrev client : Reader
client = record {
  bytes =
      1 ∷ 0 ∷ 0 ∷ 0 ∷ 0 ∷ 10 ∷ 0 ∷ 0 ∷ 0 ∷ 3 ∷ 1 ∷ 11 ∷ 1 ∷ 1 ∷ 0 ∷ 100_000 ∷ 1 ∷ 8 ∷ 9 ∷ 1 ∷ 0 ∷ 0
      ∷ 0 ∷ 0 ∷ [];
  at_end = IoError.unexpected_eof;
}

abbrev actor : TestActor encoder flatbuffers out_root
actor = TestActor.new encoder flatbuffers out_root client (λ n. none)

ready : Ready encoder flatbuffers sender actor
unfolding TestActor.new
ready = new-Ready encoder flatbuffers sender client (λ n. none) (λ n. refl)

packet-Readable :
    Readable encoder flatbuffers sender (Frame.send_packet 11 1 0 100_000 (8 ∷ 9 ∷ []))
packet-Readable = record {
  fits = (omega arith, omega arith, omega arith, omega arith, (omega arith, (omega arith, tt)));
  small = omega arith;
}

-- What the actor gives is what the client reads.
reads :
    context.reader.bytes
    ≡ given encoder flatbuffers sender queue vm_timer
        (recv_one_msg_actor encoder flatbuffers out_root actor)
unfolding TestActor.new frame_bytes create_goto_deadline create_end_simulation
reads =
    let (a', run, wrote, left) =
      recv_one_msg_actor-written encoder flatbuffers sender 11 1 0 100_000 (8 ∷ 9 ∷ []) 1
        (1 ∷ 0 ∷ 0 ∷ 0 ∷ 0 ∷ []) actor deadline-Readable packet-Readable ready refl in
    rw (run, wrote) refl

abbrev reached : Ctx
reached =
    (receive_phase tagged_codec flatbuffers queue vm_timer
      (send_phase tagged_codec flatbuffers queue vm_timer 0 100_000
        (start tagged_codec flatbuffers queue vm_timer context).1).1).1

abbrev sending : Ctx
sending = (send tagged_codec flatbuffers queue vm_timer reached 1 (8 ∷ 9 ∷ [])).1

-- The client has handled one deadline, and has sent a packet.
session : Session encoder flatbuffers sender queue vm_timer context 1 sending
unfolding send_phase drain drain_for next next_from take_slot turn send_outgoing send_packet
    send_upcoming Send.send start recv BufferPool.allocate_buffer BufferPool.deref Bytes.get
    BufferPool.deref_mut Bytes.new Bytes.get_mut Bytes.reset
session = sends 1 (8 ∷ 9 ∷ []) (reaches 0 100_000 started refl)

Session-notified_example :
    let notifier = notified Notifiers.new sending.deadline_calls in
    ((a' : TestActor encoder flatbuffers out_root) × (recv_one_msg_actor encoder flatbuffers
          out_root actor
        ≡ some (ok tt, a')))
    × (sending.deadline_calls ≡ marks 2 0)
    × (notifier.num_called ≡ 1 + 1)
    × (notifier.deadline ≡ notifier.num_called * 100_000)
    × ((receive_phase tagged_codec flatbuffers queue vm_timer
          (send_phase tagged_codec flatbuffers queue vm_timer 100_000 200_000 sending).1).0
        ≡ end_simulation)
unfolding TestActor.new frame_bytes send_phase drain drain_for next next_from take_slot turn
    send_outgoing send_packet send_upcoming Send.send start recv BufferPool.allocate_buffer
    BufferPool.deref Bytes.get BufferPool.deref_mut Bytes.new Bytes.get_mut Bytes.reset send
    Qemu.simulation_now ◌-ℤ◌ receive_phase BufferPool.drop InputQueue.is_empty Qemu.start
    Qemu.check_deadline_overrun OutputMsgSet.insert Send.new Send.finish
Session-notified_example =
    Session-notified encoder flatbuffers sender queue vm_timer 1 context 100_000 200_000
      (record {
        src = 11;
        dst = 1;
        send_time = 0;
        payload = 8 ∷ 9 ∷ [];
        buffer = record { index = 0; inner = record {} };
      })
      [] actor refl waits refl (new-IsSettled 2) refl session (refl, tt) refl refl deadline-Readable
      packet-Readable ready refl refl reads (omega arith)
