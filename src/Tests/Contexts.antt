-- ===== src/Tests/Contexts.antt =====
-- Contexts at concrete inputs, over the timer of a virtual machine.
use tansiv.Base.{ℕ, ◌≢◌, refl, true, false, none, [], ◌∷◌, update}
use tansiv.Base.Int.{pos, ◌-ℤ◌}
use tansiv.Connector.Send
use tansiv.OutputMsgSet.{OutputMsgSet, new, fill}
use tansiv.OutputMsgSet.Listing.{IsSettled, new-IsSettled, fill-IsSettled}
use tansiv.OutputMsgSet.{drain, drain_for, next, next_from, take_slot, turn}
use tansiv.Timer.Qemu
use tansiv.Context.{
  Context, OutputMsg, out_of_fuel, send_phase, send_packet, send_outgoing, send_upcoming,
  receive_phase, at_deadline,
}
use tansiv.Context.Application.{Packet, send}
use tansiv.Context.Deadline.{Sent, send_phase-Sent}
use tansiv.Context.Sending.{Outcome, send-Outcome}
use tansiv.Context.Receiving.{Receives, receive_phase-Receives, at_deadline_ends}
use tansiv.Context.Run.{Settled, run, run-Settled, sends, reaches_deadline, receives}
use tansiv.Tests.Fixtures.{codec, flatbuffers, queue, vm_timer}
use tansiv.Tests.Streams.{pool, two_messages, filled}

abbrev pub Msg : Type 0
Msg = OutputMsg codec flatbuffers queue vm_timer

abbrev pub message : ℕ → ℕ → Msg
message index send_time = record {
  src = 11;
  dst = 12;
  send_time = send_time;
  payload = 1 ∷ 2 ∷ [];
  buffer = record { index = index; inner = record {} };
}

-- A message of the slice from 100 to 200 that is stamped 90, and two that were kept back.
abbrev outgoing : OutputMsgSet Msg
outgoing = fill (new Msg 2) 1 (message 0 90)

outgoing-IsSettled : IsSettled outgoing
outgoing-IsSettled = fill-IsSettled (new Msg 2) 1 (message 0 90) (new-IsSettled 2)

abbrev pub context : Context codec flatbuffers queue vm_timer
context = record {
  address = 11;
  reader = two_messages;
  writer = record { outcome = λ n. none; attempts = 0; sent = [] };
  input_buffer_pool = pool;
  input_queue = record { held = []; limit = 3 };
  timer_context = (
    record {
      context = none;
      offset = pos 60;
      prev_deadline = 100;
      next_deadline = 200;
      references = 2;
    },
    190,
  );
  output_buffer_pool = record {
    buffer_size = 8;
    num_buffers = 4;
    buffers = λ i. 8;
    buffer_busy = update (λ i. true) 3 false;
  };
  outgoing_messages = outgoing;
  upcoming_messages = message 1 150 ∷ message 2 220 ∷ [];
  started = true;
  recv_calls = 0;
  deadline_calls = [];
}

send_phase-Sent_example :
    Sent codec flatbuffers queue vm_timer 100 200 context
      (send_phase codec flatbuffers queue vm_timer 100 200 context).1
unfolding send_phase drain drain_for next next_from take_slot turn send_outgoing send_packet
    send_upcoming Send.send
send_phase-Sent_example =
    send_phase-Sent codec flatbuffers queue vm_timer 100 200 context outgoing-IsSettled refl

receive_phase-Receives_example :
    Receives codec flatbuffers queue vm_timer context
      (receive_phase codec flatbuffers queue vm_timer context)
receive_phase-Receives_example = receive_phase-Receives codec flatbuffers queue vm_timer context

at_deadline_ends_example : (at_deadline codec flatbuffers queue vm_timer context).0 ≢ out_of_fuel
at_deadline_ends_example = at_deadline_ends codec flatbuffers queue vm_timer context

send-Outcome_example :
    Outcome codec flatbuffers queue vm_timer context 130 12
      (7 ∷ [])
      (send codec flatbuffers queue vm_timer context 12 (7 ∷ []))
unfolding Qemu.simulation_now ◌-ℤ◌
send-Outcome_example =
    send-Outcome codec flatbuffers queue vm_timer context 130 12 (7 ∷ []) outgoing-IsSettled refl

-- A packet of two bytes waits in the queue.
abbrev pub waiting : Context codec flatbuffers queue vm_timer
waiting = record context {
  input_buffer_pool = filled;
  input_queue = record { held = record { index = 1; inner = record { size = 3 } } ∷ []; limit = 3 };
}

abbrev pub packet : Packet
packet = record { src = 11; dst = 12; payload = 8 ∷ 9 ∷ [] }

abbrev opened : Context codec flatbuffers queue vm_timer
opened = record context { outgoing_messages = new Msg 2 }

run-Settled_example : Settled codec flatbuffers queue vm_timer (
    run codec flatbuffers queue vm_timer opened
      (sends 12 (7 ∷ []) ∷ reaches_deadline ∷ receives 10 ∷ sends 12 [] ∷ []))
run-Settled_example =
    run-Settled codec flatbuffers queue vm_timer opened
      (sends 12 (7 ∷ []) ∷ reaches_deadline ∷ receives 10 ∷ sends 12 [] ∷ []) 2 refl
