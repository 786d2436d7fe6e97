-- ===== src/Tests/Handlers.antt =====
-- Deadline handlers at concrete inputs.
use tansiv.Base.{ℕ, ◌≡◌, refl, true, false, none, [], ◌∷◌, ok}
use tansiv.Base.Int.{pos, negsuc, ◌+ℤ◌, ◌-ℤ◌}
use tansiv.BufferPool.{allocate_buffer, allocate_from, deref, deref_mut}
use tansiv.BufferPool.Bytes
use tansiv.Connector.{
  recv, read_prefixed_size, read_exact, allocate, recv_into, decode, new_deliver_packet,
  new_goto_deadline, goto_of,
}
use tansiv.Connector.Send
use tansiv.InputQueue
use tansiv.LibcTimer.{gettime, settime, timespec_to_duration}
use tansiv.OutputMsgSet.{new, drain, drain_for, next, next_from, take_slot, turn}
use tansiv.OutputMsgSet.Listing.{new-IsSettled}
use tansiv.Timer.Process
use tansiv.Timer.Kvm
use tansiv.Timer.Interface.{Timer, process, kvm}
use tansiv.Context.{
  Context, OutputMsg, send_phase, send_packet, send_outgoing, send_upcoming, at_deadline,
  receive_phase, recv_loop, handle_actor_msg,
}
use tansiv.Context.Handlers.{process_handler, kvm_handler}
use tansiv.Context.Handlers.Resuming.{Handled, process_handler_lem}
use tansiv.Context.Handlers.Slices.{NextSlice, kvm_handler_lem}
use tansiv.Tests.Fixtures.{codec, flatbuffers, queue, sys, local_now, numbers, device}
use tansiv.Tests.Streams.{two_messages}

-- A context without messages, over any timer, to which the actor sends a packet and a deadline.
abbrev pub idle : (tm : Timer) → tm.T → Context codec flatbuffers queue tm
idle tm t = record {
  address = 11;
  reader = two_messages;
  writer = record { outcome = λ n. none; attempts = 0; sent = [] };
  input_buffer_pool = record {
    buffer_size = 4;
    num_buffers = 2;
    buffers = 0 ∷ 0 ∷ 0 ∷ 0 ∷ 0 ∷ 0 ∷ 0 ∷ 0 ∷ [];
    buffer_busy = λ i. false;
  };
  input_queue = record { held = []; limit = 3 };
  timer_context = t;
  output_buffer_pool = record {
    buffer_size = 8;
    num_buffers = 2;
    buffers = λ i. 8;
    buffer_busy = λ i. false;
  };
  outgoing_messages = new (OutputMsg codec flatbuffers queue tm) 2;
  upcoming_messages = [];
  started = true;
  recv_calls = 0;
  deadline_calls = [];
}

-- The clock stands at 145, 5 after the timer's deadline.
abbrev running : Context codec flatbuffers queue (process sys local_now)
running = idle (process sys local_now) (
  record {
    time_offset = pos 50;
    application_time = record { offset = negsuc 989 };
    simulation_time = record { offset = negsuc 39 };
    timer_id = 1;
    at_deadline = false;
    current_deadline = pos 50;
    prev_deadline = 0;
    next_deadline = 100;
    prev_deadline_raw = 0;
    next_deadline_raw = 140;
    stopped = false;
  },
  145,
)

process_handler_lem_example :
    (n : ℕ) × ((gettime sys Process.clock 145).0 ≡ ok n)
    × Handled sys local_now codec flatbuffers queue running n
        (process_handler codec flatbuffers queue sys local_now running).1
unfolding process_handler Process.freeze_time Process.application_now Process.thaw_time_to_deadline
    Process.thawed Process.adjusted Process.simulation_previous_deadline
    Process.simulation_next_deadline gettime settime timespec_to_duration at_deadline send_phase
    drain drain_for next next_from take_slot turn send_outgoing send_packet send_upcoming Send.send
    receive_phase recv_loop handle_actor_msg InputQueue.push InputQueue.is_empty recv
    read_prefixed_size read_exact allocate allocate_buffer allocate_from recv_into decode
    new_deliver_packet new_goto_deadline goto_of deref deref_mut Bytes.new Bytes.get Bytes.get_mut
    Bytes.reset ◌+ℤ◌ ◌-ℤ◌
process_handler_lem_example =
    process_handler_lem sys local_now codec flatbuffers queue running (new-IsSettled 2) refl

abbrev kvm_running : Context codec flatbuffers queue (kvm numbers device none)
kvm_running = idle (kvm numbers device none) (
  record {
    prev_deadline = 100;
    next_deadline = 200;
    guest_tsc = 0;
    vmx_timer_value = 190;
    tsc_freq = 1;
    references = 1;
  },
  190,
)

kvm_handler_lem_example :
    (deadline : ℕ) × NextSlice codec flatbuffers queue numbers device none kvm_running deadline
      3_000_000_300
      (kvm_handler codec flatbuffers queue numbers device none 195 kvm_running).1
unfolding kvm_handler Kvm.simulation_previous_deadline Kvm.simulation_next_deadline
    Kvm.set_next_deadline Kvm.slice_length at_deadline send_phase drain drain_for next next_from
    take_slot turn send_outgoing send_packet send_upcoming Send.send receive_phase recv_loop
    handle_actor_msg InputQueue.push InputQueue.is_empty recv read_prefixed_size read_exact allocate
    allocate_buffer allocate_from recv_into decode new_deliver_packet new_goto_deadline goto_of
    deref deref_mut Bytes.new Bytes.get Bytes.get_mut Bytes.reset
kvm_handler_lem_example =
    kvm_handler_lem codec flatbuffers queue numbers device none 195 3_000_000_300 kvm_running
      (new-IsSettled 2) refl
