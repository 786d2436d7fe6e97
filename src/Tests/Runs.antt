-- ===== src/Tests/Runs.antt =====
-- Runs of operations from a context that `Context::new` makes, at concrete inputs.
use tansiv.Base.{ℕ, ◌≡◌, refl, none, some, List, [], ◌∷◌, arith, Result, ok}
use tansiv.Base.Int.{pos, ◌-ℤ◌}
use tansiv.BufferPool.{allocate_buffer, allocate_from, deref, deref_mut}
use tansiv.BufferPool
use tansiv.BufferPool.Bytes.{bytes}
use tansiv.Error.{IoError}
use tansiv.Connector.{Reader, max_packet_size}
use tansiv.Connector.Send.{Writer}
use tansiv.Connector.Send
use tansiv.OutputMsgSet.{insert, insert_from, drain, drain_for, next, next_from, take_slot, turn}
use tansiv.Timer.Qemu
use tansiv.Timer.Kvm
use tansiv.Timer.Interface.{Timer, kvm}
use tansiv.Context.Handlers.{kvm_handler}
use tansiv.InputQueue
use tansiv.Connector.{
  recv, read_prefixed_size, read_exact, allocate, recv_into, decode, new_deliver_packet,
  new_goto_deadline, goto_of,
}
use tansiv.BufferPool.Bytes
use tansiv.Context.{
  Context, at_deadline, receive_phase, recv_loop, handle_actor_msg, send_phase, send_packet,
  send_outgoing, send_upcoming,
}
use tansiv.Context.Application.{send, enqueue}
use tansiv.Context.Setup.{Config, UnixConnector, connector_new, assembled, new}
use tansiv.Context.Run.{Op, run, sends, receives, reaches_deadline, starts}
use tansiv.Context.Run.Buffers.{Accounted, run-Accounted, run-send_accepts}
use tansiv.Context.Run.Overruns.{AllDue, kvm_run, run-AllDue}
use tansiv.Tests.Fixtures.{codec, flatbuffers, queue, vm_timer, numbers, device}
use tansiv.Tests.Streams.{two_messages}

abbrev config : Config
config = record { actor_socket = []; address = 11; time_offset = pos 0; num_buffers = 2 }

abbrev stream : Reader × Writer
stream = (two_messages, record { outcome = λ n. none; attempts = 0; sent = [] })

abbrev connect : List ℕ → Result IoError (Reader × Writer)
connect path = ok stream

abbrev connector : UnixConnector
connector = record { actor = stream; input_buffer_pool = BufferPool.new bytes max_packet_size 2 }

abbrev vm_clock : vm_timer.T
vm_clock = (
  record {
    context = none;
    offset = pos 60;
    prev_deadline = 100;
    next_deadline = 200;
    references = 2;
  },
  190,
)

abbrev fresh : Context codec flatbuffers queue vm_timer
fresh = assembled codec flatbuffers queue vm_timer config connector vm_clock

created :
    new codec flatbuffers queue vm_timer connect (λ c. ok vm_clock) (λ t. ok t) config ≡ ok fresh
unfolding new connector_new
created = refl

run-Accounted_example : Accounted codec flatbuffers queue vm_timer (
    run codec flatbuffers queue vm_timer fresh
      (starts ∷ sends 12 (7 ∷ []) ∷ reaches_deadline ∷ receives 10 ∷ sends 12 [] ∷ []))
run-Accounted_example =
    run-Accounted codec flatbuffers queue vm_timer connect (λ c. ok vm_clock) (λ t. ok t) config
      fresh (starts ∷ sends 12 (7 ∷ []) ∷ reaches_deadline ∷ receives 10 ∷ sends 12 [] ∷ []) created

run-send_accepts_example :
    (send codec flatbuffers queue vm_timer
      (run codec flatbuffers queue vm_timer fresh (sends 12 (7 ∷ []) ∷ []))
      12
      (8 ∷ 9 ∷ [])).0
    ≡ ok tt
unfolding send enqueue assembled allocate_buffer allocate_from insert insert_from
    Qemu.simulation_now ◌-ℤ◌ BufferPool.new Qemu.check_deadline_overrun Send.new
run-send_accepts_example =
    run-send_accepts codec flatbuffers queue vm_timer connect (λ c. ok vm_clock) (λ t. ok t) config
      fresh (sends 12 (7 ∷ []) ∷ []) 130 12 (8 ∷ 9 ∷ []) created refl (omega arith) (omega arith)

abbrev kvm_timer : Timer
kvm_timer = kvm numbers device (some (pos 1))

-- Simulated time is 255, past the deadline at 200.
abbrev kvm_clock : kvm_timer.T
kvm_clock = (
  record {
    prev_deadline = 100;
    next_deadline = 200;
    guest_tsc = 0;
    vmx_timer_value = 190;
    tsc_freq = 1;
    references = 1;
  },
  240,
)

abbrev kvm_fresh : Context codec flatbuffers queue kvm_timer
kvm_fresh = assembled codec flatbuffers queue kvm_timer config connector kvm_clock

kvm_created :
    new codec flatbuffers queue kvm_timer connect (λ c. ok kvm_clock) (λ t. ok t) config
    ≡ ok kvm_fresh
unfolding new connector_new
kvm_created = refl

-- A message overruns the deadline at 200, and the handler keeps it back for the next, which the actor
-- sets at 3_000_000_500.
abbrev history : List (ℕ × Op)
history = (0, sends 12 (7 ∷ [])) ∷ (250, reaches_deadline) ∷ []

abbrev overrun : Context codec flatbuffers queue kvm_timer
overrun = kvm_run codec flatbuffers queue numbers device (some (pos 1)) kvm_fresh history

run-AllDue_example :
    AllDue codec flatbuffers queue numbers device
      (some (pos 1))
      200
      3_000_000_500
      overrun
      (send_phase codec flatbuffers queue kvm_timer 200 3_000_000_500 overrun).1
unfolding send enqueue assembled allocate_buffer allocate_from insert insert_from BufferPool.new
    Send.new Kvm.simulation_now Kvm.check_deadline_overrun send_phase drain drain_for next next_from
    take_slot turn send_outgoing send_packet send_upcoming Send.send Kvm.simulation_next_deadline
    Kvm.vm_time kvm_handler Kvm.simulation_previous_deadline Kvm.set_next_deadline Kvm.slice_length
    at_deadline receive_phase recv_loop handle_actor_msg InputQueue.push InputQueue.is_empty recv
    read_prefixed_size read_exact allocate recv_into decode new_deliver_packet new_goto_deadline
    goto_of deref deref_mut Bytes.new Bytes.get Bytes.get_mut Bytes.reset Bytes.calloc
    InputQueue.new
run-AllDue_example =
    run-AllDue codec flatbuffers queue numbers device (some (pos 1)) connect (λ c. ok kvm_clock)
      (λ t. ok t) config kvm_fresh history 200 3_000_000_500 kvm_created refl
