-- ===== src/Tests/Ends.antt =====
-- Contexts that are started, stopped and freed, at concrete inputs.
use tansiv.Base.{ℕ, ◌+◌, ◌-◌, ◌≡◌, refl, true, false, none, some, List, [], ◌∷◌, bit}
use tansiv.Base.Int.{pos}
use tansiv.Error.{IoError}
use tansiv.OutputMsgSet.Listing.{new-IsSettled}
use tansiv.BufferPool.{allocate_buffer, allocate_from, deref, deref_mut}
use tansiv.BufferPool.Bytes
use tansiv.Connector.{
  Reader, recv, read_prefixed_size, read_exact, allocate, recv_into, decode, new_deliver_packet,
  new_goto_deadline, goto_of,
}
use tansiv.Context.{Context}
use tansiv.Context.Application.{start, stop}
use tansiv.Timer.Qemu
use tansiv.Timer.Kvm
use tansiv.Timer.Interface.{Timer, kvm}
use tansiv.CApi.Lifetime.{Call, exec, vsg_cleanup}
use tansiv.CApi.Lifetime.Protocol.{QemuWorld, History, initial, after, Allowed, History-safe}
use tansiv.CApi.Lifetime.Protocol
use tansiv.CApi.Lifetime.Early
use tansiv.CApi.Lifetime.Early.{KvmWorld, stop_frees_early}
use tansiv.Tests.Fixtures.{codec, flatbuffers, queue, vm, vm_timer, numbers, device}
use tansiv.Tests.Handlers.{idle}

-- A deadline is in the stream.
abbrev deadline : Reader
deadline = record { bytes = 1 ∷ 0 ∷ 0 ∷ 0 ∷ 1 ∷ []; at_end = IoError.unexpected_eof }

abbrev fresh : (tm : Timer) → tm.T → Context codec flatbuffers queue tm
fresh tm t = record (idle tm t) { reader = deadline; started = false }

abbrev vm_context : Context codec flatbuffers queue vm_timer
vm_context = fresh vm_timer (
  record { context = none; offset = pos 0; prev_deadline = 0; next_deadline = 0; references = 1 },
  190,
)

abbrev vm_started : QemuWorld codec flatbuffers queue vm ℕ
vm_started = record { context = (start codec flatbuffers queue vm_timer vm_context).1; strong = 1 }

vm_armed : History codec flatbuffers queue vm ℕ vm_started true true
unfolding exec start recv read_prefixed_size read_exact allocate allocate_buffer allocate_from
    recv_into decode new_deliver_packet new_goto_deadline goto_of deref deref_mut Bytes.new
    Bytes.get Bytes.get_mut Bytes.reset Qemu.start Qemu.set_next_deadline
vm_armed = after Call.starts (initial vm_context refl (new-IsSettled 2)) (refl, refl) refl

-- The timer is armed when the application cleans up.
abbrev vm_left : QemuWorld codec flatbuffers queue vm ℕ
vm_left = record {
  context = record vm_started.context {
    timer_context = (
      record vm_started.context.timer_context.0 {
        references = vm_started.context.timer_context.0.references - 1;
      },
      vm_started.context.timer_context.1,
    );
  };
  strong = 0;
}

vm_cleaned : History codec flatbuffers queue vm ℕ vm_left false true
unfolding exec vsg_cleanup start recv read_prefixed_size read_exact allocate allocate_buffer
    allocate_from recv_into decode new_deliver_packet new_goto_deadline goto_of deref deref_mut
    Bytes.new Bytes.get Bytes.get_mut Bytes.reset Qemu.start Qemu.set_next_deadline
vm_cleaned = after Call.cleans vm_armed refl refl

History-safe_example :
    (0 ≡ bit false)
    × (vm_left.context.timer_context.0.references ≡ bit false + bit true)
    × ((call : Call)
        → Allowed false true call
        → (w' : QemuWorld codec flatbuffers queue vm ℕ) × (Protocol.calls codec flatbuffers queue vm
              ℕ vm_left call
            ≡ some w'))
History-safe_example = History-safe codec flatbuffers queue vm ℕ vm_cleaned

abbrev kvm_timer : Timer
kvm_timer = kvm numbers device none

abbrev kvm_context : Context codec flatbuffers queue kvm_timer
kvm_context = fresh kvm_timer (
  record {
    prev_deadline = 0;
    next_deadline = 0;
    guest_tsc = 0;
    vmx_timer_value = 0;
    tsc_freq = 0;
    references = 1;
  },
  190,
)

abbrev kvm_started : KvmWorld codec flatbuffers queue numbers device none
kvm_started = record {
  context = (start codec flatbuffers queue kvm_timer kvm_context).1;
  strong = 1;
}

abbrev kvm_stopped : KvmWorld codec flatbuffers queue numbers device none
kvm_stopped = record {
  context = record kvm_started.context {
    timer_context =
        Kvm.stop numbers device kvm_started.context.timer_context.0
          kvm_started.context.timer_context.1;
  };
  strong = 1;
}

stop_frees_early_example :
    (kvm_stopped.strong ≡ 1)
    × (kvm_stopped.context.timer_context.0.references ≡ 0)
    × ((dst : ℕ) (msg : List ℕ)
        → Early.calls codec flatbuffers queue numbers device none 7 kvm_stopped (Call.sends dst msg)
          ≡ none)
    × (Early.calls codec flatbuffers queue numbers device none 7 kvm_stopped Call.fires ≡ none)
    × (Early.calls codec flatbuffers queue numbers device none 7 kvm_stopped Call.cleans ≡ none)
unfolding exec start stop recv read_prefixed_size read_exact allocate allocate_buffer allocate_from
    recv_into decode new_deliver_packet new_goto_deadline goto_of deref deref_mut Bytes.new
    Bytes.get Bytes.get_mut Bytes.reset Kvm.start Kvm.set_next_deadline Kvm.stop
stop_frees_early_example =
    stop_frees_early codec flatbuffers queue numbers device none 7 (λ i. false) 0 kvm_context
      {w = kvm_started} {v = kvm_stopped} refl refl refl
