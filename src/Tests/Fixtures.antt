-- ===== src/Tests/Fixtures.antt =====
-- The parameters of the library as concrete functions.
use tansiv.Base.{ℕ, zero, suc, ◌+◌, ◌/◌, ◌%◌, true, Option, none, some, List, [], ◌∷◌}
use tansiv.Base.Int.{ℤ, pos, ◌+ℤ◌}
use tansiv.BufferPool.Builders.{Flatbuffers}
use tansiv.Connector.{Codec, FromTansivMsg}
use tansiv.Duration.{nanos_per_sec}
use tansiv.InputQueue.{ArrayQueue}
use tansiv.InputQueue.Laws.{bounded}
use tansiv.Connector.{Handle}
use tansiv.LibcTimer.{Sys, timespec_zero}
use tansiv.Timer.Interface.{Timer}
use tansiv.Timer.Interface
use tansiv.Timer.Kvm.{Float, Device}
use tansiv.Timer.Qemu.{Qemu}

-- A message is its type and, for a packet, the payload.
abbrev root : List ℕ → Option FromTansivMsg
root [] = none
root (zero ∷ payload) = some (
    FromTansivMsg.deliver_packet
      (some (record { metadata = some (record { src = 11; dst = 12 }); payload = some payload })))
root (suc zero ∷ payload) = some (
    FromTansivMsg.goto_deadline
      (some (record { time = some (record { seconds = 3; nseconds = 500 }) })))
root (suc (suc n) ∷ payload) = some FromTansivMsg.end_simulation

abbrev read_scalar : List ℕ → ℕ
read_scalar [] = 0
read_scalar (b ∷ bs) = b

abbrev pub codec : Codec
codec = record { root = root; read_scalar = read_scalar }

abbrev pub flatbuffers : Flatbuffers
flatbuffers = record { Builder = ℕ; init = λ size. size; reset = λ b. 0 }

abbrev pub queue : ArrayQueue Handle
queue = bounded Handle

-- A clock that stands at the number of its state.
abbrev pub sys : Sys
sys = record {
  Kernel = ℕ;
  Timer = ℕ;
  Sigevent = ℕ;
  null_timer = 0;
  constants = record { clock = λ c. 1; timer_abstime = 1 };
  clock_gettime =
      λ c k. (0, record { tv_sec = pos (k / nanos_per_sec); tv_nsec = pos (k % nanos_per_sec) }, k);
  timer_create = λ c s k. (0, 1, k);
  timer_delete = λ t k. k;
  timer_settime =
      λ t f spec k. (0, record { it_interval = timespec_zero; it_value = timespec_zero }, k);
}

-- The local clock, 1000 before the other.
abbrev pub local_now : ℕ → ℤ × ℕ
local_now k = (pos 1000 +ℤ pos k, k)

abbrev pub vm : Qemu
vm = record {
  Host = ℕ;
  qemu_clock_get_ns = λ h. (pos h, h);
  timer_init_full = λ h. h;
  timer_mod = λ t h. h;
  timer_del = λ h. h;
  timer_deinit = λ h. h;
}

abbrev pub vm_timer : Timer
vm_timer = Interface.qemu vm ℕ

abbrev pub numbers : Float
numbers = record {
  F = ℕ;
  zero = 0;
  one = 1;
  of_u64 = λ n. n;
  of_i64 = λ z. 1;
  to_u64 = λ n. n % 18446744073709551616;
  mul = λ a b. a;
  div = λ a b. a;
  giga = 1;
}

abbrev pub device : Device
device = record {
  State = ℕ;
  rdtsc = λ k. (k, k);
  tsc_offset = λ k. 5;
  ioctl_init_check = λ k. true;
  ioctl_register_deadline = λ d t k. (k + t, k);
  close_device = λ k. k;
}
