-- ===== src/Tests/Calls.antt =====
-- The C interface at concrete inputs.
use tansiv.Base.{◌≡◌, ◌≤◌, ◌<◌, ◌⊎◌, inr, refl, some, none, [], ◌∷◌}
use tansiv.Base.Int.{pos, ◌+ℤ◌, ◌-ℤ◌}
use tansiv.BufferPool.{deref}
use tansiv.BufferPool.Bytes
use tansiv.Context.Application.{deserialize}
use tansiv.CApi.{emsgsize, RecvArgs, offset_to_timespec, seconds, vsg_send, vsg_recv}
use tansiv.CApi.Laws.{offset_to_timespec_lem, SendCode, vsg_send_codes, Given, vsg_recv_lem}
use tansiv.OutputMsgSet.Listing.{fill-IsSettled, new-IsSettled}
use tansiv.OutputMsgSet.{new}
use tansiv.Timer.Qemu
use tansiv.Tests.Fixtures.{codec, flatbuffers, queue, vm_timer}
use tansiv.Tests.Contexts.{Msg, message, context, waiting, packet}

offset_to_timespec_lem_example :
    seconds (pos 2) +ℤ (pos 2_000_000_005 -ℤ seconds (pos 2)) ≡ pos 2_000_000_005
unfolding offset_to_timespec
offset_to_timespec_lem_example = offset_to_timespec_lem (λ o. pos 2) (pos 2_000_000_005)

vsg_send_codes_example :
    SendCode codec flatbuffers queue vm_timer 2 none
      (vsg_send codec flatbuffers queue vm_timer (some context) 12 2 none).0
unfolding Qemu.simulation_now ◌-ℤ◌
vsg_send_codes_example =
    vsg_send_codes codec flatbuffers queue vm_timer context 130 12 2 none
      (fill-IsSettled (new Msg 2) 1 (message 0 90) (new-IsSettled 2)) refl

abbrev arguments : RecvArgs
arguments = record { psrc = some 0; pdst = none; msglen = some 3; msg = some (0 ∷ 0 ∷ 0 ∷ []) }

vsg_recv_lem_example :
    let r = vsg_recv codec flatbuffers queue vm_timer (some waiting) arguments in
    ((2 ≤ 3) × Given codec flatbuffers queue vm_timer arguments packet r)
    ⊎ ((3 < 2) × (r.0 ≡ emsgsize) × (r.1 ≡ arguments))
unfolding deserialize deref Bytes.get
vsg_recv_lem_example =
    vsg_recv_lem codec flatbuffers queue vm_timer waiting arguments refl refl (inr refl)
