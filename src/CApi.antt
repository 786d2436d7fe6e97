-- ===== src/CApi.antt =====
-- capi/src/lib.rs: the C interface. A pointer is an `Option` of what it points to; a C function's
-- result is a name of its `errno` code. Panics are kept apart, as in the rest of the library.
pub mod Laws
pub mod Lifetime
pub mod Compare
use tansiv.Base.{
  ℕ, zero, suc, ◌+◌, ◌*◌, ◌≡◌, Bool, true, false, ◌&&◌, not, Option, none, some, List, [], ◌∷◌,
  ◌==◌, is_some, if◌then◌else◌, length, take, Result, ok, err, panicked,
}
use tansiv.Base.Int.{ℤ, pos, negsuc, ◌-ℤ◌, neg}
use tansiv.Error.{
  Error, already_started, no_memory_available, no_message_available, protocol_violation,
  size_too_big,
}
use tansiv.Duration.{nanos_per_sec}
use tansiv.BufferPool.Builders.{Flatbuffers}
use tansiv.InputQueue.{ArrayQueue}
use tansiv.Connector.{Codec, Handle}
use tansiv.Timer.Interface.{Timer}
use tansiv.Context.{Context}
use tansiv.Context.Application.{
  Packet, Chrono, Timeval, send, recv, poll, start, stop, gettimeofday,
}

pub data Code : Type 0 where
  success einval ealready enomem eproto emsgsize eio eagain panics : Code

-- A command-line argument, as its bytes.
abbrev pub Arg : Type 0
Arg = List ℕ

abbrev pub same_arg : Arg → Arg → Bool
same_arg [] [] = true
same_arg [] (y ∷ ys) = false
same_arg (x ∷ xs) [] = false
same_arg (x ∷ xs) (y ∷ ys) = x == y && same_arg xs ys

-- "--"
abbrev pub dashes : Arg
dashes = 45 ∷ 45 ∷ []

-- The iterator that `filter_map` makes: the arguments it has not looked at, the index of the first of
-- them, and `next_arg`, which its closure sets.
pub record Args : Type 0 where
  pub left : List Arg
  pub i : ℕ
  pub next_arg : Option ℕ

abbrev pub seen : Option ℕ → ℕ → Arg → Option ℕ
seen next_arg i a = if not (is_some next_arg) && same_arg a dashes then some (i + 1) else next_arg

-- `next` of the iterator: behind "--" it goes through all the arguments and gives none of them.
unfoldable pub next_from : List Arg → ℕ → Option ℕ → Option Arg × Args
next_from [] i next_arg = (none, record { left = []; i = i; next_arg = next_arg })
next_from (a ∷ left) i next_arg =
    let found = seen next_arg i a in
    let rest = next_from left (i + 1) found in
    if is_some found then rest else (some a, record { left = left; i = i + 1; next_arg = found })

-- What a caller meets that takes arguments until there are none: at most `fuel` of them.
unfoldable pub collect : ℕ → Args → List Arg × Args
unfolding next_from
collect zero s = ([], s)
collect (suc fuel) s =
    let (a, s') = next_from s.left s.i s.next_arg in
    let (rest, end) = collect fuel s' in elim a [ none ↦ ([], s') | some x ↦ (x ∷ rest, end) ]

abbrev pub or_else : Option ℕ → ℕ → ℕ
or_else none n = n
or_else (some m) n = m

-- `parse` takes its arguments to the end. As many turns as there are arguments, and one, are enough.
unfoldable pub parse_os_args {ℓ} :
    {T : Type ℓ} → List Arg → (List Arg → Result Error T) → Result Error (T × ℕ)
unfolding collect
parse_os_args argv parse =
    let (args, end) =
      collect (suc (length argv)) (record { left = argv; i = 0; next_arg = none }) in
    elim (parse args) [
      | ok r ↦ ok (r, or_else end.next_arg (length argv))
      | err e ↦ err e
      | panicked ↦ panicked
    ]

-- What the caller's `next_arg_p` points to is written where the pointer is not null.
unfoldable pub vsg_init {ℓ} :
    {C : Type ℓ}
    → (List Arg → Result Error C)
    → List Arg
    → Option ℕ
    → Result Error (Option C × Option ℕ)
unfolding parse_os_args
vsg_init init argv next_arg_p = elim (parse_os_args argv init) [
  | ok (context, next_arg) ↦
      ok (some context, elim next_arg_p [ some old ↦ some next_arg | none ↦ none ])
  | err e ↦ ok (none, next_arg_p)
  | panicked ↦ panicked
]

pub record Timespec : Type 0 where
  pub tv_sec : ℤ
  pub tv_nsec : ℤ

-- `chrono::Duration::seconds`, in nanoseconds.
abbrev pub seconds : ℤ → ℤ
seconds (pos n) = pos (n * nanos_per_sec)
seconds (negsuc n) = neg (pos (suc n * nanos_per_sec))

-- `num_seconds` is that of `chrono::Duration`.
unfoldable pub offset_to_timespec : (ℤ → ℤ) → ℤ → Timespec
offset_to_timespec num_seconds o = record {
  tv_sec = num_seconds o;
  tv_nsec = o -ℤ seconds (num_seconds o);
}

unfoldable pub start_code : Error → Code
start_code already_started = ealready
start_code no_memory_available = enomem
start_code no_message_available = eio
start_code protocol_violation = eproto
start_code Error.size_too_big = emsgsize
start_code (Error.io_error e) = eio

unfoldable pub send_code : Error → Code
send_code already_started = eio
send_code no_memory_available = enomem
send_code no_message_available = eio
send_code protocol_violation = eio
send_code Error.size_too_big = emsgsize
send_code (Error.io_error e) = eio

unfoldable pub recv_code : Error → Code
recv_code already_started = eio
recv_code no_memory_available = eio
recv_code no_message_available = eagain
recv_code protocol_violation = eio
recv_code Error.size_too_big = emsgsize
recv_code (Error.io_error e) = eio

-- The caller's pointers of `vsg_recv`: what they point to.
pub record RecvArgs : Type 0 where
  pub psrc : Option ℕ
  pub pdst : Option ℕ
  pub msglen : Option ℕ
  pub msg : Option (List ℕ)

-- A write through a pointer that may be null.
abbrev pub store {ℓ} : {A : Type ℓ} → Option A → A → Option A
store none a = none
store (some old) a = some a

-- The payload overwrites the first bytes of the caller's memory.
abbrev pub store_bytes : List ℕ → List ℕ → List ℕ
store_bytes p [] = p
store_bytes [] (b ∷ bs) = b ∷ bs
store_bytes (x ∷ p) (b ∷ bs) = x ∷ store_bytes p bs

abbrev pub store_payload : Option (List ℕ) → List ℕ → Option (List ℕ)
store_payload none p = none
store_payload (some memory) p = some (store_bytes p memory)

-- The length that the caller gives, 0 where `msglen` is null.
abbrev pub recv_len : Option ℕ → ℕ
recv_len none = 0
recv_len (some n) = n

module _ (codec : Codec) (F : Flatbuffers) (aq : ArrayQueue Handle) (tm : Timer) where
  abbrev Ctx : Type 0
  Ctx = Context codec F aq tm

  unfoldable pub vsg_start :
      (ℤ → ℤ) → Option Ctx → Option Timespec → Code × Option Timespec × Option Ctx
  unfolding start_code offset_to_timespec
  vsg_start num_seconds none offset = (einval, offset, none)
  vsg_start num_seconds (some c) offset =
      let (result, c') = start codec F aq tm c in
      elim result [
        | ok o ↦ (success, store offset (offset_to_timespec num_seconds o), some c')
        | err e ↦ (start_code e, offset, some c')
        | panicked ↦ (panics, offset, some c')
      ]

  -- The call with the payload found.
  unfoldable pub send_payload : Ctx → ℕ → List ℕ → Code × Option Ctx
  unfolding send_code
  send_payload c dst payload =
      let (result, c') = send codec F aq tm c dst payload in
      (elim result [ ok u ↦ success | err e ↦ send_code e | panicked ↦ panics ], some c')

  unfoldable pub vsg_send : Option Ctx → ℕ → ℕ → Option (List ℕ) → Code × Option Ctx
  unfolding send_payload
  vsg_send none dst msglen msg = (einval, none)
  vsg_send (some c) dst msglen msg =
      if msglen == 0
      then send_payload c dst []
      else elim msg [ none ↦ (einval, some c) | some m ↦ send_payload c dst (take msglen m) ]

  -- The call with the caller's memory found.
  unfoldable pub recv_payload : Ctx → ℕ → RecvArgs → Code × RecvArgs × Option Ctx
  unfolding recv_code
  recv_payload c len p =
      let (result, c') = recv codec F aq tm c len in
      elim result [
        | ok m ↦ (
          success,
          record {
            psrc = store p.psrc m.src;
            pdst = store p.pdst m.dst;
            msglen = store p.msglen (length m.payload);
            msg = store_payload p.msg m.payload;
          },
          some c',
        )
        | err e ↦ (recv_code e, p, some c')
        | panicked ↦ (panics, p, some c')
      ]

  unfoldable pub vsg_recv : Option Ctx → RecvArgs → Code × RecvArgs × Option Ctx
  unfolding recv_payload
  vsg_recv none p = (einval, p, none)
  vsg_recv (some c) p =
      if not (recv_len p.msglen == 0) && not (is_some p.msg)
      then (einval, p, some c)
      else recv_payload c (recv_len p.msglen) p

  unfoldable pub vsg_poll : Option Ctx → Code
  vsg_poll none = einval
  vsg_poll (some c) = elim (poll codec F aq tm c) [ some u ↦ success | none ↦ eagain ]

  -- The time is stored where the caller has given a place for it; the time zone is not used.
  unfoldable pub vsg_gettimeofday :
      Chrono → Option Ctx → Option Timeval → Code × Option Timeval × Option Ctx
  unfolding gettimeofday
  vsg_gettimeofday chrono none timeval = (einval, timeval, none)
  vsg_gettimeofday chrono (some c) none = (success, none, some c)
  vsg_gettimeofday chrono (some c) (some t) =
      let (now, c') = gettimeofday codec F aq tm chrono c in
      elim now [
        | ok v ↦ (success, some v, some c')
        | err e ↦ (panics, some t, some c')
        | panicked ↦ (panics, some t, some c')
      ]

  unfoldable pub vsg_stop : (ℕ → Bool) → ℕ → Option Ctx → Option (Code × Option Ctx)
  unfolding stop
  vsg_stop loads fuel none = some (einval, none)
  vsg_stop loads fuel (some c) = elim (stop codec F aq tm loads fuel c) [
    | none ↦ none
    | some c' ↦ some (success, some c')
  ]
