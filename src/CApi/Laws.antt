-- ===== src/CApi/Laws.antt =====
-- What the C interface returns (capi/src/lib.rs).
use tansiv.Base.{
  ℕ, zero, suc, ◌+◌, ◌≤◌, ◌<◌, ◌≡◌, refl, ap, ◌==◌, true, false, ◌&&◌, not, Option, none, some,
  List, [], ◌∷◌, arith, is_some, if◌then◌else◌, Bool-cases, ◌⊎◌, inl, inr, length, take, Result, ok,
  err, panicked,
}
use tansiv.Base.Int.{ℤ, ◌+ℤ◌, int_laws, eq_of_parts}
use tansiv.Error.{Error}
use tansiv.BufferPool.Builders.{Flatbuffers}
use tansiv.InputQueue.{ArrayQueue}
use tansiv.Connector.{Codec, Handle}
use tansiv.OutputMsgSet.Listing.{IsSettled}
use tansiv.Timer.Interface.{Timer}
use tansiv.Context.{Context}
use tansiv.Context.Application.{Packet, deserialize, send}
use tansiv.Context.Sending.{Outcome}
use tansiv.Context.Reading.{recv-Taken}
use tansiv.CApi.{
  Arg, same_arg, dashes, next_from, collect, parse_os_args, Code, success, einval, enomem, emsgsize,
  seconds, offset_to_timespec, send_code, send_payload, vsg_send, recv_len, RecvArgs, recv_payload,
  vsg_recv, store, store_payload, recv_code, or_else,
}
use tansiv.Context.Sending

-- The arguments in front of the first "--", and the index behind it, or that of the end.
abbrev pub before_dashes : List Arg → List Arg
before_dashes [] = []
before_dashes (a ∷ rest) = if same_arg a dashes then [] else a ∷ before_dashes rest

abbrev pub behind_dashes : List Arg → ℕ → ℕ
behind_dashes [] i = i
behind_dashes (a ∷ rest) i = if same_arg a dashes then i + 1 else behind_dashes rest (i + 1)

-- Once "--" is found, the arguments behind it are gone through and none is given.
next_from_found :
    (argv : List Arg) (i n : ℕ)
    → (next_from argv i (some n)).0 ≡ none × ((next_from argv i (some n)).1.next_arg ≡ some n)
unfolding next_from
next_from_found [] i n = (refl, refl)
next_from_found (a ∷ rest) i n = next_from_found rest (i + 1) n

collect_lem :
    (fuel : ℕ) (argv : List Arg) (i total : ℕ)
    → length argv < fuel
    → total ≡ i + length argv
    → let (args, end) = collect fuel (record { left = argv; i = i; next_arg = none }) in
      (args ≡ before_dashes argv) × (or_else end.next_arg total ≡ behind_dashes argv i)
unfolding collect
collect_lem zero argv i total lt e = absurd (omega arith)
collect_lem (suc fuel) [] i total lt e = (refl, omega (arith, e))
collect_lem (suc fuel) (a ∷ rest) i total lt e = elim (Bool-cases (same_arg a dashes)) [
  | inl found ↦
      let (p, q) = next_from_found rest (i + 1) (i + 1) in
      rw (collect, next_from, found, p) (refl, rw (next_from, found, q) refl)
  | inr other ↦
      let (p, q) = collect_lem fuel rest (i + 1) total (omega arith) (omega (arith, e)) in
      rw (collect, next_from, other)
        (rw (next_from, other) (ap (λ l. a ∷ l) p), rw (next_from, other) q)
]

-- `parse` is given the arguments in front of the first "--", or all, and `next_arg` is the index of the
-- argument behind it, or the number of arguments. It holds where `parse` succeeds.
pub parse_os_args_lem {ℓ} :
    {T : Type ℓ} (argv : List Arg) (parse : List Arg → Result Error T) {r : T}
    → parse (before_dashes argv) ≡ ok r
    → parse_os_args argv parse ≡ ok (r, behind_dashes argv 0)
unfolding parse_os_args
parse_os_args_lem argv parse {r} h =
    let (p, q) = collect_lem (suc (length argv)) argv 0 (length argv) (omega arith) (omega arith) in
    rw (parse_os_args, p, h) (ap (λ n. ok (r, n)) q)

-- The timespec that `vsg_start` gives stands for the offset, whatever rounding `num_seconds` does.
pub offset_to_timespec_lem :
    (num_seconds : ℤ → ℤ) (o : ℤ)
    → let t = offset_to_timespec num_seconds o in seconds t.tv_sec +ℤ t.tv_nsec ≡ o
unfolding offset_to_timespec
offset_to_timespec_lem num_seconds o = eq_of_parts _ _ (omega int_laws)

module _ (codec : Codec) (F : Flatbuffers) (aq : ArrayQueue Handle) (tm : Timer) where
  abbrev Ctx : Type 0
  Ctx = Context codec F aq tm

  -- The codes that the documentation of `vsg_send` lists.
  abbrev pub SendCode : ℕ → Option (List ℕ) → Code → Type 0
  SendCode msglen msg k =
      (k ≡ success) ⊎ (k ≡ enomem) ⊎ (k ≡ emsgsize) ⊎ ((k ≡ einval) × (msg ≡ none) × (0 < msglen))

  send_payload_code :
      (c : Ctx) (t dst msglen : ℕ) (msg : Option (List ℕ)) (payload : List ℕ)
      → IsSettled c.outgoing_messages
      → (tm.simulation_now c.timer_context).0 ≡ ok t
      → SendCode msglen msg (send_payload codec F aq tm c dst payload).0
  unfolding send_payload send_code
  send_payload_code c t dst msglen msg payload v p =
      go (send codec F aq tm c dst payload) refl
        (Sending.send-Outcome codec F aq tm c t dst payload v p)
    where
      go :
          (r : Result Error (Unit {0}) × Ctx)
          → send codec F aq tm c dst payload ≡ r
          → Outcome codec F aq tm c t dst payload (send codec F aq tm c dst payload)
          → SendCode msglen msg (send_payload codec F aq tm c dst payload).0
      go (ok u, c') e o = rw (send_payload, e) (inl refl)
      go (err x, c') e o =
          let r : Sending.Refused codec F aq tm c x c' = rw e at o in
          elim r.reason [
            | inl m ↦ rw (send_payload, e, m) (inr (inl refl))
            | inr m ↦ rw (send_payload, e, m) (inr (inr (inl refl)))
          ]
      go (panicked, c') e o = absurd (rw e at o)

  -- `vsg_send` on a context returns one of its documented codes: success, ENOMEM or EMSGSIZE, or EINVAL
  -- and then only if `msg` is null and `msglen` is not 0. It never falls back to EIO or panics, as long
  -- as the timer tells the time and the set of messages is settled.
  pub vsg_send_codes :
      (c : Ctx) (t dst msglen : ℕ) (msg : Option (List ℕ))
      → IsSettled c.outgoing_messages
      → (tm.simulation_now c.timer_context).0 ≡ ok t
      → SendCode msglen msg (vsg_send codec F aq tm (some c) dst msglen msg).0
  unfolding vsg_send
  vsg_send_codes c t dst msglen msg v p = elim (Bool-cases (msglen == 0)) [
    | inl nil ↦ rw (vsg_send, nil) (send_payload_code c t dst msglen msg [] v p)
    | inr more ↦ pointed msg more
  ]
    where
      pointed :
          (msg : Option (List ℕ))
          → (msglen == 0) ≡ false
          → SendCode msglen msg (vsg_send codec F aq tm (some c) dst msglen msg).0
      pointed none more = rw (vsg_send, more) (inr (inr (inr (refl, refl, ground arith))))
      pointed (some m) more =
          rw (vsg_send, more) (send_payload_code c t dst msglen (some m) (take msglen m) v p)

  -- What `vsg_recv` gives for a packet.
  pub record Given (args : RecvArgs) (p : Packet) (r : Code × RecvArgs × Option Ctx) : Type 0 where
    pub code_success : r.0 ≡ success
    pub psrc : r.1.psrc ≡ store args.psrc p.src
    pub pdst : r.1.pdst ≡ store args.pdst p.dst
    pub msglen : r.1.msglen ≡ store args.msglen (length p.payload)
    pub msg : r.1.msg ≡ store_payload args.msg p.payload

  -- `vsg_recv` with the first packet of the queue and a place for `*msglen` bytes, none if `msglen` is
  -- null: a payload that fits is stored, with its length and the addresses where the caller has
  -- asked for them; one that does not fit gives EMSGSIZE and nothing is stored.
  pub vsg_recv_lem :
      (c : Ctx) (args : RecvArgs) {d : Handle} {rest : List Handle} {p : Packet}
      → aq.items c.input_queue ≡ d ∷ rest
      → deserialize codec c.input_buffer_pool d ≡ some p
      → ((recv_len args.msglen ≡ 0) ⊎ (is_some args.msg ≡ true))
      → let r = vsg_recv codec F aq tm (some c) args in
        ((length p.payload ≤ recv_len args.msglen) × Given args p r)
        ⊎ ((recv_len args.msglen < length p.payload) × (r.0 ≡ emsgsize) × (r.1 ≡ args))
  unfolding vsg_recv recv_payload recv_code
  vsg_recv_lem c args {d} {rest} {p} e f ptr =
      let t = recv-Taken codec F aq tm c (recv_len args.msglen) e f in
      let valid : (not (recv_len args.msglen == 0) && not (is_some args.msg)) ≡ false =
        ground arith in
      elim t.result [
        | inl (fits, q) ↦ inl (
          fits,
          rw (vsg_recv, valid, recv_payload, q)
              (record { code_success = refl; psrc = refl; pdst = refl; msglen = refl; msg = refl }),
        )
        | inr (big, q) ↦ inr (
          big,
          rw (vsg_recv, valid, recv_payload, q) refl,
          rw (vsg_recv, valid, recv_payload, q) refl,
        )
      ]
