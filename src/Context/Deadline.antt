-- ===== src/Context/Deadline.antt =====
-- What `at_deadline` writes to the actor (lib.rs).
use tansiv.Base.{
  ℕ, ◌≤◌, ◌<◌, ◌≡◌, refl, ap, ◌∙◌, sym, true, List, [], ◌∷◌, ◌++◌, map, arith, ltb, leb,
  if◌then◌else◌, Bool-cases, ◌⊎◌, inl, inr, Option-cases, All,
}
use mathlib.Core.List.{append_assoc, append-nil}
use tansiv.Duration.{as_secs, subsec_nanos}
use tansiv.BufferPool.Builders.{Flatbuffers}
use tansiv.OutputMsgSet.{OutputMsgSet, drain}
use tansiv.OutputMsgSet.Listing.{pending, IsSettled}
use tansiv.OutputMsgSet.Drain.{each, drain_lem}
use tansiv.InputQueue.{ArrayQueue}
use tansiv.Connector.{Codec, Handle}
use tansiv.Connector.Send.{Frame, Writer, finish, send}
use tansiv.Timer.Interface.{Timer}
use tansiv.Context.{Context, OutputMsg, send_packet, send_outgoing, send_upcoming, send_phase}

module _ (codec : Codec) (F : Flatbuffers) (aq : ArrayQueue Handle) (tm : Timer) where
  abbrev Ctx : Type 0
  Ctx = Context codec F aq tm

  abbrev Msg : Type 0
  Msg = OutputMsg codec F aq tm

  abbrev pub sent : Ctx → List Frame
  sent c = c.writer.sent

  -- The frame of a message that is sent at a time.
  abbrev pub frame_at : Msg → ℕ → Frame
  frame_at m t = Frame.send_packet m.src m.dst (as_secs t) (subsec_nanos t) m.payload

  -- The time at which a message of the slice is sent.
  abbrev pub stamp : ℕ → Msg → ℕ
  stamp previous m = if ltb m.send_time previous then previous else m.send_time

  send_packet_ok :
      (m : Msg) (t : ℕ) (c : Ctx)
      → (send_packet codec F aq tm m t c).1 ≡ true
      → let c' = (send_packet codec F aq tm m t c).0 in
        (sent c' ≡ sent c ++ frame_at m t ∷ [])
        × (c'.upcoming_messages ≡ c.upcoming_messages)
        × (c'.outgoing_messages ≡ c.outgoing_messages)
  unfolding send_packet send finish
  send_packet_ok m t c h = ground arith

  send_outgoing_ok :
      (previous current : ℕ) (m : Msg) (c : Ctx)
      → (send_outgoing codec F aq tm previous current m c).1 ≡ true
      → let c' = (send_outgoing codec F aq tm previous current m c).0 in
        (sent c' ≡ sent c ++ frame_at m (stamp previous m) ∷ [])
        × (c'.upcoming_messages ≡ c.upcoming_messages)
        × ((m.send_time < previous) ⊎ (m.send_time ≤ current))
  unfolding send_outgoing
  send_outgoing_ok previous current m c h =
      ground (arith, send_packet_ok m previous c, send_packet_ok m m.send_time c)

  -- The frames of the messages that are sent, each with its time.
  abbrev pub frames : (Msg → ℕ) → List Msg → List Frame
  frames time ms = map (λ m. frame_at m (time m)) ms

  -- The first messages of a list, as long as they are due, and those behind them.
  abbrev pub due : ℕ → List Msg → List Msg
  due current [] = []
  due current (m ∷ ms) = if leb m.send_time current then m ∷ due current ms else []

  abbrev pub not_due : ℕ → List Msg → List Msg
  not_due current [] = []
  not_due current (m ∷ ms) = if leb m.send_time current then not_due current ms else m ∷ ms

  one_more :
      (before : List Frame) (f : Frame) (rest : List Frame) {mid after : List Frame}
      → mid ≡ before ++ f ∷ []
      → after ≡ mid ++ rest
      → after ≡ before ++ f ∷ rest
  one_more before f rest p q = q ∙ ap (λ l. l ++ rest) p ∙ append_assoc before (f ∷ []) rest

  -- What a run of the loop over the drained messages leaves.
  pub record Slice (previous current : ℕ) (ms : List Msg) (c c' : Ctx) : Type 0 where
    pub written : sent c' ≡ sent c ++ frames (stamp previous) ms
    pub kept_back : c'.upcoming_messages ≡ c.upcoming_messages
    pub in_slice : All (λ m. (m.send_time < previous) ⊎ (m.send_time ≤ current)) ms

  each-Slice :
      (previous current : ℕ) (ms : List Msg) (c : Ctx)
      → (each (send_outgoing codec F aq tm previous current) ms c).0 ≡ true
      → let (go, left, c') = each (send_outgoing codec F aq tm previous current) ms c in
        (left ≡ []) × Slice previous current ms c c'
  each-Slice previous current [] c h =
      (refl, record { written = sym (append-nil (sent c)); kept_back = refl; in_slice = tt })
  each-Slice previous current (m ∷ ms) c h =
      elim (Bool-cases (send_outgoing codec F aq tm previous current m c).1) [
        | inr stop ↦ cc (rw (stop, each) at h)
        | inl go ↦
            let (w, k, b) = send_outgoing_ok previous current m c go in
            let c₁ : Ctx = (send_outgoing codec F aq tm previous current m c).0 in
            let (left, rest) = each-Slice previous current ms c₁ (rw (go, each) at h) in
            rw (go, each)
              (
                left,
                record {
                  written = one_more (sent c) (frame_at m (stamp previous m)) _ w rest.written;
                  kept_back = rest.kept_back ∙ k;
                  in_slice = (b, rest.in_slice);
                },
              )
      ]

  -- What a run of the loop over the upcoming messages leaves: those that are due are written.
  pub record Upcoming (current : ℕ) (ms : List Msg) (c c' : Ctx) : Type 0 where
    pub written : sent c' ≡ sent c ++ frames (λ m. m.send_time) (due current ms)
    pub later : c'.upcoming_messages ≡ not_due current ms
    pub outgoing : c'.outgoing_messages ≡ c.outgoing_messages

  send_upcoming-Upcoming :
      (current : ℕ) (ms : List Msg) (c : Ctx)
      → (send_upcoming codec F aq tm current ms c).0 ≡ true
      → Upcoming current ms c (send_upcoming codec F aq tm current ms c).1
  unfolding send_upcoming
  send_upcoming-Upcoming current [] c h = record {
    written = sym (append-nil (sent c));
    later = refl;
    outgoing = refl;
  }
  send_upcoming-Upcoming current (m ∷ ms) c h = elim (Bool-cases (leb m.send_time current)) [
    | inr late ↦ record {
      written = rw late (sym (append-nil (sent c)));
      later = rw late refl;
      outgoing = rw late refl;
    }
    | inl in_time ↦
        let c₀ : Ctx = record c { upcoming_messages = ms } in
        elim (Bool-cases (send_packet codec F aq tm m m.send_time c₀).1) [
          | inr stop ↦ cc (rw (in_time, stop) at h)
          | inl go ↦
              let (w, k, o) = send_packet_ok m m.send_time c₀ go in
              let c₁ : Ctx = (send_packet codec F aq tm m m.send_time c₀).0 in
              let rest = send_upcoming-Upcoming current ms c₁ (rw (in_time, go) at h) in
              rw (in_time, go)
                (record {
                  written =
                      rw in_time (one_more (sent c) (frame_at m m.send_time) _ w rest.written);
                  later = rw in_time rest.later;
                  outgoing = rest.outgoing ∙ o;
                })
        ]
  ]

  -- What the sending part of a deadline leaves when it succeeds: the messages of the slice, then the
  -- upcoming messages that are due, then the end of the slice; and no message of the slice is left.
  pub record Sent (previous current : ℕ) (c c' : Ctx) : Type 0 where
    pub written :
        sent c'
        ≡ sent c
          ++ (frames (stamp previous) (pending c.outgoing_messages)
              ++ (frames (λ m. m.send_time) (due current c.upcoming_messages)
                  ++ Frame.at_deadline ∷ []))
    pub emptied : pending c'.outgoing_messages ≡ []
    pub settled : IsSettled c'.outgoing_messages
    pub later : c'.upcoming_messages ≡ not_due current c.upcoming_messages
    pub in_slice :
        All (λ m. (m.send_time < previous) ⊎ (m.send_time ≤ current)) (pending c.outgoing_messages)

  -- The end of the slice is written behind the two runs.
  closing :
      (previous current : ℕ) (c c₁ c₂ : Ctx) (set : OutputMsgSet Msg) (w : Writer)
      → Slice previous current (pending c.outgoing_messages) c c₁
      → pending set ≡ []
      → IsSettled set
      → Upcoming current c₁.upcoming_messages (record c₁ { outgoing_messages = set }) c₂
      → w.sent ≡ sent c₂ ++ Frame.at_deadline ∷ []
      → Sent previous current c (record c₂ { writer = w })
  closing previous current c c₁ c₂ set w s e v u h =
      let ms = pending c.outgoing_messages in
      let ups : c₁.upcoming_messages ≡ c.upcoming_messages = s.kept_back in
      let later_frames = frames (λ m. m.send_time) (due current c.upcoming_messages) in
      let written₂ : sent c₂ ≡ (sent c ++ frames (stamp previous) ms) ++ later_frames =
        rw (← ups, ← s.written) u.written in
      record {
        written =
            h
            ∙ ap (λ l. l ++ Frame.at_deadline ∷ []) written₂
            ∙ append_assoc (sent c ++ frames (stamp previous) ms) later_frames
                (Frame.at_deadline ∷ [])
            ∙ append_assoc (sent c) (frames (stamp previous) ms)
                (later_frames ++ Frame.at_deadline ∷ []);
        emptied = rw u.outgoing e;
        settled = rw u.outgoing v;
        later = u.later ∙ ap (not_due current) ups;
        in_slice = s.in_slice;
      }

  -- When the sending part of a deadline succeeds, from a settled set of messages, the actor is sent every
  -- message of the slice in the order of its slot, none stamped after the current deadline unless before
  -- the previous one, and stamped at or after the previous deadline; then the upcoming messages up to the
  -- first that is not due; then the end of the slice. The set of messages is left empty and settled.
  pub send_phase-Sent :
      (previous current : ℕ) (c : Ctx)
      → IsSettled c.outgoing_messages
      → (send_phase codec F aq tm previous current c).0 ≡ true
      → Sent previous current c (send_phase codec F aq tm previous current c).1
  unfolding send_phase send
  send_phase-Sent previous current c v h =
      let body = send_outgoing codec F aq tm previous current in
      let ms = pending c.outgoing_messages in
      let r = drain body c.outgoing_messages c in
      let d = drain_lem body c.outgoing_messages c v in
      let drained : Ctx = record r.2 { outgoing_messages = r.1 } in
      elim (Bool-cases r.0) [
        | inr stop ↦ cc (rw (send_phase, stop) at h)
        | inl go ↦
            let (left, s) = each-Slice previous current ms c (ap (λ x. x.0) (sym d.outcome) ∙ go) in
            let u = send_upcoming codec F aq tm current drained.upcoming_messages drained in
            elim (Bool-cases u.0) [
              | inr stop ↦ cc (rw (send_phase, go, stop) at h)
              | inl go' ↦ elim (Option-cases (u.1.writer.outcome u.1.writer.attempts)) [
                | inr (e, failed) ↦ cc (rw (send_phase, go, go', send, failed) at h)
                | inl fine ↦
                    let empty : pending r.1 ≡ [] = ap (λ x. x.1) d.outcome ∙ left in
                    let run : Slice previous current ms c r.2 = rw (ap (λ x. x.2) d.outcome) s in
                    rw (send_phase, go, go', send, fine)
                      (closing previous current c r.2 u.1 r.1 _ run empty d.settled
                        (send_upcoming-Upcoming current r.2.upcoming_messages drained go') refl)
              ]
            ]
      ]
