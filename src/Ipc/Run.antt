-- ===== src/Ipc/Run.antt =====
-- No client of kernel/ipc/ipc.c can tell the endpoints from a table of bounded FIFOs.
use mathlib.Core.Option as Opt
use tinyshell_os.Base.{
  ℕ, ◌+◌, ◌≤◌, ◌<◌, ◌≡◌, refl, ap, ap₂, ◌∙◌, inl, inr, not, true, false, Option, none, some, List,
  [], ◌∷◌, arith, write, each_lem, find_first, find_first-congr, Option-cases, Bool-cases, add32,
  ltb, ◌==◌,
}
use tinyshell_os.Ipc.{
  Message, EndpointState, Endpoints, max_endpoints, payload_max, endpoint_reset, init, create,
  deliver, send, receive, endpoint_is_valid, pending, rejected_count,
}
use tinyshell_os.Ipc.Bounds.{
  AllBounded, create-AllBounded, send-AllBounded, receive-AllBounded, init-AllBounded,
}
use tinyshell_os.Ipc.Fifo.{Channel, Table, is_closed, open_first}
use tinyshell_os.Ipc.Refine.{
  view-open, packet, view, channel, Shows, deliver-post, messages-take, messages-none,
  length-waiting, packet-copy_out,
}
use tinyshell_os.Ipc.Calls.{
  Call, creates, sends, receives, asks_pending, asks_rejected, created, sent, received, counted,
  step, run,
}
use tinyshell_os.Ipc.Channels
use tinyshell_os.Ipc.Inside.{IsInside, IsInside-refl, IsInside-trans, init-IsInside, step-IsInside}

-- Writes on both sides keep the relation, if the new entries agree.
Shows-write :
    (s : Endpoints) (t : Table) (e : ℕ) (state : EndpointState) (c : Option Channel)
    → Shows s t
    → view state ≡ c
    → Shows (write s e state) (write t e c)
Shows-write s t e state c sh h j lt = elim (Bool-cases (j == e)) [
  | inl same ↦ rw same h
  | inr other ↦ rw other (sh j lt)
]

create_agrees :
    (s : Endpoints) (t : Table)
    → Shows s t
    → ((create s).0 ≡ (open_first max_endpoints t).0)
      × Shows (create s).1 (open_first max_endpoints t).1
unfolding create open_first
create_agrees s t sh =
    rw (same_slot, create, open_first)
      (elim (Option-cases (find_first (λ e. is_closed (t e)) max_endpoints 0)) [
        | inl e ↦ rw (e, open_first) (refl, sh)
        | inr (k, e) ↦ rw (e, open_first) (refl, Shows-write s t k _ _ sh refl)
      ])
  where
    same_test : (j : ℕ) → 0 ≤ j → j < 0 + max_endpoints → not (s j).allocated ≡ is_closed (t j)
    same_test j lo hi = ground (arith, sh j)

    same_slot :
        find_first (λ e. not (s e).allocated) max_endpoints 0
        ≡ find_first (λ e. is_closed (t e)) max_endpoints 0
    same_slot = find_first-congr _ _ max_endpoints 0 same_test

-- A valid endpoint is an open channel of the table, any other is closed.
at_valid :
    (s : Endpoints) (t : Table) (e : ℕ)
    → Shows s t
    → endpoint_is_valid s e ≡ true
    → (e < max_endpoints) × ((s e).allocated ≡ true) × (Channels.at t e ≡ some (channel (s e)))
unfolding endpoint_is_valid
at_valid s t e sh h = ground (arith, sh e)

at_invalid :
    (s : Endpoints) (t : Table) (e : ℕ)
    → Shows s t
    → endpoint_is_valid s e ≡ false
    → Channels.at t e ≡ none
unfolding endpoint_is_valid
at_invalid s t e sh h = ground (arith, sh e)

send_agrees :
    (s : Endpoints) (t : Table) (e : ℕ) (m : Option Message)
    → AllBounded s
    → Shows s t
    → ((send e m s).0 ≡ (Channels.send e m t).0) × Shows (send e m s).1 (Channels.send e m t).1
unfolding send Channels.send
send_agrees s t e none all sh = (refl, sh)
send_agrees s t e (some m) all sh = elim (Bool-cases (endpoint_is_valid s e)) [
  | inr bad ↦ rw (bad, at_invalid s t e sh bad, Channels.post_at) (refl, sh)
  | inl good ↦
      let (lt, al, at_e) = at_valid s t e sh good in
      rw (good, at_e, Channels.post_at)
        (elim (Bool-cases (ltb payload_max m.length)) [
          | inl long ↦ rw long (refl, sh)
          | inr short ↦
              let (same_reply, same_channel, still) = deliver-post m (s e) (all e lt) in
              rw short (
                same_reply,
                Shows-write s t e _ _ sh
                    (view-open (deliver m (s e)).1 (still ∙ al) ∙ ap some same_channel),
              )
        ])
]

receive_agrees :
    (s : Endpoints) (t : Table) (e : ℕ) (buffer : Message)
    → AllBounded s
    → Shows s t
    → let (b, out, s') = receive e (some buffer) s in
      let (b', p, t') = Channels.receive_at e buffer t (Channels.at t e) in
      (b ≡ b') × (Opt.map packet out ≡ some p) × Shows s' t'
unfolding receive Channels.receive_at
receive_agrees s t e buffer all sh = elim (Bool-cases (endpoint_is_valid s e)) [
  | inr bad ↦ rw (bad, at_invalid s t e sh bad, Channels.receive_at) (refl, refl, sh)
  | inl good ↦
      let (lt, al, at_e) = at_valid s t e sh good in
      elim (Bool-cases ((s e).read_sequence == (s e).write_sequence)) [
        | inl drained ↦
            rw
              (
                good,
                at_e,
                drained,
                Channels.receive_at,
                messages-none (s e) (all e lt) (ground arith),
                Channels.fetch_at,
              )
              (refl, refl, sh)
        | inr some_left ↦
            rw
              (
                good,
                at_e,
                some_left,
                Channels.receive_at,
                messages-take (s e) (all e lt) (ground arith),
                Channels.fetch_at,
                packet-copy_out,
              )
              (
                refl,
                refl,
                Shows-write s t e _ _ sh
                    (view-open (record (s e) { read_sequence = add32 (s e).read_sequence 1 }) al),
              )
      ]
]

pending_agrees :
    (s : Endpoints) (t : Table) (e : ℕ)
    → Shows s t
    → pending e s ≡ Channels.waiting_at (Channels.at t e)
unfolding pending
pending_agrees s t e sh = elim (Bool-cases (endpoint_is_valid s e)) [
  | inr bad ↦ rw (bad, at_invalid s t e sh bad)
  | inl good ↦ rw (good, (at_valid s t e sh good).2, length-waiting (s e))
]

rejected_agrees :
    (s : Endpoints) (t : Table) (e : ℕ)
    → Shows s t
    → rejected_count e s ≡ Channels.rejected_at (Channels.at t e)
unfolding rejected_count
rejected_agrees s t e sh = elim (Bool-cases (endpoint_is_valid s e)) [
  | inr bad ↦ rw (bad, at_invalid s t e sh bad)
  | inl good ↦ rw (good, (at_valid s t e sh good).2)
]

-- One call: the same reply, and states that still show the same.
step_agrees :
    (s : Endpoints) (t : Table) (c : Call)
    → AllBounded s
    → Shows s t
    → ((step s c).0 ≡ (Channels.step t c).0) × Shows (step s c).1 (Channels.step t c).1
unfolding step Channels.step receive
step_agrees s t creates all sh = let (e, sh') = create_agrees s t sh in (ap created e, sh')
step_agrees s t (sends e m) all sh = let (b, sh') = send_agrees s t e m all sh in (ap sent b, sh')
step_agrees s t (receives e none) all sh = (refl, sh)
step_agrees s t (receives e (some buffer)) all sh =
    let (b, p, sh') = receive_agrees s t e buffer all sh in (ap₂ received b p, sh')
step_agrees s t (asks_pending e) all sh = (ap counted (pending_agrees s t e sh), sh)
step_agrees s t (asks_rejected e) all sh = (ap counted (rejected_agrees s t e sh), sh)

pub step-AllBounded : (s : Endpoints) (c : Call) → AllBounded s → AllBounded (step s c).1
unfolding step
step-AllBounded s creates all = create-AllBounded all
step-AllBounded s (sends e m) all = send-AllBounded e m all
step-AllBounded s (receives e buffer) all = receive-AllBounded e buffer all
step-AllBounded s (asks_pending e) all = all
step-AllBounded s (asks_rejected e) all = all

run_agrees :
    (s : Endpoints) (t : Table) (cs : List Call)
    → AllBounded s
    → Shows s t
    → run s cs ≡ Channels.run t cs
unfolding run Channels.run
run_agrees s t [] all sh = refl
run_agrees s t (c ∷ cs) all sh =
    let (r, sh') = step_agrees s t c all sh in
    ap₂ ◌∷◌ r (run_agrees (step s c).1 (Channels.step t c).1 cs (step-AllBounded s c all) sh')

abbrev pub all_closed : Table
all_closed e = none

init-Shows : (s : Endpoints) → Shows (init s) all_closed
unfolding init endpoint_reset
init-Shows s e h = ground (arith, each_lem max_endpoints (λ _ state. endpoint_reset state) s e)

-- After `ipc_init`, whatever the endpoints held before, every sequence of ipc_endpoint_create,
-- ipc_send, ipc_receive, ipc_pending and ipc_rejected_count calls gets the replies of a table of
-- eight channels, all closed at first: the first closed channel is opened, a packet that fits is
-- appended if fewer than eight wait and is otherwise refused and counted, the oldest packet comes
-- out first with the bytes behind its length zeroed, and a refused receive leaves the buffer.
pub run-init-Channels :
    (s : Endpoints) (cs : List Call) → run (init s) cs ≡ Channels.run all_closed cs
run-init-Channels s cs = run_agrees (init s) all_closed cs (init-AllBounded s) (init-Shows s)

-- The endpoints after a sequence of calls.
pub after : Endpoints → List Call → Endpoints
after s [] = s
after s (c ∷ cs) = after (step s c).1 cs

after-AllBounded : (s : Endpoints) (cs : List Call) → AllBounded s → AllBounded (after s cs)
unfolding after
after-AllBounded s [] all = all
after-AllBounded s (c ∷ cs) all = after-AllBounded (step s c).1 cs (step-AllBounded s c all)

after-IsInside : (s : Endpoints) (cs : List Call) → IsInside s (after s cs)
unfolding after
after-IsInside s [] = IsInside-refl s
after-IsInside s (c ∷ cs) =
    IsInside-trans s (step s c).1 (after s (c ∷ cs)) (step-IsInside s c)
      (after-IsInside (step s c).1 cs)

-- After `ipc_init` and any calls, the two sequence numbers of each of the eight endpoints are
-- 32-bit words at most eight apart, and each of its slots holds a message of at most 32 payload
-- bytes. No write was made past an array: what an index from 8 on leads to, of the endpoints or of
-- a queue, and what one from 32 on leads to, of a payload, is what it was before `ipc_init`.
pub after-init-AllBounded :
    (s : Endpoints) (cs : List Call)
    → AllBounded (after (init s) cs) × IsInside s (after (init s) cs)
after-init-AllBounded s cs = (
  after-AllBounded (init s) cs (init-AllBounded s),
  IsInside-trans s (init s) (after (init s) cs) (init-IsInside s) (after-IsInside (init s) cs),
)
