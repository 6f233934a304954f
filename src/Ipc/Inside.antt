-- ===== src/Ipc/Inside.antt =====
-- The writes of kernel/ipc/ipc.c lie inside of its arrays: what a bigger index than theirs would
-- lead to keeps its value.
use tinyshell_os.Base.{
  ℕ, ◌%◌, ◌≤◌, ◌<◌, ◌≡◌, refl, ap, sym, ◌∙◌, inl, inr, true, false, Option, none, some, arith,
  write, each_lem, subst, find_first, find_first-some, Option-cases, Bool-cases, not, ◌||◌, sub32,
  ltb, leb, ◌==◌, if◌then◌else◌,
}
use tinyshell_os.Ipc.{
  Message, EndpointState, Endpoints, queue_depth, max_endpoints, payload_max, message_clear,
  copy_in, endpoint_reset, init, create, deliver, send, receive, endpoint_is_valid,
}
use tinyshell_os.Ipc.Calls.{Call, creates, sends, receives, asks_pending, asks_rejected, step}

pub record Kept (before after : EndpointState) : Type 0 where
  pub slots : (k : ℕ) → 8 ≤ k → after.queue k ≡ before.queue k
  pub bytes : (k i : ℕ) → 32 ≤ i → (after.queue k).payload i ≡ (before.queue k).payload i

pub record IsInside (before after : Endpoints) : Type 0 where
  pub endpoints : (e : ℕ) → 8 ≤ e → after e ≡ before e
  pub queues : (e : ℕ) → Kept (before e) (after e)

Kept-refl : (a : EndpointState) → Kept a a
Kept-refl a = record { slots = λ k le. refl; bytes = λ k i le. refl }

Kept-trans : (a b c : EndpointState) → Kept a b → Kept b c → Kept a c
Kept-trans a b c h h' = record {
  slots = λ k le. h'.slots k le ∙ h.slots k le;
  bytes = λ k i le. h'.bytes k i le ∙ h.bytes k i le;
}

pub IsInside-refl : (s : Endpoints) → IsInside s s
IsInside-refl s = record { endpoints = λ e le. refl; queues = λ e. Kept-refl (s e) }

pub IsInside-trans : (s t u : Endpoints) → IsInside s t → IsInside t u → IsInside s u
IsInside-trans s t u h h' = record {
  endpoints = λ e le. h'.endpoints e le ∙ h.endpoints e le;
  queues = λ e. Kept-trans (s e) (t e) (u e) (h.queues e) (h'.queues e);
}

write-IsInside :
    (s : Endpoints) (e : ℕ) (state : EndpointState)
    → e < 8
    → Kept (s e) state
    → IsInside s (write s e state)
write-IsInside s e state lt h = record {
  endpoints = λ j le. ground arith;
  queues = λ j. elim (Bool-cases (j == e)) [
    | inl same ↦
        let q : j ≡ e = ground arith in
        rw q (let here : (e == e) ≡ true = ground arith in rw here h)
    | inr other ↦ rw other (Kept-refl (s j))
  ];
}

cleared-payload : (m : Message) (i : ℕ) → 32 ≤ i → (message_clear m).payload i ≡ m.payload i
unfolding message_clear
cleared-payload m i le = each_lem payload_max (λ _ _. 0) m.payload i ∙ ground arith

endpoint_reset-Kept : (state : EndpointState) → Kept state (endpoint_reset state)
unfolding endpoint_reset
endpoint_reset-Kept state =
    let at = each_lem queue_depth (λ _ m. message_clear m) state.queue in
    record {
      slots = λ k le. at k ∙ ground arith;
      bytes = λ k i le. elim (Bool-cases (ltb k queue_depth)) [
        | inl low ↦
            let e : (endpoint_reset state).queue k ≡ message_clear (state.queue k) =
              at k ∙ rw low refl in
            ap (λ (m : Message). m.payload i) e ∙ cleared-payload (state.queue k) i le
        | inr high ↦
            let e : (endpoint_reset state).queue k ≡ state.queue k = at k ∙ rw high refl in
            ap (λ (m : Message). m.payload i) e
      ];
    }

pub init-IsInside : (s : Endpoints) → IsInside s (init s)
unfolding init
init-IsInside s =
    let at = each_lem max_endpoints (λ _ state. endpoint_reset state) s in
    record {
      endpoints = λ e le. at e ∙ ground arith;
      queues = λ e. elim (Bool-cases (ltb e max_endpoints)) [
        | inl low ↦
            let q : endpoint_reset (s e) ≡ init s e = sym (at e ∙ rw low refl) in
            subst (Kept (s e)) q (endpoint_reset-Kept (s e))
        | inr high ↦
            let q : s e ≡ init s e = sym (at e ∙ rw high refl) in
            subst (Kept (s e)) q (Kept-refl (s e))
      ];
    }

copied-payload : (m d : Message) (i : ℕ) → 32 ≤ i → (copy_in m d).payload i ≡ d.payload i
unfolding copy_in
copied-payload m d i le =
    each_lem payload_max (λ i _. if ltb i m.length then m.payload i else 0) d.payload i
    ∙ ground arith

deliver-Kept : (m : Message) (state : EndpointState) → Kept state (deliver m state).1
unfolding deliver
deliver-Kept m state =
    elim (Bool-cases (leb queue_depth (sub32 state.write_sequence state.read_sequence))) [
      | inl full ↦ rw full (record { slots = λ k le. refl; bytes = λ k i le. refl })
      | inr room ↦ rw room (
          let slot = state.write_sequence % queue_depth in
          record {
            slots = λ k le. let other : (k == slot) ≡ false = ground arith in rw other refl;
            bytes = λ k i le. elim (Bool-cases (k == slot)) [
              | inl here ↦
                  let q : k ≡ slot = ground arith in
                  rw here (
                    copied-payload m (state.queue slot) i le
                    ∙ ap (λ j. (state.queue j).payload i) (sym q))
              | inr other ↦ rw other refl
            ];
          })
    ]

-- An endpoint whose queue stays as it is
same_queue : (a b : EndpointState) → b.queue ≡ a.queue → Kept a b
same_queue a b e = record {
  slots = λ k le. ap (λ q. q k) e;
  bytes = λ k i le. ap (λ q. (q k).payload i) e;
}

create-IsInside : (s : Endpoints) → IsInside s (create s).1
unfolding create
create-IsInside s = elim (Option-cases (find_first (λ e. not (s e).allocated) max_endpoints 0)) [
  | inl none_free ↦ rw (none_free, create) (IsInside-refl s)
  | inr (k, e) ↦
      let (_, lt, _) = find_first-some (λ e. not (s e).allocated) max_endpoints 0 k e in
      rw (e, create) (write-IsInside s k _ lt (same_queue (s k) _ refl))
]

send-IsInside : (e : ℕ) (m : Option Message) (s : Endpoints) → IsInside s (send e m s).1
unfolding send endpoint_is_valid
send-IsInside e none s = IsInside-refl s
send-IsInside e (some m) s =
    elim (Bool-cases (not (endpoint_is_valid s e) || ltb payload_max m.length)) [
      | inl bad ↦ rw bad (IsInside-refl s)
      | inr good ↦
          rw good (write-IsInside s e (deliver m (s e)).1 (ground arith) (deliver-Kept m (s e)))
    ]

receive-IsInside :
    (e : ℕ) (buffer : Option Message) (s : Endpoints) → IsInside s (receive e buffer s).2
unfolding receive endpoint_is_valid
receive-IsInside e none s = IsInside-refl s
receive-IsInside e (some buffer) s =
    elim (Bool-cases
      (not (endpoint_is_valid s e) || ((s e).read_sequence == (s e).write_sequence))) [
        | inl bad ↦ rw bad (IsInside-refl s)
        | inr good ↦ rw good (write-IsInside s e _ (ground arith) (same_queue (s e) _ refl))
      ]

pub step-IsInside : (s : Endpoints) (c : Call) → IsInside s (step s c).1
unfolding step
step-IsInside s creates = create-IsInside s
step-IsInside s (sends e m) = send-IsInside e m s
step-IsInside s (receives e buffer) = receive-IsInside e buffer s
step-IsInside s (asks_pending e) = IsInside-refl s
step-IsInside s (asks_rejected e) = IsInside-refl s
