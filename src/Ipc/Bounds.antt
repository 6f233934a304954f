-- ===== src/Ipc/Bounds.antt =====
-- The invariant of an IPC endpoint: its sequence numbers are words, at most eight apart, and its
-- slots hold messages of at most 32 payload bytes.
use tinyshell_os.Base.{
  ℕ, ◌≤◌, ◌<◌, ◌≡◌, true, Option, none, some, arith, write, each_lem, find_first, find_first-some,
  Option-cases, Bool-cases, inl, inr, not, ◌||◌, ◌≢◌, add32, sub32, word_mod, ltb, ◌==◌,
}
use tinyshell_os.Ipc.{
  Message, EndpointState, Endpoints, queue_depth, max_endpoints, payload_max, message_clear,
  copy_in, endpoint_reset, init, create, deliver, send, receive, endpoint_is_valid,
}

pub record IsBounded (state : EndpointState) : Type 0 where
  pub read_word : state.read_sequence < word_mod
  pub write_word : state.write_sequence < word_mod
  pub within : sub32 state.write_sequence state.read_sequence ≤ queue_depth
  pub short : (k : ℕ) → k < queue_depth → (state.queue k).length ≤ payload_max

abbrev pub AllBounded : Endpoints → Type 0
AllBounded s = (e : ℕ) → e < max_endpoints → IsBounded (s e)

endpoint_reset-IsBounded : (state : EndpointState) → IsBounded (endpoint_reset state)
unfolding endpoint_reset message_clear
endpoint_reset-IsBounded state = record {
  read_word = omega arith;
  write_word = omega arith;
  within = omega arith;
  short = λ k h. ground (arith, each_lem queue_depth (λ _ m. message_clear m) state.queue k);
}

pub init-AllBounded : (s : Endpoints) → AllBounded (init s)
unfolding init
init-AllBounded s e h = ground (
  arith,
  each_lem max_endpoints (λ _ state. endpoint_reset state) s e,
  endpoint_reset-IsBounded (s e),
)

pub deliver-IsBounded :
    (m : Message) {state : EndpointState}
    → m.length ≤ payload_max
    → IsBounded state
    → IsBounded (deliver m state).1
unfolding deliver copy_in
deliver-IsBounded m {state} fits v = record {
  read_word = ground arith;
  write_word = ground arith;
  within = ground arith;
  short = λ k h. ground (arith, v.short k h);
}

write-AllBounded :
    {s : Endpoints} (e : ℕ) {state : EndpointState}
    → AllBounded s
    → IsBounded state
    → AllBounded (write s e state)
write-AllBounded {s} e {state} all v j h = elim (Bool-cases (j == e)) [
  | inl same ↦ rw same v
  | inr other ↦ rw other (all j h)
]

pub create-AllBounded : {s : Endpoints} → AllBounded s → AllBounded (create s).1
unfolding create
create-AllBounded {s} all =
    elim (Option-cases (find_first (λ e. not (s e).allocated) max_endpoints 0)) [
      | inl e ↦ rw (e, create) all
      | inr (k, e) ↦ rw (e, create) (write-AllBounded k all (fresh k e))
    ]
  where
    fresh :
        (k : ℕ)
        → find_first (λ e. not (s e).allocated) max_endpoints 0 ≡ some k
        → IsBounded (record (s k) {
          allocated = true;
          read_sequence = 0;
          write_sequence = 0;
          rejected_messages = 0;
        })
    fresh k e =
        let (_, lt, _) = find_first-some (λ e. not (s e).allocated) max_endpoints 0 k e in
        record {
          read_word = omega arith;
          write_word = omega arith;
          within = omega arith;
          short = (all k (omega arith)).short;
        }

pub send-AllBounded :
    (e : ℕ) (m : Option Message) {s : Endpoints} → AllBounded s → AllBounded (send e m s).1
unfolding send endpoint_is_valid
send-AllBounded e none all = all
send-AllBounded e (some m) {s} all =
    elim (Bool-cases (not (endpoint_is_valid s e) || ltb payload_max m.length)) [
      | inl bad ↦ rw bad all
      | inr good ↦
          rw good
            (write-AllBounded e all (deliver-IsBounded m (ground arith) (all e (ground arith))))
    ]

pub receive-AllBounded :
    (e : ℕ) (buffer : Option Message) {s : Endpoints}
    → AllBounded s
    → AllBounded (receive e buffer s).2
unfolding receive endpoint_is_valid
receive-AllBounded e none all = all
receive-AllBounded e (some buffer) {s} all =
    elim (Bool-cases
      (not (endpoint_is_valid s e) || ((s e).read_sequence == (s e).write_sequence))) [
        | inl bad ↦ rw bad all
        | inr good ↦
            rw good (write-AllBounded e all (advance (all e (ground arith)) (ground arith)))
      ]
  where
    advance :
        IsBounded (s e)
        → (s e).read_sequence ≢ (s e).write_sequence
        → IsBounded (record (s e) { read_sequence = add32 (s e).read_sequence 1 })
    advance v ne = record {
      read_word = omega arith;
      write_word = v.write_word;
      within = omega arith;
      short = v.short;
    }
