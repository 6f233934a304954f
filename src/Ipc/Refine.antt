-- ===== src/Ipc/Refine.antt =====
-- The endpoints of kernel/ipc/ipc.c show a table of bounded FIFOs to their clients.
use mathlib.Core.List.{map, map-append}
use tinyshell_os.Base.{
  ℕ, suc, ◌+◌, ◌%◌, ◌<◌, ◌≡◌, refl, sym, ap, ◌∙◌, inl, inr, ◌≢◌, true, Option, none, some, List, [],
  ◌∷◌, ◌++◌, arith, write, slice, slice-ext, length, each_lem, Bool-cases, add32, sub32, word_mod,
  Slots, window, window-mod, window-write, length-window, ltb, leb, if◌then◌else◌,
}
use tinyshell_os.Ipc.{
  Message, EndpointState, Endpoints, queue_depth, max_endpoints, payload_max, copy_in, copy_out,
  deliver,
}
use tinyshell_os.Ipc.Bounds.{IsBounded}
use tinyshell_os.Ipc.Fifo.{Packet, Channel, Table, post}

abbrev pub packet : Message → Packet
packet m = record {
  sender = m.sender;
  type = m.type;
  size = m.length;
  bytes = slice m.payload 0 payload_max;
}

-- What the receiver of `m` will read: the declared bytes, then zeros.
abbrev pub posted : Message → Packet
posted m = record {
  sender = m.sender;
  type = m.type;
  size = m.length;
  bytes = slice (λ i. if ltb i m.length then m.payload i else 0) 0 payload_max;
}

packet-copy_in : (m d : Message) → packet (copy_in m d) ≡ posted m
unfolding copy_in
packet-copy_in m d =
    ap (λ b. record { sender = m.sender; type = m.type; size = m.length; bytes = b })
      (slice-ext (copy_in m d).payload (λ i. if ltb i m.length then m.payload i else 0) 0
        payload_max
        λ j h. ground (
          arith,
          each_lem payload_max (λ i _. if ltb i m.length then m.payload i else 0) d.payload (0 + j),
        ))

pub packet-copy_out : (source buffer : Message) → packet (copy_out source buffer) ≡ packet source
unfolding copy_out
packet-copy_out m b =
    ap (λ b. record { sender = m.sender; type = m.type; size = m.length; bytes = b })
      (slice-ext (copy_out m b).payload m.payload 0 payload_max
        λ j h. ground (arith, each_lem payload_max (λ i _. m.payload i) b.payload (0 + j)))

-- Eight slots divide the sequence numbers, so the queue survives their wrap.
pub slots_wrap : (s k : ℕ) → (s % word_mod + k) % queue_depth ≡ (s + k) % queue_depth
slots_wrap s k = omega arith

pub slots_apart : (s j : ℕ) → j < queue_depth → 0 < j → (s + j) % queue_depth ≢ s % queue_depth
slots_apart s j lt pos = omega arith

pub slots_in_range : (s : ℕ) → s % queue_depth < queue_depth
slots_in_range s = omega arith

abbrev pub slots : Slots
slots = record {
  index = λ s. s % queue_depth;
  depth = queue_depth;
  wrap = slots_wrap;
  apart = slots_apart;
  in_range = slots_in_range;
}

abbrev pub count : EndpointState → ℕ
count state = sub32 state.write_sequence state.read_sequence

abbrev pub messages : EndpointState → List Message
messages state = window slots state.queue state.read_sequence (count state)

abbrev pub channel : EndpointState → Channel
channel state = record { waiting = map packet (messages state); rejected = state.rejected_messages }

length-map : (ms : List Message) → length (map packet ms) ≡ length ms
length-map [] = refl
length-map (m ∷ ms) = ap suc (length-map ms)

pub length-waiting : (state : EndpointState) → length (channel state).waiting ≡ count state
length-waiting state =
    length-map (messages state) ∙ length-window slots state.queue state.read_sequence (count state)

-- The window after a message is written behind the pending ones.
messages-write :
    (m : Message) (state : EndpointState)
    → IsBounded state
    → count state < queue_depth
    → window slots
        (write state.queue (state.write_sequence % queue_depth) m)
        state.read_sequence
        (sub32 (add32 state.write_sequence 1) state.read_sequence)
      ≡ messages state ++ (m ∷ [])
messages-write m state v room =
    rw one_more
      (window-write slots state.queue m state.read_sequence (count state) _ room (omega arith))
  where
    one_more : sub32 (add32 state.write_sequence 1) state.read_sequence ≡ suc (count state)
    one_more = omega arith

waiting-write :
    (m : Message) (state : EndpointState)
    → IsBounded state
    → count state < queue_depth
    → let slot = state.write_sequence % queue_depth in
      map packet (
        window slots
          (write state.queue slot (copy_in m (state.queue slot)))
          state.read_sequence
          (sub32 (add32 state.write_sequence 1) state.read_sequence))
      ≡ (channel state).waiting ++ (posted m ∷ [])
waiting-write m state v room =
    let sent = copy_in m (state.queue (state.write_sequence % queue_depth)) in
    ap (map packet) (messages-write sent state v room)
    ∙ map-append packet (messages state) (sent ∷ [])
    ∙ ap (λ p. (channel state).waiting ++ (p ∷ [])) (packet-copy_in m _)

pub deliver-post :
    (m : Message) (state : EndpointState)
    → IsBounded state
    → ((deliver m state).0 ≡ (post queue_depth (posted m) (channel state)).0)
      × (channel (deliver m state).1 ≡ (post queue_depth (posted m) (channel state)).1)
      × ((deliver m state).1.allocated ≡ state.allocated)
unfolding deliver post
deliver-post m state v = elim (Bool-cases (leb queue_depth (count state))) [
  | inl full ↦ rw (length-waiting state, full) (refl, refl, refl)
  | inr room ↦
      rw (length-waiting state, room)
        (
          refl,
          ap (λ w. record { waiting = w; rejected = state.rejected_messages })
              (waiting-write m state v (ground arith)),
          refl,
        )
]

-- Taking the oldest message off an endpoint that holds one.
pub messages-take :
    (state : EndpointState)
    → IsBounded state
    → state.read_sequence ≢ state.write_sequence
    → messages state
      ≡ state.queue (state.read_sequence % queue_depth)
        ∷ messages (record state { read_sequence = add32 state.read_sequence 1 })
messages-take state v some_left =
    let n = sub32 state.write_sequence (add32 state.read_sequence 1) in
    let e : count state ≡ suc n = omega arith in
    rw e (
      ap (λ ms. state.queue (state.read_sequence % queue_depth) ∷ ms)
        (sym (window-mod slots state.queue state.read_sequence n)))

pub messages-none :
    (state : EndpointState)
    → IsBounded state
    → state.read_sequence ≡ state.write_sequence
    → messages state ≡ []
messages-none state v e = let z : count state ≡ 0 = omega arith in rw z

-- What the table shows of an endpoint.
abbrev pub view : EndpointState → Option Channel
view state = if state.allocated then some (channel state) else none

abbrev pub Shows : Endpoints → Table → Type 0
Shows s t = (e : ℕ) → e < max_endpoints → view (s e) ≡ t e

pub view-open : (state : EndpointState) → state.allocated ≡ true → view state ≡ some (channel state)
view-open state h = ground arith
