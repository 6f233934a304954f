-- ===== src/Keyboard/Decode.antt =====
-- Scan codes of kernel/arch/x86/keyboard.c as key events, and the modifier keys that they hold.
use tinyshell_os.Base.{
  ℕ, ◌-◌, ◌%◌, ◌<◌, ◌≡◌, refl, inl, inr, Bool, true, false, not, ◌||◌, Option, none, arith, ltb,
  ◌==◌, if◌then◌else◌, Bool-cases, ltb→lt,
}
use tinyshell_os.Keyboard.{Keyboard, feed_code, feed_scancode}
use tinyshell_os.Keyboard.Layout.{layout, push_key, feed_key-layout}

pub data Event : Type 0 where
  prefix : Event
  down : ℕ → Event
  up : ℕ → Event

unfoldable pub classify : ℕ → Event
classify scancode =
    if scancode == 0xE0
    then prefix
    else if ltb scancode 0x80
    then down scancode
    else up (scancode - 0x80)

pub record Modifiers : Type 0 where
  pub left : Bool
  pub right : Bool
  pub caps : Bool
  pub extended : Bool

abbrev pub held : Bool → ℕ → Modifiers → Modifiers
held b code m = record m {
  left = if code == 0x2A then b else m.left;
  right = if code == 0x36 then b else m.right;
}

abbrev pub toggled : ℕ → Modifiers → Modifiers
toggled code m = record m { caps = if code == 0x3A then not m.caps else m.caps }

-- The character that an event types, and the modifiers after it: the event behind a prefix is
-- ignored.
unfoldable pub decode : Event → Modifiers → Option ℕ × Modifiers
decode prefix m = (none, record m { extended = true })
decode (down code) m =
    if m.extended
    then (none, record m { extended = false })
    else (layout code (m.left || m.right) m.caps, held true code (toggled code m))
decode (up code) m =
    if m.extended then (none, record m { extended = false }) else (none, held false code m)

abbrev pub modifiers : Keyboard → Modifiers
modifiers k = record {
  left = k.left_shift_down;
  right = k.right_shift_down;
  caps = k.caps_lock_enabled;
  extended = k.extended_prefix_pending;
}

abbrev pub with_modifiers : Modifiers → Keyboard → Keyboard
with_modifiers m k = record k {
  left_shift_down = m.left;
  right_shift_down = m.right;
  caps_lock_enabled = m.caps;
  extended_prefix_pending = m.extended;
}

silent_key :
    (s c : Bool) → (layout 0x2A s c ≡ none) × (layout 0x36 s c ≡ none) × (layout 0x3A s c ≡ none)
unfolding layout
silent_key true true = (refl, refl, refl)
silent_key true false = (refl, refl, refl)
silent_key false true = (refl, refl, refl)
silent_key false false = (refl, refl, refl)

-- A released key: only the shift keys matter.
feed_code-up :
    (code : ℕ) (k : Keyboard)
    → feed_code true code k ≡ (false, with_modifiers (held false code (modifiers k)) k)
unfolding feed_code
feed_code-up code k = ground arith

layout-silent :
    (code key : ℕ) (s c : Bool) → layout key s c ≡ none → code ≡ key → layout code s c ≡ none
layout-silent code key s c h e = rw e h

-- A pressed key: the modifiers, or what the layout gives is pushed.
feed_code-down :
    (code : ℕ) (k : Keyboard)
    → code < 0x80
    → feed_code false code k
      ≡ push_key
          (layout code (k.left_shift_down || k.right_shift_down) k.caps_lock_enabled)
          (with_modifiers (held true code (toggled code (modifiers k))) k)
unfolding feed_code push_key
feed_code-down code k lt =
    let shifted = k.left_shift_down || k.right_shift_down in
    let caps = k.caps_lock_enabled in
    let (l, r, c) = silent_key shifted caps in
    elim (Bool-cases (code == 0x2A)) [
      | inl left ↦
          rw (layout-silent code 0x2A shifted caps l (ground arith), push_key) (ground arith)
      | inr e ↦ elim (Bool-cases (code == 0x36)) [
        | inl right ↦
            rw (layout-silent code 0x36 shifted caps r (ground arith), push_key) (ground arith)
        | inr e' ↦ elim (Bool-cases (code == 0x3A)) [
          | inl lock ↦
              rw (layout-silent code 0x3A shifted caps c (ground arith), push_key) (ground arith)
          | inr e'' ↦ rw (e, e', e'') (feed_key-layout code shifted k lt)
        ]
      ]
    ]

-- A scan code pushes what its event types, and leaves the modifiers of the event.
pub feed_scancode-decode :
    (scancode : ℕ) (k : Keyboard)
    → scancode < 256
    → let (typed, m) = decode (classify scancode) (modifiers k) in
      feed_scancode scancode k ≡ push_key typed (with_modifiers m k)
unfolding feed_scancode decode classify push_key
feed_scancode-decode scancode k lt = elim (Bool-cases (scancode == 0xE0)) [
  | inl e ↦ rw e
  | inr e ↦ elim (Bool-cases k.extended_prefix_pending) [
    | inl x ↦ rw (e, x) (ground arith)
    | inr x ↦ elim (Bool-cases (ltb scancode 0x80)) [
      | inl d ↦
          let n : scancode % 0x80 ≡ scancode = omega (arith, ltb→lt) in
          rw n (ground (arith, feed_code-down scancode k))
      | inr u ↦
          let n : scancode % 0x80 ≡ scancode - 0x80 = ground arith in
          rw n (ground (arith, feed_code-up (scancode - 0x80) k))
    ]
  ]
]
