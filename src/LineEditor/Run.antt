-- ===== src/LineEditor/Run.antt =====
-- No caller of kernel/shell/line_editor.c can tell its editor from the abstract line.
use mathlib.Core.Option as Opt
use tinyshell_os.Base.{
  ℕ, suc, ◌+◌, ◌-◌, ◌<◌, ◌≡◌, refl, ◌∙◌, ap, ap₂, inl, inr, Bool-cases, Bool, true, false, not,
  ◌||◌, Option, none, some, arith, Array, List, [], ◌∷◌, ◌++◌, slice, slice-ext, slice-append,
  slice-eq-slice, length-slice, each, each_lem, ltb, leb,
}
use tinyshell_os.LineEditor.{
  line_max, Event, Editor, clear_line_buffer, feed_character, feed, take, init, overflow_count,
}
use tinyshell_os.LineEditor.Line.{Line, type_character, take_line}
use tinyshell_os.LineEditor.Refine.{IsTerminated, view, clear-IsTerminated, feed_character-Line}

pub data Call : Type 0 where
  feeds : ℕ → Call
  takes : ℕ → Option (Array ℕ) → Call
  asks_overflow : Call

-- Of a take the caller sees the first `capacity` bytes of its buffer.
pub data Reply : Type 0 where
  event : Event → Reply
  taken : Bool → Option (List ℕ) → Reply
  counted : ℕ → Reply

unfoldable pub step : Option Editor → Call → Reply × Option Editor
step e (feeds c) = let (r, e') = feed c e in (event r, e')
step e (takes capacity line) =
    let (done, e', out) = take capacity e line in
    (taken done (Opt.map (λ bytes. slice bytes 0 capacity) out), e')
step e asks_overflow = (counted (overflow_count e), e)

unfoldable pub run : Option Editor → List Call → List Reply
run e [] = []
run e (c ∷ cs) = let (r, e') = step e c in r ∷ run e' cs

unfoldable pub line_step : Line → Call → Reply × Line
line_step l (feeds c) = let (r, l') = type_character c l in (event r, l')
line_step l (takes capacity line) =
    let (done, out, l') = take_line capacity line l in (taken done out, l')
line_step l asks_overflow = (counted l.overflows, l)

unfoldable pub line_run : Line → List Call → List Reply
line_run l [] = []
line_run l (c ∷ cs) = let (r, l') = line_step l c in r ∷ line_run l' cs

taken_nul :
    (editor : Editor) (line : Array ℕ)
    → IsTerminated editor
    → each (suc editor.length) (λ i _. editor.buffer i) line (0 + editor.length) ≡ 0
taken_nul editor line v =
    let e : 0 + editor.length ≡ editor.length = omega arith in
    rw e (
      ground (
        arith,
        each_lem (suc editor.length) (λ i _. editor.buffer i) line editor.length,
        v.padded editor.length,
      ))

taken_behind :
    (editor : Editor) (line : Array ℕ) (m : ℕ)
    → slice (each (suc editor.length) (λ i _. editor.buffer i) line) (suc (0 + editor.length)) m
      ≡ slice line (editor.length + 1) m
taken_behind editor line m =
    let n = editor.length in
    slice-eq-slice (each (suc n) (λ i _. editor.buffer i) line) line (suc (0 + n)) (n + 1) m λ j lt.
      let e : suc (0 + n) + j ≡ n + 1 + j = omega arith in
      rw e (ground (arith, each_lem (suc n) (λ i _. editor.buffer i) line (n + 1 + j)))

-- The bytes that `shell_line_editor_take` leaves in the caller's buffer.
taken-slice :
    (editor : Editor) (line : Array ℕ) (capacity : ℕ)
    → IsTerminated editor
    → editor.length < capacity
    → slice (each (suc editor.length) (λ i _. editor.buffer i) line) 0 capacity
      ≡ slice editor.buffer 0 editor.length
        ++ (0 ∷ slice line (editor.length + 1) (capacity - (editor.length + 1)))
taken-slice editor line capacity v lt =
    let n = editor.length in
    let after = each (suc n) (λ i _. editor.buffer i) line in
    let e : capacity ≡ n + suc (capacity - (n + 1)) = omega arith in
    (ap (slice after 0) e
      ∙ slice-append after 0 n (suc (capacity - (n + 1)))
      ∙ ap₂ ◌++◌
          (slice-ext after editor.buffer 0 n
            λ j h. ground (arith, each_lem (suc n) (λ i _. editor.buffer i) line (0 + j)))
          (ap₂ ◌∷◌ (taken_nul editor line v) (taken_behind editor line (capacity - (n + 1)))))

-- One call: the same reply, and an editor that shows the next line.
record Steps (e : Editor) (c : Call) : Type 0 where
  next : Editor
  is_next : (step (some e) c).1 ≡ some next
  reply : (step (some e) c).0 ≡ (line_step (view e) c).0
  line : view next ≡ (line_step (view e) c).1
  terminated : IsTerminated next

feed-Steps : (e : Editor) (c : ℕ) → IsTerminated e → Steps e (feeds c)
unfolding step line_step feed type_character
feed-Steps e c v = elim (Bool-cases e.ready) [
  | inl waiting ↦ record {
    next = e;
    is_next = ground arith;
    reply = ground arith;
    line = ground arith;
    terminated = v;
  }
  | inr open_line ↦
      let (same_event, same_line, v') = feed_character-Line c e v in
      record {
        next = (feed_character c e).1;
        is_next = ground arith;
        reply = ground arith;
        line = ground arith;
        terminated = v';
      }
]

clear-view :
    (e : Editor) → view (clear_line_buffer e) ≡ record (view e) { typed = []; submitted = false }
unfolding clear_line_buffer
clear-view e = refl

take-Steps :
    (e : Editor) (capacity : ℕ) (line : Option (Array ℕ))
    → IsTerminated e
    → Steps e (takes capacity line)
unfolding step line_step take take_line
take-Steps e capacity none v = record {
  next = e;
  is_next = refl;
  reply = refl;
  line = refl;
  terminated = v;
}
take-Steps e capacity (some line) v =
    let size = length-slice e.buffer 0 e.length in
    let inside : ltb line_max e.length ≡ false = ground (arith, v.fits) in
    elim (Bool-cases (not e.ready || leb capacity e.length)) [
      | inl refused ↦ record {
        next = e;
        is_next = rw (inside, refused);
        reply = rw (inside, size, refused);
        line = rw (size, refused);
        terminated = v;
      }
      | inr granted ↦ record {
        next = clear_line_buffer e;
        is_next = rw (inside, granted);
        reply =
            rw (inside, size, granted)
              (ap (λ b. taken true (some b)) (taken-slice e line capacity v (ground arith)));
        line = rw (size, granted) (clear-view e);
        terminated = clear-IsTerminated e;
      }
    ]

steps : (e : Editor) (c : Call) → IsTerminated e → Steps e c
unfolding step line_step overflow_count
steps e (feeds c) v = feed-Steps e c v
steps e (takes capacity line) v = take-Steps e capacity line v
steps e asks_overflow v = record {
  next = e;
  is_next = refl;
  reply = refl;
  line = refl;
  terminated = v;
}

run_agrees : (e : Editor) (cs : List Call) → IsTerminated e → run (some e) cs ≡ line_run (view e) cs
unfolding run line_run
run_agrees e [] v = refl
run_agrees e (c ∷ cs) v =
    let s = steps e c v in
    ap₂ ◌∷◌ s.reply (
      ap (λ e. run e cs) s.is_next
      ∙ run_agrees s.next cs s.terminated
      ∙ ap (λ l. line_run l cs) s.line)

abbrev pub blank : Line
blank = record { typed = []; overflows = 0; submitted = false }

init-blank :
    (e : Editor) → init (some e) ≡ some (record (clear_line_buffer e) { overflow_count = 0 })
unfolding init
init-blank e = refl

-- After `shell_line_editor_init`, whatever the editor held before, every sequence of characters
-- fed, takes and queries of the overflow count gets the events, lines and counts of the abstract
-- line: printable characters are echoed and appended up to 127 and counted as overflow beyond,
-- backspace erases the last one, a line end submits the line, a submitted line takes no character
-- until it is taken, and a take of a submitted line into a large enough buffer delivers it with a
-- NUL, leaves the bytes behind it alone and opens an empty line, while any other changes nothing.
pub run-init-line : (e : Editor) (cs : List Call) → run (init (some e)) cs ≡ line_run blank cs
unfolding clear_line_buffer
run-init-line e cs =
    ap (λ e. run e cs) (init-blank e)
    ∙ run_agrees (record (clear_line_buffer e) { overflow_count = 0 }) cs
        (record { fits = (clear-IsTerminated e).fits; padded = (clear-IsTerminated e).padded })
