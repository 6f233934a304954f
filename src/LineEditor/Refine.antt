-- ===== src/LineEditor/Refine.antt =====
-- The buffer of kernel/shell/line_editor.c holds the abstract line, terminated and padded by NULs.
use tinyshell_os.Base.{
  ℕ, suc, ◌+◌, ◌-◌, ◌≤◌, ◌<◌, ◌≡◌, refl, ◌∙◌, ap, ap₂, sym, inl, inr, Bool-cases, Bool, ◌||◌, arith,
  List, [], ◌∷◌, ◌++◌, write, slice, slice-ext, slice-append, length, length-slice, each_lem, add32,
  leb, ◌==◌,
}
use tinyshell_os.LineEditor.{
  line_max, Editor, clear_line_buffer, put, erase, feed_character, backspace, newline,
  carriage_return, is_printable_ascii,
}
use tinyshell_os.LineEditor.Line.{Line, drop_last, is_empty, type_open}

pub record IsTerminated (editor : Editor) : Type 0 where
  pub fits : editor.length ≤ line_max
  pub padded : (k : ℕ) → editor.length ≤ k → k < suc line_max → editor.buffer k ≡ 0

abbrev pub view : Editor → Line
view editor = record {
  typed = slice editor.buffer 0 editor.length;
  overflows = editor.overflow_count;
  submitted = editor.ready;
}

pub clear-IsTerminated : (editor : Editor) → IsTerminated (clear_line_buffer editor)
unfolding clear_line_buffer
clear-IsTerminated editor = record {
  fits = omega arith;
  padded = λ k lo hi. ground (arith, each_lem (suc line_max) (λ _ _. 0) editor.buffer k);
}

pub put-IsTerminated :
    (c : ℕ) (editor : Editor)
    → IsTerminated editor
    → editor.length < line_max
    → IsTerminated (put c editor)
unfolding put
put-IsTerminated c editor v lt = record {
  fits = omega arith;
  padded = λ k lo hi. ground (arith, v.padded k);
}

pub erase-IsTerminated :
    (editor : Editor) → IsTerminated editor → 0 < editor.length → IsTerminated (erase editor)
unfolding erase
erase-IsTerminated editor v pos = record {
  fits = omega (arith, v.fits);
  padded = λ k lo hi. ground (arith, v.padded k);
}

put-typed :
    (c : ℕ) (editor : Editor)
    → editor.length < line_max
    → (view (put c editor)).typed ≡ (view editor).typed ++ (c ∷ [])
unfolding put
put-typed c editor lt =
    let n = editor.length in
    let e : add32 n 1 ≡ n + 1 = omega arith in
    let after = write (write editor.buffer n c) (add32 n 1) 0 in
    ap (slice after 0) e
    ∙ slice-append after 0 n 1
    ∙ ap₂ (λ a b. a ++ (b ∷ [])) (slice-ext after editor.buffer 0 n λ j lt'. ground arith)
        (ground arith)

drop_last-append : (xs : List ℕ) (x : ℕ) → drop_last (xs ++ (x ∷ [])) ≡ xs
drop_last-append [] x = refl
drop_last-append (y ∷ []) x = refl
drop_last-append (y ∷ z ∷ xs) x = ap (λ t. y ∷ t) (drop_last-append (z ∷ xs) x)

erase-typed :
    (editor : Editor)
    → 0 < editor.length
    → (view (erase editor)).typed ≡ drop_last (view editor).typed
unfolding erase
erase-typed editor pos =
    let n = editor.length - 1 in
    let e : editor.length ≡ n + 1 = omega arith in
    let after = write editor.buffer n 0 in
    slice-ext after editor.buffer 0 n (λ j lt. ground arith)
    ∙ sym (drop_last-append (slice editor.buffer 0 n) (editor.buffer (0 + n)))
    ∙ ap drop_last (sym (ap (slice editor.buffer 0) e ∙ slice-append editor.buffer 0 n 1))

is_empty-length : (xs : List ℕ) → is_empty xs ≡ (length xs == 0)
is_empty-length [] = refl
is_empty-length (x ∷ xs) = ground arith

-- Lines with the same parts.
line_ext :
    {t u : List ℕ} (o : ℕ) (b : Bool)
    → t ≡ u
    → (let l : Line = record { typed = t; overflows = o; submitted = b } in l)
      ≡ record { typed = u; overflows = o; submitted = b }
line_ext o b e = ap (λ t. record { typed = t; overflows = o; submitted = b }) e

put-view :
    (c : ℕ) (editor : Editor)
    → editor.length < line_max
    → view (put c editor) ≡ record (view editor) { typed = (view editor).typed ++ (c ∷ []) }
unfolding put
put-view c editor lt = line_ext editor.overflow_count editor.ready (put-typed c editor lt)

erase-view :
    (editor : Editor)
    → 0 < editor.length
    → view (erase editor) ≡ record (view editor) { typed = drop_last (view editor).typed }
unfolding erase
erase-view editor pos = line_ext editor.overflow_count editor.ready (erase-typed editor pos)

-- A character fed to an open line: the same event, the line typed on, the buffer still terminated.
pub feed_character-Line :
    (c : ℕ) (editor : Editor)
    → IsTerminated editor
    → ((feed_character c editor).0 ≡ (type_open c (view editor)).0)
      × (view (feed_character c editor).1 ≡ (type_open c (view editor)).1)
      × IsTerminated (feed_character c editor).1
unfolding feed_character type_open
feed_character-Line c editor v =
    let size = length-slice editor.buffer 0 editor.length in
    let blank = is_empty-length (view editor).typed in
    elim (Bool-cases (c == backspace)) [
      | inl back ↦ elim (Bool-cases (editor.length == 0)) [
        | inl empty ↦ rw (back, blank, size, empty) (refl, refl, v)
        | inr some_left ↦
            rw (back, blank, size, some_left)
              (refl, erase-view editor (ground arith), erase-IsTerminated editor v (ground arith))
      ]
      | inr other ↦ elim (Bool-cases ((c == newline) || (c == carriage_return))) [
        | inl enter ↦ rw (other, enter) (refl, refl, record { fits = v.fits; padded = v.padded })
        | inr text ↦ elim (Bool-cases (is_printable_ascii c)) [
          | inr odd ↦ rw (other, text, odd) (refl, refl, v)
          | inl plain ↦ elim (Bool-cases (leb line_max editor.length)) [
            | inl full ↦
                rw (other, text, plain, size, full)
                  (refl, refl, record { fits = v.fits; padded = v.padded })
            | inr room ↦
                rw (other, text, plain, size, room)
                  (
                    refl,
                    put-view c editor (ground arith),
                    put-IsTerminated c editor v (ground arith),
                  )
          ]
        ]
      ]
    ]
