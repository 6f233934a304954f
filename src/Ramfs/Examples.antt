-- ===== src/Ramfs/Examples.antt =====
-- kernel/fs/ramfs.c on concrete calls.
use tinyshell_os.Base.{
  ℕ, zero, suc, ◌≡◌, ◌↔◌, refl, true, false, some, none, List, [], ◌∷◌, Array, get_elem?, length,
}
use tinyshell_os.Ramfs.{Slot, Ramfs, FileInfo, init}
use tinyshell_os.Ramfs.Names.{Name, name_is_valid, names_equal, name_max, check_name, names_agree}
use tinyshell_os.Ramfs.NameLaws.{text, names_equal_iff}
use tinyshell_os.Ramfs.Invariant.{IsValid}
use tinyshell_os.Ramfs.Calls.{Call, creates, writes, appends, reads, removes, counts, run, after}
use tinyshell_os.Ramfs.Model
use tinyshell_os.Ramfs.Run.{run-init-Model}
use tinyshell_os.Ramfs.Validate.{validate, validate_iff, validate-after-init}
use tinyshell_os.Ramfs.Listing.{get_info, live_slots, Tells, get_info-live_slots}

-- The memory that a list lies in, zeros behind it.
abbrev laid : List ℕ → Array ℕ
laid [] i = 0
laid (x ∷ xs) zero = x
laid (x ∷ xs) (suc i) = laid xs i

abbrev note : Name
note = laid (b'n' ∷ b'o' ∷ b't' ∷ b'e' ∷ [])

-- The same string with other bytes behind its end.
abbrev note_too : Name
note_too = laid (b'n' ∷ b'o' ∷ b't' ∷ b'e' ∷ 0 ∷ b'x' ∷ [])

abbrev bad : Name
bad = laid (b'a' ∷ b'/' ∷ [])

abbrev stale : Slot
stale = record { alive = true; name = note; content = λ i. i; length = 9 }

abbrev boot : Ramfs
boot = record { slots = λ _. stale; live_file_count = 7 }

abbrev script : List Call
script =
    creates (some note)
    ∷ creates (some note_too)
    ∷ creates (some bad)
    ∷ writes (some note_too) (some (laid (1 ∷ 2 ∷ []))) 2
    ∷ appends (some note) (some (laid (3 ∷ []))) 1
    ∷ reads (some note) (some (λ _. 9)) 5 (some 0)
    ∷ reads (some note) none 5 (some 0)
    ∷ appends (some note) (some (λ _. 9)) 510
    ∷ counts
    ∷ removes (some note)
    ∷ removes (some note)
    ∷ counts
    ∷ []

abbrev blank_info : FileInfo
blank_info = record { name = λ _. 0; size = 0 }

run-init-Model_example : run (init boot) script ≡ Model.run Model.empty script
run-init-Model_example = run-init-Model boot script

names_equal_iff_example : (names_equal note note_too ≡ true) ↔ (
    (t : List ℕ) × (text note (suc name_max) 0 ≡ some t)
    × (text note_too (suc name_max) 0 ≡ some t))
names_equal_iff_example = names_equal_iff note note_too

validate_iff_example : (validate (init boot) ≡ true) ↔ IsValid (init boot)
validate_iff_example = validate_iff (init boot)

validate-after-init_example : validate (after (init boot) script) ≡ true
validate-after-init_example = validate-after-init boot script

get_info-live_slots_example :
    let now = after (init boot) (creates (some note) ∷ []) in
    Tells blank_info (get_elem? (live_slots now) 0) (get_info 0 (some blank_info) now)
    × (length (live_slots now) ≡ now.live_file_count)
get_info-live_slots_example = get_info-live_slots boot (creates (some note) ∷ []) 0 blank_info

equal_notes : names_equal note note_too ≡ true
unfolding names_equal names_agree
equal_notes = refl

valid_note : (name_is_valid (some note) ≡ true) × (name_is_valid (some bad) ≡ false)
unfolding name_is_valid check_name
valid_note = (refl, refl)
