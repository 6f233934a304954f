-- ===== src/Ramfs/Files.antt =====
-- What the files of kernel/fs/ramfs.c hold, by name, and how each kind of change of a slot shows.
use mathlib.Core.Option as Opt
use tinyshell_os.Base.{
  ℕ, ◌<◌, ◌≡◌, ◌≢◌, ◌∙◌, ap, sym, inl, inr, true, false, Option, none, some, arith, Array, List,
  write, slice, Bool-cases, Option-cases, ◌==◌, if◌then◌else◌,
}
use tinyshell_os.Ramfs.{Slot, Ramfs, max_files, find_slot}
use tinyshell_os.Ramfs.Names.{Name, names_equal}
use tinyshell_os.Ramfs.NameLaws.{names_equal_trans}
use tinyshell_os.Ramfs.Invariant.{IsValid}
use tinyshell_os.Ramfs.Lookup.{
  find_slot-some, find_slot-hit, find_slot-miss, find_slot-congr, find_slot-equal, find_slot-both,
}

abbrev pub contents : Slot → List ℕ
contents slot = slice slot.content 0 slot.length

-- The bytes of the file of that name.
pub lookup : Name → Ramfs → Option (List ℕ)
lookup name fs = Opt.map (λ k. contents (fs.slots k)) (find_slot name fs)

abbrev at_slot : Ramfs → ℕ → Slot → ℕ → Ramfs
at_slot fs k slot count = record { slots = write fs.slots k slot; live_file_count = count }

pub lookup-some :
    (o : Name) (fs : Ramfs) (k : ℕ)
    → find_slot o fs ≡ some k
    → lookup o fs ≡ some (contents (fs.slots k))
unfolding lookup
lookup-some o fs k h = rw h

pub lookup-none : (o : Name) (fs : Ramfs) → find_slot o fs ≡ none → lookup o fs ≡ none
unfolding lookup
lookup-none o fs h = rw h

write_self : (slots : Array Slot) (k : ℕ) (slot : Slot) → write slots k slot k ≡ slot
write_self slots k slot = let e : (k == k) ≡ true = ground arith in rw e

-- A slot that stays live under its name is found as before.
find_slot-replace :
    (fs : Ramfs) (k : ℕ) (slot : Slot) (count : ℕ) (o : Name)
    → (fs.slots k).alive ≡ true
    → slot.alive ≡ true
    → slot.name ≡ (fs.slots k).name
    → find_slot o (at_slot fs k slot count) ≡ find_slot o fs
find_slot-replace fs k slot count o a alive same_name =
    find_slot-congr o (at_slot fs k slot count) fs λ j lj. elim (Bool-cases (j == k)) [
      | inl e ↦
          let e' : j ≡ k = ground arith in
          rw e (rw e' (ground (arith, ap (λ n. names_equal n o) same_name)))
      | inr ne ↦ rw ne
    ]

-- Files other than the one that changes read as before.
lookup-other :
    (fs gs : Ramfs) (k : ℕ) (o : Name)
    → find_slot o gs ≡ find_slot o fs
    → find_slot o fs ≢ some k
    → ((j : ℕ) → j ≢ k → gs.slots j ≡ fs.slots j)
    → lookup o gs ≡ lookup o fs
lookup-other fs gs k o same not_k frame = elim (Option-cases (find_slot o fs)) [
  | inl e ↦ lookup-none o gs (same ∙ e) ∙ sym (lookup-none o fs e)
  | inr (j, e) ↦
      lookup-some o gs j (same ∙ e)
      ∙ ap (λ s. some (contents s)) (frame j λ jk. not_k (e ∙ ap some jk))
      ∙ sym (lookup-some o fs j e)
]

write-frame :
    (slots : Array Slot) (k : ℕ) (slot : Slot) (j : ℕ) → j ≢ k → write slots k slot j ≡ slots j
write-frame slots k slot j ne = let e : (j == k) ≡ false = ground arith in rw e

-- A new content under the same name.
pub lookup-replace :
    (fs : Ramfs) (name : Name) (k : ℕ) (slot : Slot) (o : Name)
    → IsValid fs
    → find_slot name fs ≡ some k
    → slot.alive ≡ true
    → slot.name ≡ (fs.slots k).name
    → lookup o (at_slot fs k slot fs.live_file_count)
      ≡ (if names_equal name o then some (contents slot) else lookup o fs)
lookup-replace fs name k slot o v found alive same_name =
    let (lt, a, at) = find_slot-some name fs k found in
    let same = find_slot-replace fs k slot fs.live_file_count o a alive same_name in
    elim (Bool-cases (names_equal name o)) [
      | inl e ↦ rw e (
          lookup-some o _ k (same ∙ find_slot-equal name o fs k v found e)
          ∙ ap (λ s. some (contents s)) (write_self fs.slots k slot))
      | inr ne ↦ rw ne (
          lookup-other fs _ k o same (λ h. ground (arith, find_slot-both name o fs k found h))
            (write-frame fs.slots k slot))
    ]

-- A new file in a dead slot.
pub lookup-add :
    (fs : Ramfs) (name : Name) (k : ℕ) (slot : Slot) (count : ℕ) (o : Name)
    → k < max_files
    → IsValid (at_slot fs k slot count)
    → find_slot name fs ≡ none
    → (fs.slots k).alive ≡ false
    → slot.alive ≡ true
    → names_equal slot.name name ≡ true
    → lookup o (at_slot fs k slot count)
      ≡ (if names_equal name o then some (contents slot) else lookup o fs)
lookup-add fs name k slot count o lt v missing dead alive same_name =
    elim (Bool-cases (names_equal name o)) [
      | inl e ↦ rw e (
          lookup-some o (at_slot fs k slot count) k (
            find_slot-hit o (at_slot fs k slot count) k v lt
              (ap (λ s. s.alive) (write_self fs.slots k slot) ∙ alive)
              (ap (λ s. names_equal s.name o) (write_self fs.slots k slot)
                ∙ names_equal_trans slot.name name o same_name
                ∙ e))
          ∙ ap (λ s. some (contents s)) (write_self fs.slots k slot))
      | inr ne ↦ rw ne (
          lookup-other fs (at_slot fs k slot count) k o
            (find_slot-congr o (at_slot fs k slot count) fs λ j lj. elim (Bool-cases (j == k)) [
              | inl e ↦
                  let e' : j ≡ k = ground arith in
                  rw e (rw e' (ground (arith, names_equal_trans slot.name name o same_name)))
              | inr other ↦ rw other
            ])
            (λ h. ground (arith, find_slot-some o fs k h)) (write-frame fs.slots k slot))
    ]

-- A file whose slot is cleared.
pub lookup-drop :
    (fs : Ramfs) (name : Name) (k : ℕ) (slot : Slot) (count : ℕ) (o : Name)
    → IsValid fs
    → find_slot name fs ≡ some k
    → slot.alive ≡ false
    → lookup o (at_slot fs k slot count) ≡ (if names_equal name o then none else lookup o fs)
lookup-drop fs name k slot count o v found dead =
    let (lt, a, at) = find_slot-some name fs k found in
    elim (Bool-cases (names_equal name o)) [
      | inl e ↦ rw e (
          lookup-none o (at_slot fs k slot count) (
            find_slot-miss o (at_slot fs k slot count) λ j lj. elim (Bool-cases (j == k)) [
              | inl here ↦ rw here (λ al. ground arith)
              | inr there ↦ rw there λ al. elim (Bool-cases (names_equal (fs.slots j).name o)) [
                | inr ne ↦ ne
                | inl eq ↦
                    ground (
                      arith,
                      find_slot-hit o fs j v lj al eq,
                      find_slot-equal name o fs k v found e,
                    )
              ]
            ]))
      | inr ne ↦ rw ne (
          lookup-other fs (at_slot fs k slot count) k o
            (find_slot-congr o (at_slot fs k slot count) fs λ j lj. elim (Bool-cases (j == k)) [
              | inl e ↦
                  let e' : j ≡ k = ground arith in
                  rw e (rw e' (ground (arith, names_equal_trans (fs.slots k).name name o at)))
              | inr other ↦ rw other
            ])
            (λ h. ground (arith, find_slot-both name o fs k found h)) (write-frame fs.slots k slot))
    ]
