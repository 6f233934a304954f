-- ===== src/Ramfs/Slots.antt =====
-- The slots that the operations of kernel/fs/ramfs.c leave behind: each is proper, keeps its name
-- where it should, and holds the bytes it should.
use tinyshell_os.Base.{
  ℕ, zero, suc, ◌+◌, ◌-◌, ◌≤◌, ◌<◌, ◌≡◌, refl, ◌∙◌, ap, ap₂, inl, inr, true, arith, Array, some, [],
  ◌++◌, write, slice, slice-ext, slice-append, slice-eq-slice, each_lem, loop, length, add32,
  Bool-cases, ◌==◌, ltb, if◌then◌else◌,
}
use tinyshell_os.Ramfs.{Slot, file_max_bytes, clear_slot, created_slot, written_slot, appended_slot}
use tinyshell_os.Ramfs.Names.{Name, name_is_valid, names_equal}
use tinyshell_os.Ramfs.NameLaws.{copy_name-equal, name_is_valid-congr}
use tinyshell_os.Ramfs.Invariant.{IsSlot}
use tinyshell_os.Ramfs.Files.{contents}

pub created_slot-alive : (name : Name) (slot : Slot) → (created_slot name slot).alive ≡ true
unfolding created_slot
created_slot-alive name slot = refl

pub created_slot-name :
    (name : Name) (slot : Slot)
    → name_is_valid (some name) ≡ true
    → names_equal (created_slot name slot).name name ≡ true
unfolding created_slot
created_slot-name name slot h = copy_name-equal name (clear_slot slot).name h

pub created_slot-contents : (name : Name) (slot : Slot) → contents (created_slot name slot) ≡ []
unfolding created_slot clear_slot
created_slot-contents name slot = refl

created_slot-length : (name : Name) (slot : Slot) → (created_slot name slot).length ≡ 0
unfolding created_slot clear_slot
created_slot-length name slot = refl

pub created_slot-IsSlot :
    (name : Name) (slot : Slot) → name_is_valid (some name) ≡ true → IsSlot (created_slot name slot)
created_slot-IsSlot name slot h = record {
  named = λ a.
      name_is_valid-congr (created_slot name slot).name name (created_slot-name name slot h) ∙ h;
  short = λ a. omega (arith, created_slot-length name slot);
  cleared = λ d. ground (arith, created_slot-alive name slot);
}

pub written_slot-IsSlot :
    (bytes : Array ℕ) (length : ℕ) (slot : Slot)
    → length ≤ file_max_bytes
    → slot.alive ≡ true
    → IsSlot slot
    → IsSlot (written_slot bytes length slot)
unfolding written_slot
written_slot-IsSlot bytes length slot fits alive good = record {
  named = good.named;
  short = λ a. fits;
  cleared = λ d. ground arith;
}

pub written_slot-contents :
    (bytes : Array ℕ) (length : ℕ) (slot : Slot)
    → length ≤ file_max_bytes
    → contents (written_slot bytes length slot) ≡ slice bytes 0 length
unfolding written_slot
written_slot-contents bytes n slot fits =
    slice-ext (written_slot bytes n slot).content bytes 0 n λ j lt.
      ground (
        arith,
        each_lem file_max_bytes (λ i _. if ltb i n then bytes i else 0) slot.content (0 + j),
      )

pub appended_slot-IsSlot :
    (bytes : Array ℕ) (length : ℕ) (slot : Slot)
    → slot.length + length ≤ file_max_bytes
    → slot.alive ≡ true
    → IsSlot slot
    → IsSlot (appended_slot bytes length slot)
unfolding appended_slot
appended_slot-IsSlot bytes n slot fits alive good = record {
  named = good.named;
  short = λ a. omega arith;
  cleared = λ d. ground arith;
}

-- The loop of `ramfs_append` writes at the end of the file, and nowhere else.
append_loop :
    (bytes : Array ℕ) (offset n : ℕ) (content : Array ℕ) (j : ℕ)
    → loop n (λ i content. write content (offset + i) (bytes i)) content j ≡ (
        if ltb j offset
        then content j
        else if ltb j (offset + n)
        then bytes (j - offset)
        else content j)
unfolding loop
append_loop bytes offset zero content j = ground arith
append_loop bytes offset (suc n) content j = elim (Bool-cases (j == offset + n)) [
  | inl e ↦
      let e' : n ≡ j - offset = ground arith in
      ground (arith, append_loop bytes offset n content j, ap bytes e')
  | inr ne ↦ ground (arith, append_loop bytes offset n content j)
]

pub appended_slot-contents :
    (bytes : Array ℕ) (n : ℕ) (slot : Slot)
    → slot.length + n ≤ file_max_bytes
    → contents (appended_slot bytes n slot) ≡ contents slot ++ slice bytes 0 n
unfolding appended_slot
appended_slot-contents bytes n slot fits =
    let grown = (appended_slot bytes n slot).content in
    let e : add32 slot.length n ≡ slot.length + n = omega arith in
    ap (slice grown 0) e
    ∙ slice-append grown 0 slot.length n
    ∙ ap₂ ◌++◌
        (slice-ext grown slot.content 0 slot.length
          λ j lt. ground (arith, append_loop bytes slot.length n slot.content (0 + j)))
        (slice-eq-slice grown bytes (0 + slot.length) 0 n λ j lt. last j lt)
  where
    last :
        (j : ℕ) → j < n → (appended_slot bytes n slot).content (0 + slot.length + j) ≡ bytes (0 + j)
    last j lt =
        let e : 0 + slot.length + j - slot.length ≡ 0 + j = omega arith in
        ground
          (arith, append_loop bytes slot.length n slot.content (0 + slot.length + j), ap bytes e)

pub written_slot-alive :
    (bytes : Array ℕ) (n : ℕ) (slot : Slot) → (written_slot bytes n slot).alive ≡ slot.alive
unfolding written_slot
written_slot-alive bytes n slot = refl

pub written_slot-name :
    (bytes : Array ℕ) (n : ℕ) (slot : Slot) → (written_slot bytes n slot).name ≡ slot.name
unfolding written_slot
written_slot-name bytes n slot = refl

pub appended_slot-alive :
    (bytes : Array ℕ) (n : ℕ) (slot : Slot) → (appended_slot bytes n slot).alive ≡ slot.alive
unfolding appended_slot
appended_slot-alive bytes n slot = refl

pub appended_slot-name :
    (bytes : Array ℕ) (n : ℕ) (slot : Slot) → (appended_slot bytes n slot).name ≡ slot.name
unfolding appended_slot
appended_slot-name bytes n slot = refl
