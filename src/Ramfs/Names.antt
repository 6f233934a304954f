-- ===== src/Ramfs/Names.antt =====
-- File names of kernel/fs/ramfs.c: `name_is_valid`, `names_equal`, and the copying loop of
-- `ramfs_create`. A name is the memory that its pointer leads to, read by index; the code reads
-- 32 bytes at most, and none behind the first NUL.
use tinyshell_os.Base.{
  ℕ, zero, suc, Bool, true, false, ◌&&◌, ◌||◌, Option, none, some, Array, write, leb, ◌==◌,
  if◌then◌else◌,
}

abbrev pub name_max : ℕ
name_max = 31

abbrev pub Name : Type 0
Name = Array ℕ

abbrev pub character_allowed : ℕ → Bool
character_allowed c =
    (leb b'a' c && leb c b'z')
    || (leb b'A' c && leb c b'Z')
    || (leb b'0' c && leb c b'9')
    || (c == b'.')
    || (c == b'_')
    || (c == b'-')

-- The answer at the terminator, behind `length` characters.
abbrev pub name_ends : Name → ℕ → Bool
name_ends name length =
    if length == 0
    then false
    else if (length == 1) && (name 0 == b'.')
    then false
    else if (length == 2) && ((name 0 == b'.') && (name 1 == b'.'))
    then false
    else true

-- `n` rounds of the loop of `name_is_valid`, from index `length` on
unfoldable pub check_name : Name → ℕ → ℕ → Bool
check_name name zero length = false
check_name name (suc n) length = elim (name length == 0) [
  | true ↦ name_ends name length
  | false ↦ elim (character_allowed (name length)) [
    | true ↦ check_name name n (suc length)
    | false ↦ false
  ]
]

unfoldable pub name_is_valid : Option Name → Bool
name_is_valid none = false
name_is_valid (some name) = check_name name (suc name_max) 0

-- `n` rounds of the loop of `names_equal`, from `index` on
unfoldable pub names_agree : Name → Name → ℕ → ℕ → Bool
names_agree left right zero index = false
names_agree left right (suc n) index = elim (left index == right index) [
  | false ↦ false
  | true ↦ elim (left index == 0) [ true ↦ true | false ↦ names_agree left right n (suc index) ]
]

unfoldable pub names_equal : Name → Name → Bool
names_equal left right = names_agree left right (suc name_max) 0

-- `n` rounds of the copying loop of `ramfs_create`, from `index` on: it stops behind the NUL.
unfoldable pub copy_name : Name → ℕ → ℕ → Name → Name
copy_name name zero index destination = destination
copy_name name (suc n) index destination =
    let written = write destination index (name index) in
    elim (name index == 0) [ true ↦ written | false ↦ copy_name name n (suc index) written ]
