-- ===== src/Vmm/Model.antt =====
-- What kernel/mm/vmm.c promises: a partial map from pages to frames. The pages come in groups of
-- 1024, and at most 64 groups have mapped pages.
use tinyshell_os.Base.{
  ℕ, ◌+◌, ◌*◌, ◌/◌, ◌%◌, Bool, true, false, not, ◌&&◌, ◌||◌, Option, none, some, List, [], ◌∷◌,
  write, add32, find_first, leb, ltb, ◌==◌, if◌then◌else◌,
}
use tinyshell_os.Base.Counts.{count}
use tinyshell_os.Vmm.Registers.{Mapping}
use tinyshell_os.Vmm.Calls.{
  Call, inits, asks_enabled, maps, unmaps, translates, accesses, Reply, told, address, reached,
  word32,
}

abbrev pub Space : Type 0
Space = ℕ → Option Mapping

-- The first 128 MiB less page 0, each page at its own address
abbrev pub identity : Space
identity page =
    if page == 0
    then none
    else if ltb page 32768
    then some (record { frame = page * 4096; writable = true; user = false })
    else none

abbrev pub is_some : Option Mapping → Bool
is_some none = false
is_some (some x) = true

-- Is a page of the group mapped?
unfoldable pub used : Space → ℕ → Bool
used m group = elim (find_first (λ index. is_some (m (group * 1024 + index))) 1024 0) [
  | none ↦ false
  | some index ↦ true
]

-- There is room for a page of the group.
abbrev pub has_room : Space → ℕ → Bool
has_room m group = used m group || ltb (count (used m) 1024) 64

-- A page between 1 GiB and 3.75 GiB
abbrev pub is_dynamic : ℕ → Bool
is_dynamic a = leb 0x40000000 a && (ltb a 0xF0000000 && (a % 4096 == 0))

unfoldable pub map : ℕ → ℕ → ℕ → Space → Bool × Space
map v p flags m =
    if is_dynamic v
      && ((p % 4096 == 0)
          && (ltb flags 4 && (not (is_some (m (v / 4096))) && has_room m (v / 4194304))))
    then (
      true,
      write m (v / 4096)
          (some (record { frame = p; writable = flags % 2 == 1; user = leb 2 flags })),
    )
    else (false, m)

-- The mapping of a page that may be unmapped
abbrev pub dynamic_page : ℕ → Space → Option Mapping
dynamic_page v m = if is_dynamic v then m (v / 4096) else none

unfoldable pub unmap : ℕ → Option ℕ → Space → (Bool × Option ℕ) × Space
unmap v none m = ((false, none), m)
unmap v (some out) m = elim (dynamic_page v m) [
  | none ↦ ((false, some out), m)
  | some x ↦ ((true, some x.frame), write m (v / 4096) none)
]

unfoldable pub translate : ℕ → Option ℕ → Space → Bool × Option ℕ
translate v none m = (false, none)
translate v (some out) m = elim (m (v / 4096)) [
  | none ↦ (false, some out)
  | some x ↦ (true, some (add32 x.frame (v % 4096)))
]

-- What an access reaches, or a page fault
unfoldable pub access : ℕ → Bool → Bool → Space → Option ℕ
access v writes by_user m = elim (m (v / 4096)) [
  | none ↦ none
  | some x ↦
      if (not by_user || x.user) && (not writes || x.writable)
      then some (add32 x.frame (v % 4096))
      else none
]

unfoldable pub step : Space → Call → Reply × Space
step m inits = (told true, m)
step m asks_enabled = (told true, m)
step m (maps v p flags) = let (b, m') = map (word32 v) (word32 p) (word32 flags) m in (told b, m')
step m (unmaps v out) = let (r, m') = unmap (word32 v) out m in (address r.0 r.1, m')
step m (translates v out) = let r = translate (word32 v) out m in (address r.0 r.1, m)
step m (accesses v writes by_user) = (reached (access (word32 v) writes by_user m), m)

unfoldable pub run : Space → List Call → List Reply
run m [] = []
run m (c ∷ cs) = let (r, m') = step m c in r ∷ run m' cs

unfoldable pub after : Space → List Call → Space
after m [] = m
after m (c ∷ cs) = after (step m c).1 cs
