-- ===== src/Vmm/Calls.antt =====
-- The calls that kernel/mm/vmm.c takes, and what the processor does between them.
use tinyshell_os.Base.{
  ℕ, ◌+◌, ◌-◌, ◌*◌, ◌/◌, ◌%◌, Bool, ◌&&◌, Option, none, some, List, [], ◌∷◌, write, leb, ltb,
  if◌then◌else◌, word_mod, not, ◌||◌, add32,
}
use tinyshell_os.Vmm.{
  Places, Vmm, page_size, page_present, page_writable, page_user, init, map_page, unmap_page,
  translate, is_enabled,
}
use tinyshell_os.Vmm.Registers.{Mapping, has, address_part, Processor}

-- The word at an address of the directory or of the tables
unfoldable pub word_at : Places → Vmm → ℕ → Option ℕ
word_at places s a =
    if leb places.directory a && ltb a (places.directory + 4096)
    then some (s.page_directory ((a - places.directory) / 4))
    else if leb places.tables a && ltb a (places.tables + 64 * 4096)
    then some (s.page_tables ((a - places.tables) / 4096) ((a - places.tables) / 4 % 1024))
    else none

-- An access needs the permission of both levels.
unfoldable pub granted : ℕ → ℕ → Mapping
granted upper lower = record {
  frame = address_part lower;
  writable = has page_writable upper && has page_writable lower;
  user = has page_user upper && has page_user lower;
}

unfoldable pub walk_table : Places → Vmm → ℕ → ℕ → Option Mapping
walk_table places s upper page = elim (word_at places s (address_part upper + 4 * (page % 1024))) [
  | none ↦ none
  | some lower ↦ if has page_present lower then some (granted upper lower) else none
]

-- The processor's documented walk for a page, from the address in CR3: none is a page fault.
unfoldable pub walk : Places → Vmm → ℕ → Option Mapping
walk places s page =
    elim (word_at places s (address_part s.processor.directory + 4 * (page / 1024))) [
      | none ↦ none
      | some upper ↦ if has page_present upper then walk_table places s upper page else none
    ]

-- The processor uses the translation of a page that it holds, or walks the tables and holds what it
-- finds.
unfoldable pub lookup : Places → ℕ → Vmm → Option Mapping × Vmm
lookup places page s = elim (s.processor.cached page) [
  | some held ↦ (some held, s)
  | none ↦ elim (walk places s page) [
    | none ↦ (none, s)
    | some found ↦
        let c = s.processor in
        (
          some found,
          record s { processor = record c { cached = write c.cached page (some found) } },
        )
  ]
]

-- CR0.WP, bit 16, makes a page that is not writable read-only for the kernel too.
abbrev pub is_allowed : Processor → Bool → Bool → Mapping → Bool
is_allowed c writes by_user x =
    (not by_user || x.user) && (not writes || (x.writable || (not by_user && not (c.control 16))))

abbrev pub reached_by : Processor → ℕ → Bool → Bool → Option Mapping → Option ℕ
reached_by c a writes by_user none = none
reached_by c a writes by_user (some x) =
    if is_allowed c writes by_user x then some (add32 x.frame (a % page_size)) else none

-- The physical address that an access of a byte reaches, by the kernel or by a user, or a page
-- fault. Without CR0.PG, bit 31, addresses are not translated.
unfoldable pub access : Places → ℕ → Bool → Bool → Vmm → Option ℕ × Vmm
access places a writes by_user s =
    let (found, s') = lookup places (a / page_size) s in
    if not (s.processor.control 31)
    then (some a, s)
    else (reached_by s.processor a writes by_user found, s')

-- The numbers are taken as uint32_t. A pointer argument is what it leads to, none for NULL.
pub data Call : Type 0 where
  inits asks_enabled : Call
  maps : (virtual_address physical_address flags : ℕ) → Call
  unmaps translates : (virtual_address : ℕ) → Option ℕ → Call
  accesses : (virtual_address : ℕ) (writes by_user : Bool) → Call

pub data Reply : Type 0 where
  told : Bool → Reply
  address : Bool → Option ℕ → Reply
  reached : Option ℕ → Reply

abbrev pub word32 : ℕ → ℕ
word32 x = x % word_mod

unfoldable pub step : Places → Vmm → Call → Reply × Vmm
step places s inits = let (b, s') = init places s in (told b, s')
step places s asks_enabled = (told (is_enabled s), s)
step places s (maps v p flags) =
    let (b, s') = map_page places (word32 v) (word32 p) (word32 flags) s in (told b, s')
step places s (unmaps v out) = let (r, s') = unmap_page (word32 v) out s in (address r.0 r.1, s')
step places s (translates v out) = let r = translate (word32 v) out s in (address r.0 r.1, s)
step places s (accesses v writes by_user) =
    let (r, s') = access places (word32 v) writes by_user s in (reached r, s')

unfoldable pub run : Places → Vmm → List Call → List Reply
run places s [] = []
run places s (c ∷ cs) = let (r, s') = step places s c in r ∷ run places s' cs

unfoldable pub after : Places → Vmm → List Call → Vmm
after places s [] = s
after places s (c ∷ cs) = after places (step places s c).1 cs
