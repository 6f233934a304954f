-- ===== src/Vmm.antt =====
-- kernel/mm/vmm.c with include/mm/vmm.h, on the processor's registers and translation cache as
-- kernel/arch/x86/paging.c uses them: a page directory and a pool of 64 page tables, the first 32
-- of which map the first 128 MiB. A page is the number of its address, an address divided by 4096.
-- The addresses of the two static arrays are parameters.
pub mod Registers
pub mod Calls
pub mod Model
pub mod Spaces
pub mod Changes
pub mod Tables
pub mod Groups
pub mod Maps
pub mod Mapped
pub mod Attempts
pub mod Unmaps
pub mod Unmapped
pub mod Walks
pub mod Starts
pub mod Started
pub mod Run
pub mod RoundTrip
mod Examples
use tinyshell_os.Base.{
  ℕ, ◌+◌, ◌-◌, ◌*◌, ◌/◌, ◌%◌, Bool, true, false, not, ◌&&◌, ◌||◌, Option, none, some, Array, write,
  each, loop, find_first, add32, ltb, leb, ◌==◌, if◌then◌else◌,
}
use Registers.{Processor, load_directory, enable, invalidate, has, with_bit, address_part}

-- PAGE_DIRECTORY_ENTRIES
abbrev pub directory_entries : ℕ
directory_entries = 1024

-- PAGE_TABLE_ENTRIES
abbrev pub table_entries : ℕ
table_entries = 1024

-- PAGE_TABLE_COUNT
abbrev pub table_count : ℕ
table_count = 64

-- IDENTITY_TABLE_COUNT
abbrev pub identity_count : ℕ
identity_count = 32

-- TABLE_INDEX_NONE
abbrev pub no_table : ℕ
no_table = 0xFFFF

abbrev pub page_present : ℕ
page_present = 1

abbrev pub page_writable : ℕ
page_writable = 2

abbrev pub page_user : ℕ
page_user = 4

abbrev pub page_size : ℕ
page_size = 4096

abbrev pub dynamic_start : ℕ
dynamic_start = 0x40000000

abbrev pub dynamic_end : ℕ
dynamic_end = 0xF0000000

-- VMM_WRITABLE and VMM_USER
abbrev pub asks_writable : ℕ
asks_writable = 1

abbrev pub asks_user : ℕ
asks_user = 2

-- `&page_directory[0]` and `&page_tables[0][0]`
pub record Places : Type 0 where
  pub directory : ℕ
  pub tables : ℕ

pub record Vmm : Type 0 where
  pub page_directory : Array ℕ
  pub page_tables : Array (Array ℕ)
  pub directory_table_indices : Array ℕ
  pub table_in_use : Array Bool
  pub enabled : Bool
  pub processor : Processor

abbrev pub directory_index : ℕ → ℕ
directory_index a = a / 4194304

abbrev pub entry_index : ℕ → ℕ
entry_index a = a / 4096 % 1024

abbrev pub clear_table : ℕ → Vmm → Vmm
clear_table t s = record s {
  page_tables = write s.page_tables t (each table_entries (λ _ _. 0) (s.page_tables t));
}

unfoldable pub dynamic_address_is_valid : ℕ → Bool
dynamic_address_is_valid a = leb dynamic_start a && (ltb a dynamic_end && (a % page_size == 0))

unfoldable pub make_page_flags : ℕ → ℕ
make_page_flags flags =
    let writable =
      if has asks_writable flags then with_bit page_writable page_present else page_present in
    if has asks_user flags then with_bit page_user writable else writable

unfoldable pub allocate_dynamic_table : Vmm → ℕ × Vmm
allocate_dynamic_table s =
    elim (find_first (λ index. not (s.table_in_use index)) (table_count - identity_count)
      identity_count) [
        | none ↦ (no_table, s)
        | some index ↦
            (index, clear_table index (record s { table_in_use = write s.table_in_use index true }))
      ]

unfoldable pub table_is_empty : ℕ → Vmm → Bool
table_is_empty t s =
    elim (find_first (λ entry. has page_present (s.page_tables t entry)) table_entries 0) [
      | none ↦ true
      | some entry ↦ false
    ]

-- `&page_tables[t][0]`, present and writable
abbrev pub table_entry : Places → ℕ → ℕ
table_entry places t =
    with_bit page_writable (with_bit page_present (address_part (places.tables + t * page_size)))

unfoldable pub no_tables : Vmm → Vmm
no_tables = loop directory_entries λ d s. record s {
  page_directory = write s.page_directory d 0;
  directory_table_indices = write s.directory_table_indices d no_table;
}

unfoldable pub cleared_tables : Vmm → Vmm
cleared_tables =
    loop table_count λ t s.
      clear_table t (record s { table_in_use = write s.table_in_use t (ltb t identity_count) })

-- The inner loop of `vmm_init`
unfoldable pub identity_entries : ℕ → Array ℕ → Array ℕ
identity_entries t = each table_entries λ entry old.
    let physical_address = (t * table_entries + entry) * page_size in
    if physical_address == 0
    then old
    else with_bit page_writable (with_bit page_present physical_address)

unfoldable pub identity_tables : Places → Vmm → Vmm
identity_tables places = loop identity_count λ t s. record s {
  directory_table_indices = write s.directory_table_indices t t;
  page_directory = write s.page_directory t (table_entry places t);
  page_tables = write s.page_tables t (identity_entries t (s.page_tables t));
}

unfoldable pub init : Places → Vmm → Bool × Vmm
init places s = if s.enabled then (true, s) else (
  true,
  record made {
    processor = enable (load_directory places.directory made.processor);
    enabled = true;
  },
)
  where
    made : Vmm
    made = identity_tables places (cleared_tables (no_tables s))

-- The table of a directory entry, which is allocated if there is none
unfoldable pub table_for : Places → ℕ → Vmm → ℕ × Vmm
table_for places d s =
    let (t, s') = allocate_dynamic_table s in
    if not (s.directory_table_indices d == no_table)
    then (s.directory_table_indices d, s)
    else if t == no_table
    then (no_table, s')
    else (
      t,
      record s' {
        directory_table_indices = write s'.directory_table_indices d t;
        page_directory = write s'.page_directory d (table_entry places t);
      },
    )

-- `page_tables[t][entry] = value;`
abbrev pub set_entry : ℕ → ℕ → ℕ → Vmm → Vmm
set_entry t entry value s = record s {
  page_tables = write s.page_tables t (write (s.page_tables t) entry value);
}

-- `paging_invalidate(virtual_address);`
abbrev pub invalidated : ℕ → Vmm → Vmm
invalidated a s = record s { processor = invalidate a s.processor }

-- `page_directory[d] |= PAGE_USER;`
abbrev pub let_user : ℕ → Vmm → Vmm
let_user d s = record s {
  page_directory = write s.page_directory d (with_bit page_user (s.page_directory d));
}

-- The bits of the address and of the flags are disjoint.
unfoldable pub map_entry : ℕ → ℕ → ℕ → ℕ → Vmm → Bool × Vmm
map_entry virtual_address physical_address flags t s =
    let d = directory_index virtual_address in
    let entry = entry_index virtual_address in
    let hardware_flags = make_page_flags flags in
    if has page_present (s.page_tables t entry) then (false, s) else (
      true,
      invalidated virtual_address (
          set_entry t entry (address_part physical_address + hardware_flags)
            (if has page_user hardware_flags then let_user d s else s)),
    )

unfoldable pub map_page : Places → ℕ → ℕ → ℕ → Vmm → Bool × Vmm
map_page places virtual_address physical_address flags s =
    if not s.enabled
      || (not (dynamic_address_is_valid virtual_address)
          || (not (physical_address % page_size == 0) || not (flags / 4 == 0)))
    then (false, s)
    else let (t, s') = table_for places (directory_index virtual_address) s in
      if t == no_table then (false, s') else map_entry virtual_address physical_address flags t s'

-- The table is given back when its last page is unmapped.
unfoldable pub drop_empty : ℕ → ℕ → Vmm → Vmm
drop_empty d t s =
    if leb identity_count t && table_is_empty t s
    then record s {
      page_directory = write s.page_directory d 0;
      directory_table_indices = write s.directory_table_indices d no_table;
      table_in_use = write s.table_in_use t false;
    }
    else s

-- `physical_address` is what the pointer leads to, none for NULL.
unfoldable pub unmap_page : ℕ → Option ℕ → Vmm → (Bool × Option ℕ) × Vmm
unmap_page virtual_address none s = ((false, none), s)
unmap_page virtual_address (some physical_address) s =
    let d = directory_index virtual_address in
    let entry = entry_index virtual_address in
    let t = s.directory_table_indices d in
    if not s.enabled
      || (not (dynamic_address_is_valid virtual_address)
          || ((t == no_table) || not (has page_present (s.page_tables t entry))))
    then ((false, some physical_address), s)
    else (
      (true, some (address_part (s.page_tables t entry))),
      drop_empty d t (invalidated virtual_address (set_entry t entry 0 s)),
    )

unfoldable pub translate : ℕ → Option ℕ → Vmm → Bool × Option ℕ
translate virtual_address none s = (false, none)
translate virtual_address (some physical_address) s =
    let d = directory_index virtual_address in
    let t = s.directory_table_indices d in
    let entry = s.page_tables t (entry_index virtual_address) in
    if not s.enabled
      || (not (has page_present (s.page_directory d))
          || ((t == no_table) || not (has page_present entry)))
    then (false, some physical_address)
    else (true, some (add32 (address_part entry) (virtual_address % page_size)))

unfoldable pub is_enabled : Vmm → Bool
is_enabled s = s.enabled
