-- ===== src/Vmm/Registers.antt =====
-- The registers of kernel/arch/x86/paging.c, the processor's cache of translations, and the bits of
-- a page table's entry.
use tinyshell_os.Base.{
  ℕ, ◌+◌, ◌-◌, ◌/◌, ◌%◌, Bool, true, Option, none, Array, write, ◌==◌, if◌then◌else◌,
}

-- `(word & bit) != 0`, for a power of two
unfoldable pub has : ℕ → ℕ → Bool
has bit word = word / bit % 2 == 1

-- `word | bit`
unfoldable pub with_bit : ℕ → ℕ → ℕ
with_bit bit word = if has bit word then word else word + bit

-- `word & PAGE_ADDRESS_MASK`
abbrev pub address_part : ℕ → ℕ
address_part word = word - word % 4096

-- The page at an address, and what may be done with it
pub record Mapping : Type 0 where
  pub frame : ℕ
  pub writable : Bool
  pub user : Bool

-- CR0 as bits, CR3, and the translations that the processor holds, by page
pub record Processor : Type 0 where
  pub control : Array Bool
  pub directory : ℕ
  pub cached : Array (Option Mapping)

-- CR0_WRITE_PROTECT and CR0_PAGING
abbrev pub write_protect : ℕ
write_protect = 16

abbrev pub paging : ℕ
paging = 31

-- `paging_load_directory`: a write to CR3 drops what the processor holds.
unfoldable pub load_directory : ℕ → Processor → Processor
load_directory address c = record c { directory = address; cached = λ page. none }

-- `paging_enable`
unfoldable pub enable : Processor → Processor
enable c = record c { control = write (write c.control write_protect true) paging true }

-- `paging_invalidate`: `invlpg` drops the page of the address.
unfoldable pub invalidate : ℕ → Processor → Processor
invalidate address c = record c { cached = write c.cached (address / 4096) none }
