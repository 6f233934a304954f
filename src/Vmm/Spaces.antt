-- ===== src/Vmm/Spaces.antt =====
-- When the tables of kernel/mm/vmm.c hold a partial map of pages.
use tinyshell_os.Base.{
  ℕ, ◌+◌, ◌*◌, ◌/◌, ◌%◌, ◌≤◌, ◌<◌, ◌≡◌, ◌≢◌, ◌⊎◌, Bool, true, false, not, Option, none, some, arith,
  ◌==◌, if◌then◌else◌,
}
use tinyshell_os.Base.Counts.{count}
use tinyshell_os.Vmm.{Places, Vmm, no_table, page_present, page_writable, page_user, table_entry}
use tinyshell_os.Vmm.Registers.{Mapping, has, with_bit, address_part}
use tinyshell_os.Vmm.Model.{Space, used}

-- The two static arrays are aligned to pages, and do not overlap.
pub record IsPlaced (places : Places) : Type 0 where
  pub directory_aligned : places.directory % 4096 ≡ 0
  pub tables_aligned : places.tables % 4096 ≡ 0
  pub apart :
      (places.directory + 4096 ≤ places.tables) ⊎ (places.tables + 64 * 4096 ≤ places.directory)

abbrev pub has_table : Vmm → ℕ → Bool
has_table s d = not (s.directory_table_indices d == no_table)

-- What an entry of a table says
unfoldable pub decode : ℕ → Option Mapping
decode entry =
    if has page_present entry
    then some (record {
      frame = address_part entry;
      writable = has page_writable entry;
      user = has page_user entry;
    })
    else none

unfoldable pub view : Vmm → ℕ → Option Mapping
view s page =
    if has_table s (page / 1024)
    then decode (s.page_tables (s.directory_table_indices (page / 1024)) (page % 1024))
    else none

-- The table of a directory's entry
pub record IsTable (places : Places) (s : Vmm) (d : ℕ) : Type 0 where
  pub below : s.directory_table_indices d < 64
  pub taken : s.table_in_use (s.directory_table_indices d) ≡ true
  pub dynamic : 32 ≤ d → 32 ≤ s.directory_table_indices d
  pub upper :
      (s.page_directory d ≡ places.tables + s.directory_table_indices d * 4096 + 3)
      ⊎ (s.page_directory d ≡ places.tables + s.directory_table_indices d * 4096 + 7)

pub record IsTabled (places : Places) (s : Vmm) (m : Space) : Type 0 where
  pub on : s.enabled ≡ true
  pub loaded : s.processor.directory ≡ places.directory
  -- CR0.PG and CR0.WP
  pub translates : s.processor.control 31 ≡ true
  pub protects : s.processor.control 16 ≡ true
  pub pages : (page : ℕ) → page < 1048576 → m page ≡ view s page
  pub tables : (d : ℕ) → d < 1024 → has_table s d ≡ true → IsTable places s d
  pub absent : (d : ℕ) → d < 1024 → has_table s d ≡ false → s.page_directory d ≡ 0
  pub distinct :
      (c d : ℕ)
      → c < 1024
      → d < 1024
      → c ≢ d
      → has_table s d ≡ true
      → s.directory_table_indices c ≢ s.directory_table_indices d
  pub fixed : (t : ℕ) → t < 32 → s.table_in_use t ≡ true
  pub counts : count (has_table s) 1024 ≡ count s.table_in_use 64
  pub users :
      (page : ℕ) (x : Mapping)
      → page < 1048576
      → m page ≡ some x
      → x.user ≡ true
      → has page_user (s.page_directory (page / 1024)) ≡ true
  pub held :
      (page : ℕ) (x : Mapping) → page < 1048576 → s.processor.cached page ≡ some x → m page ≡ some x

-- Between the calls, a table has a mapped page.
pub record IsSpace (places : Places) (s : Vmm) (m : Space) : Type 0 where
  pub tabled : IsTabled places s m
  pub groups : (d : ℕ) → d < 1024 → used m d ≡ has_table s d

pub table_entry_lem :
    (places : Places) (t : ℕ)
    → IsPlaced places
    → table_entry places t ≡ places.tables + t * 4096 + 3
unfolding with_bit has
table_entry_lem places t h = ground (arith, h.tables_aligned)
