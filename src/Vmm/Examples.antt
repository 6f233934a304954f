-- ===== src/Vmm/Examples.antt =====
-- kernel/mm/vmm.c with its directory at 1 MiB, and its tables behind it.
use tinyshell_os.Base.{◌+◌, ◌≡◌, refl, ◌∙◌, ltb, true, false, none, some, List, [], ◌∷◌, inl, arith}
use tinyshell_os.Vmm.{Places, Vmm, init, map_page, unmap_page, translate}
use tinyshell_os.Vmm.Calls.{Call, inits, maps, unmaps, translates, accesses, run, after}
use tinyshell_os.Vmm.Model
use tinyshell_os.Vmm.Model.{identity, used}
use tinyshell_os.Vmm.Spaces.{IsPlaced, IsSpace}
use tinyshell_os.Base.Counts.{count, count-ext}
use tinyshell_os.Vmm.Starts.{identity_groups}
use tinyshell_os.Vmm.Started.{init-IsSpace}
use tinyshell_os.Vmm.Attempts.{map_page-Agree}
use tinyshell_os.Vmm.Run.{run-init-identity, after-init-IsSpace}
use tinyshell_os.Vmm.RoundTrip.{map_page-translate}

abbrev places : Places
places = record { directory = 0x100000; tables = 0x101000 }

places-IsPlaced : IsPlaced places
places-IsPlaced = record {
  directory_aligned = refl;
  tables_aligned = refl;
  apart = inl (omega arith);
}

abbrev junk : Vmm
junk = record {
  page_directory = λ d. 9;
  page_tables = λ t entry. 7;
  directory_table_indices = λ d. 3;
  table_in_use = λ t. true;
  enabled = false;
  processor = record { control = λ bit. false; directory = 0; cached = λ page. none };
}

abbrev script : List Call
script =
    inits
    ∷ maps 0x40000000 0x5000 3
    ∷ maps 0x40000000 0x6000 0
    ∷ accesses 0x40000004 true true
    ∷ translates 0x40000123 (some 0)
    ∷ maps 0x1000 0x5000 0
    ∷ unmaps 0x40000000 (some 0)
    ∷ accesses 0x40000004 true true
    ∷ unmaps 0x40000000 (some 0)
    ∷ translates 0x2345 (some 0)
    ∷ translates 0x2345 none
    ∷ []

run-init-identity_example :
    ((init places junk).0 ≡ true)
    × (run places (init places junk).1 script ≡ Model.run identity script)
run-init-identity_example = run-init-identity places junk script places-IsPlaced refl

after-init-IsSpace_example :
    IsSpace places (after places (init places junk).1 script) (Model.after identity script)
after-init-IsSpace_example = after-init-IsSpace places junk script places-IsPlaced refl

abbrev booted : Vmm
booted = (init places junk).1

booted-IsSpace : IsSpace places booted identity
booted-IsSpace = (init-IsSpace places junk places-IsPlaced refl).1

low_count : count (λ d. ltb d 32) 1024 ≡ 32
unfolding count
low_count = refl

identity_total : count (used identity) 1024 ≡ 32
identity_total = count-ext (used identity) (λ d. ltb d 32) 1024 identity_groups ∙ low_count

first_map : (map_page places 0x40000000 0x5000 3 booted).0 ≡ true
unfolding Model.map
first_map =
    (map_page-Agree places booted identity 0x40000000 0x5000 3 places-IsPlaced booted-IsSpace
      (omega arith)).0
    ∙ rw (identity_groups 256 (omega arith), identity_total) refl

map_page-translate_example :
    (translate (0x40000000 + 0x123) (some 0) (map_page places 0x40000000 0x5000 3 booted).1
      ≡ (true, some (0x5000 + 0x123)))
    × ((unmap_page 0x40000000 (some 0) (map_page places 0x40000000 0x5000 3 booted).1).0
        ≡ (true, some 0x5000))
    × (translate
          (0x40000000 + 0x123)
          (some 0)
          (unmap_page 0x40000000 (some 0) (map_page places 0x40000000 0x5000 3 booted).1).1
        ≡ (false, some 0))
map_page-translate_example =
    map_page-translate places booted identity 0x40000000 0x5000 3 0x123 0 places-IsPlaced
      booted-IsSpace (omega arith) (omega arith) (omega arith) first_map
