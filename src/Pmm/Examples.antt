-- ===== src/Pmm/Examples.antt =====
-- kernel/mm/pmm.c on small memories.
use tinyshell_os.Base.{◌≡◌, refl, true, false, List, [], ◌∷◌}
use tinyshell_os.Pmm.{Pmm, reset, inward_page_span, outward_page_span}
use tinyshell_os.Pmm.Pages.{IsCounted}
use tinyshell_os.Pmm.Calls.{Call, adds, reserves, allocs, frees, asks_free, asks_total, run, after}
use tinyshell_os.Pmm.Model
use tinyshell_os.Pmm.Model.{unknown_pages}
use tinyshell_os.Pmm.Run.{run-reset-Pages, after-reset-IsCounted}

-- The bitmaps' bytes before a reset do not matter.
abbrev junk : Pmm
junk = record {
  managed_pages = λ _. λ _. true;
  allocated_pages = λ _. λ _. false;
  total_pages = 7;
  free_pages = 7;
  ownership_frozen = true;
}

-- Pages 1 to 3 are usable, and page 2 is reserved again.
abbrev boot_calls : List Call
boot_calls =
    adds 0 16385
    ∷ reserves 8192 1
    ∷ allocs
    ∷ adds 65536 4096
    ∷ allocs
    ∷ allocs
    ∷ frees 4096
    ∷ frees 4096
    ∷ frees 8192
    ∷ asks_free
    ∷ asks_total
    ∷ []

run-reset-Pages_example : run (reset junk) boot_calls ≡ Model.run unknown_pages boot_calls
run-reset-Pages_example = run-reset-Pages junk boot_calls

after-reset-IsCounted_example : IsCounted (after (reset junk) boot_calls)
after-reset-IsCounted_example = after-reset-IsCounted junk boot_calls

spans : (inward_page_span 1 16385 ≡ (1, 4)) × (outward_page_span 8192 8193 ≡ (2, 3))
unfolding inward_page_span outward_page_span
spans = (refl, refl)
