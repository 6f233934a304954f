-- ===== src/Heap/Examples.antt =====
-- kernel/mm/heap.c in an arena at 1 MiB.
use tinyshell_os.Base.{
  ℕ, ◌+◌, ◌≤◌, ◌<◌, ◌≡◌, ◌≢◌, ◌↔◌, refl, Bool, true, false, none, some, List, [], ◌∷◌, arith,
  word_mod,
}
use tinyshell_os.Heap.{arena_size, Heap, init, inspect_heap, kmalloc, kcalloc, kfree}
use tinyshell_os.Heap.Layout.{Layout, IsArena, IsHeap, stats_of}
use tinyshell_os.Heap.Chains.{live}
use tinyshell_os.Heap.Fresh.{IsFresh}
use tinyshell_os.Heap.Frees.{whole_arena, init-IsHeap}
use tinyshell_os.Heap.Model.{allocate, carve, join, release, malloc, calloc, free, rounded}
use tinyshell_os.Heap.Calls.{
  Call, mallocs, callocs, frees, asks_stats, validates, stores, pointer, told, measured, stored,
  run,
}
use tinyshell_os.Heap.Answers.{answer, answers, blocks_after, Obeys}
use tinyshell_os.Heap.Sound.{inspect_heap_iff}
use tinyshell_os.Heap.Run.{run-init-answers}
use tinyshell_os.Heap.Safe.{Gets, kmalloc-Gets, kcalloc-zero}
use tinyshell_os.Heap.Lost.{GivesBack, kfree-GivesBack}

abbrev base : ℕ
base = 1048576

base-IsArena : IsArena base
base-IsArena = omega arith

abbrev junk : Heap
junk = record { memory = λ a. 7; first_block = 9; heap_initialized = false }

abbrev booted : Heap
booted = (init base junk).1

booted-IsHeap : IsHeap base booted whole_arena
booted-IsHeap = (init-IsHeap base junk base-IsArena).1

abbrev script : List Call
script =
    mallocs 100
    ∷ callocs 3 20
    ∷ stores 1048608 65
    ∷ frees 1048608
    ∷ frees 1048608
    ∷ mallocs 0
    ∷ frees 1048752
    ∷ validates
    ∷ asks_stats none
    ∷ []

script-Obeys : Obeys base whole_arena script
unfolding answer malloc calloc free allocate carve rounded release join live
script-Obeys = (tt, (tt, (refl, (tt, (tt, (tt, (tt, (tt, (tt, tt)))))))))

run-init-answers_example :
    ((init base junk).0 ≡ true)
    × ((s' : Heap) × (run base booted script ≡ some (answers base whole_arena script, s'))
        × IsHeap base s' (blocks_after base whole_arena script))
run-init-answers_example = run-init-answers base junk script base-IsArena script-Obeys

script-answers :
    answers base whole_arena script
    ≡ pointer 1048608
      ∷ pointer 1048752
      ∷ stored
      ∷ told true
      ∷ told false
      ∷ pointer 0
      ∷ told true
      ∷ told true
      ∷ measured false none
      ∷ []
unfolding answers answer malloc calloc free allocate carve rounded release join
script-answers = refl

inspect_heap_iff_example :
    (inspect_heap base booted ≡ some (stats_of whole_arena))
    ↔ ((ls : Layout) × IsHeap base booted ls × (stats_of whole_arena ≡ stats_of ls))
inspect_heap_iff_example = inspect_heap_iff base booted (stats_of whole_arena) base-IsArena

kmalloc-Gets_example :
    (a : ℕ) × (s' : Heap) × (ls' : Layout) × (kmalloc base 100 booted ≡ some (a, s'))
    × Gets base 100 a booted s' whole_arena ls'
kmalloc-Gets_example =
    kmalloc-Gets base 100 booted whole_arena base-IsArena (omega arith) booted-IsHeap

kcalloc-zero_example :
    (a : ℕ) × (s' : Heap) × (ls' : Layout) × (kcalloc base 3 20 booted ≡ some (a, s'))
    × IsHeap base s' ls'
    × (a ≢ 0
        → (60 < word_mod)
          × IsFresh (base + arena_size) base 60 whole_arena a ls'
          × ((x : ℕ) → a ≤ x → x < a + 60 → s'.memory x ≡ 0))
    × ((x : ℕ) → live base whole_arena x ≡ true → s'.memory x ≡ booted.memory x)
kcalloc-zero_example = kcalloc-zero base 3 20 booted whole_arena base-IsArena booted-IsHeap

kfree-GivesBack_example :
    (b : Bool) × (s' : Heap) × (ls' : Layout) × (kfree base 1048608 booted ≡ some (b, s'))
    × GivesBack base 1048608 b booted s' whole_arena ls'
kfree-GivesBack_example = kfree-GivesBack base 1048608 booted whole_arena base-IsArena booted-IsHeap
