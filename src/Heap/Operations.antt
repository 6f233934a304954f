-- ===== src/Heap/Operations.antt =====
-- Each operation of kernel/mm/heap.c against the list of its blocks.
use tinyshell_os.Base.{
  ℕ, ◌+◌, ◌-◌, ◌*◌, ◌/◌, ◌%◌, ◌≤◌, ◌<◌, ◌≡◌, ◌≢◌, refl, ap, sym, subst, ◌∙◌, inl, inr, Bool, true,
  false, ◌||◌, Option, none, some, arith, Bool-cases, Option-cases, add32, word_mod, word_max, ltb,
  leb, ◌==◌,
}
use tinyshell_os.Heap.{
  allocate as allocate_block, arena_size, alignment, Heap, align_request, passes, find_block, fits,
  place, kmalloc,
}
use tinyshell_os.Heap.Layout.{Layout, link, IsArena, IsHeap}
use tinyshell_os.Heap.Inspected.{inspect_heap-IsHeap, Chain-length}
use tinyshell_os.Heap.Chains.{first_at, find_block-first_at, live}
use tinyshell_os.Heap.Allocated.{Allocated, allocate-Allocated}
use tinyshell_os.Heap.Lists.{Separated, allocate-Separated}
use tinyshell_os.Heap.Fresh.{IsFresh, Fresh, allocate-Fresh}
use tinyshell_os.Heap.Model.{rounded, allocate, malloc}

pub passes-IsHeap :
    (arena : ℕ) (s : Heap) (ls : Layout) → IsArena arena → IsHeap arena s ls → passes arena s ≡ true
passes-IsHeap arena s ls a h = rw (passes, inspect_heap-IsHeap arena s ls a h) refl

-- The search of `kmalloc` and `kfree`
pub search-first_at :
    (arena : ℕ) (s : Heap) (ls : Layout) (test : ℕ → Bool)
    → IsArena arena
    → IsHeap arena s ls
    → find_block 8192 test s.first_block s.memory ≡ some (first_at test arena ls)
search-first_at arena s ls test a h =
    let rounds = Chain-length s.memory (arena + arena_size) 0 arena ls h.chain in
    let on : link (arena + arena_size) arena ≡ arena = ground arith in
    subst (λ x. find_block 8192 test x s.memory ≡ some (first_at test arena ls)) (on ∙ sym h.first)
      (find_block-first_at 8192 test s.memory (arena + arena_size) 0 arena ls
        (omega (arith, a.nonnull)) (omega arith) h.chain)

align_request-rounded : (size : ℕ) → size < word_mod → align_request size ≡ rounded size
unfolding align_request rounded
align_request-rounded size lt = elim (Bool-cases (size == 0 || leb (word_mod - 15) size)) [
  | inl bad ↦
      let e : (size == 0 || ltb (word_max - 15) size) ≡ true = ground arith in rw (bad, e) refl
  | inr good ↦
      let e : (size == 0 || ltb (word_max - 15) size) ≡ false = ground arith in
      let n : add32 size 15 - add32 size 15 % alignment ≡ (size + 15) / 16 * 16 = ground arith in
      rw (good, e, n) refl
]

-- What a call of `kmalloc` or `kcalloc` leaves
pub record Leaves (arena : ℕ) (s s' : Heap) (ls ls' : Layout) : Type 0 where
  pub heap : IsHeap arena s' ls'
  pub kept : (x : ℕ) → live arena ls x ≡ true → s'.memory x ≡ s.memory x

pub Leaves-self : (arena : ℕ) (s : Heap) (ls : Layout) → IsHeap arena s ls → Leaves arena s s ls ls
Leaves-self arena s ls h = record { heap = h; kept = λ x l. refl }

abbrev pub outcome : Option (ℕ × Layout) → Layout → ℕ × Layout
outcome none ls = (0, ls)
outcome (some r) ls = r

place-Leaves :
    (arena n q : ℕ) (s : Heap) (ls : Layout) (o : Option (ℕ × Layout))
    → IsArena arena
    → IsHeap arena s ls
    → Separated false o
    → Fresh (arena + arena_size) arena n ls o
    → Allocated s.memory (arena + arena_size) 0 arena n ls q o
    → ((place n q s).0 ≡ (outcome o ls).0) × Leaves arena s (place n q s).1 ls (outcome o ls).1
unfolding place
place-Leaves arena n q s ls none a h sep fr e = rw e (refl, Leaves-self arena s ls h)
place-Leaves arena n q s ls (some (p, ls')) a h sep fr (e, ch) =
    let pos : (q == 0) ≡ false = ground (arith, ch.behind, a.nonnull) in
    rw pos (
      omega (arith, e, fr.upto, a.ends),
      record {
        heap = record { ready = h.ready; first = h.first; chain = ch.chain; apart_free = sep };
        kept = ch.kept;
      },
    )

rounded_bounds :
    (size n : ℕ) → rounded size ≡ some n → (alignment ≤ n) × (n % alignment ≡ 0) × (size ≤ n)
unfolding rounded
rounded_bounds size n h = ground arith

pub malloc-outcome :
    (arena size n : ℕ) (ls : Layout)
    → rounded size ≡ some n
    → malloc arena size ls ≡ outcome (allocate n arena ls) ls
unfolding malloc
malloc-outcome arena size n ls e =
    rw (malloc, e)
      (elim (Option-cases (allocate n arena ls)) [ inl k ↦ rw k refl | inr (r, k) ↦ rw k refl ])

pub malloc-refused :
    (arena size : ℕ) (ls : Layout) → rounded size ≡ none → malloc arena size ls ≡ (0, ls)
unfolding malloc
malloc-refused arena size ls e = rw (malloc, e) refl

kmalloc-place :
    (arena size n : ℕ) (s : Heap) (ls : Layout)
    → IsArena arena
    → size < word_mod
    → IsHeap arena s ls
    → rounded size ≡ some n
    → kmalloc arena size s ≡ some (place n (first_at (fits n s.memory) arena ls) s)
unfolding kmalloc allocate_block
kmalloc-place arena size n s ls a lt h e =
    rw
      (
        kmalloc,
        align_request-rounded size lt,
        e,
        passes-IsHeap arena s ls a h,
        allocate_block,
        search-first_at arena s ls (fits n s.memory) a h,
      )
      refl

kmalloc-refused :
    (arena size : ℕ) (s : Heap)
    → size < word_mod
    → rounded size ≡ none
    → kmalloc arena size s ≡ some (0, s)
unfolding kmalloc
kmalloc-refused arena size s lt e = rw (kmalloc, align_request-rounded size lt, e) refl

pub rounded_zero : rounded 0 ≡ none
unfolding rounded
rounded_zero = refl

-- `kmalloc` allocates as the abstract heap does.
pub kmalloc-malloc :
    (arena size : ℕ) (s : Heap) (ls : Layout)
    → IsArena arena
    → size < word_mod
    → IsHeap arena s ls
    → (s' : Heap) × (kmalloc arena size s ≡ some ((malloc arena size ls).0, s'))
      × Leaves arena s s' ls (malloc arena size ls).1
kmalloc-malloc arena size s ls a lt h = elim (Option-cases (rounded size)) [
  | inl none_fits ↦
      rw (malloc-refused arena size ls none_fits)
        (s, kmalloc-refused arena size s lt none_fits, Leaves-self arena s ls h)
  | inr (n, e) ↦
      let (some_bytes, even, le) = rounded_bounds size n e in
      let q = first_at (fits n s.memory) arena ls in
      let (same, leaves) =
        place-Leaves arena n q s ls (allocate n arena ls) a h
          (allocate-Separated n arena ls false h.apart_free)
          (allocate-Fresh n (arena + arena_size) s.memory 0 arena ls h.chain)
          (allocate-Allocated n (arena + arena_size) s.memory 0 arena ls a.ends a.nonnull some_bytes
            even h.chain) in
      rw (malloc-outcome arena size n ls e) (
        (place n q s).1,
        kmalloc-place arena size n s ls a lt h e ∙ ap (λ (x : ℕ). some (x, (place n q s).1)) same,
        leaves,
      )
]

IsFresh-less :
    (end p n k : ℕ) (ls : Layout) (a : ℕ) (ls' : Layout)
    → k ≤ n
    → IsFresh end p n ls a ls'
    → IsFresh end p k ls a ls'
IsFresh-less end p n k ls a ls' le f = record {
  from = f.from;
  upto = omega (arith, f.upto);
  lines = f.lines;
  dead_before = λ x lo hi. f.dead_before x lo (omega arith);
  live_now = λ x lo hi. f.live_now x lo (omega arith);
  live_still = f.live_still;
}

outcome-IsFresh :
    (end p n : ℕ) (ls : Layout) (o : Option (ℕ × Layout))
    → Fresh end p n ls o
    → (outcome o ls).0 ≢ 0
    → IsFresh end p n ls (outcome o ls).0 (outcome o ls).1
outcome-IsFresh end p n ls none f ne = absurd (ne refl)
outcome-IsFresh end p n ls (some (a, ls')) f ne = f

-- The block that a request gets
pub malloc-IsFresh :
    (arena size : ℕ) (s : Heap) (ls : Layout)
    → IsHeap arena s ls
    → (malloc arena size ls).0 ≢ 0
    → IsFresh (arena + arena_size) arena size ls (malloc arena size ls).0 (malloc arena size ls).1
malloc-IsFresh arena size s ls h ne = elim (Option-cases (rounded size)) [
  | inl none_fits ↦
      absurd (ne (ap (λ (r : ℕ × Layout). r.0) (malloc-refused arena size ls none_fits)))
  | inr (n, e) ↦
      let (some_bytes, even, le) = rounded_bounds size n e in
      let is = malloc-outcome arena size n ls e in
      subst (λ (r : ℕ × Layout). IsFresh (arena + arena_size) arena size ls r.0 r.1) (sym is)
        (IsFresh-less (arena + arena_size) arena n size ls _ _ le (
          outcome-IsFresh (arena + arena_size) arena n ls (allocate n arena ls)
            (allocate-Fresh n (arena + arena_size) s.memory 0 arena ls h.chain)
            (λ z. ne (ap (λ (r : ℕ × Layout). r.0) is ∙ z))))
]
