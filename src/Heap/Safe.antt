-- ===== src/Heap/Safe.antt =====
-- What one call of kernel/mm/heap.c does to the payloads of its clients.
use tinyshell_os.Base.{
  ℕ, ◌+◌, ◌*◌, ◌%◌, ◌≤◌, ◌<◌, ◌≡◌, ◌≢◌, refl, ap, sym, subst, ◌∙◌, ◌⊎◌, inl, inr, true, Option,
  none, some, arith, Bool-cases, Option-cases, word_mod, leb, ◌==◌,
}
use tinyshell_os.Heap.{arena_size, alignment, Heap, kmalloc, kcalloc}
use tinyshell_os.Heap.Layout.{Layout, IsArena, IsHeap}
use tinyshell_os.Heap.Chains.{live}
use tinyshell_os.Heap.Fresh.{IsFresh, Fresh, allocate-Fresh}
use tinyshell_os.Heap.Model.{rounded, allocate, malloc, calloc}
use tinyshell_os.Heap.Operations.{
  outcome, malloc-outcome, malloc-refused, kmalloc-malloc, malloc-IsFresh,
}
use tinyshell_os.Heap.Zeroed.{kcalloc-calloc, calloc-malloc, calloc-refused}

outcome-null :
    (end p n : ℕ) (ls : Layout) (o : Option (ℕ × Layout))
    → Fresh end p n ls o
    → (outcome o ls).0 ≡ 0
    → (outcome o ls).1 ≡ ls
outcome-null end p n ls none f e = refl
outcome-null end p n ls (some (a, ls')) f e = absurd (omega (arith, f.from))

malloc-null :
    (arena size : ℕ) (s : Heap) (ls : Layout)
    → IsHeap arena s ls
    → (malloc arena size ls).0 ≡ 0
    → (malloc arena size ls).1 ≡ ls
malloc-null arena size s ls h e = elim (Option-cases (rounded size)) [
  | inl none_fits ↦ ap (λ (r : ℕ × Layout). r.1) (malloc-refused arena size ls none_fits)
  | inr (n, k) ↦
      let is = malloc-outcome arena size n ls k in
      ap (λ (r : ℕ × Layout). r.1) is
      ∙ outcome-null (arena + arena_size) arena n ls (allocate n arena ls)
          (allocate-Fresh n (arena + arena_size) s.memory 0 arena ls h.chain)
          (sym (ap (λ (r : ℕ × Layout). r.0) is) ∙ e)
]

-- The outcome of a request of `size` bytes: the blocks that are left, and what the result is
pub record Gets (arena size a : ℕ) (s s' : Heap) (ls ls' : Layout) : Type 0 where
  pub heap : IsHeap arena s' ls'
  pub null_or_fresh :
      ((a ≡ 0) × (ls' ≡ ls))
      ⊎ ((a % alignment ≡ 0) × IsFresh (arena + arena_size) arena size ls a ls')
  pub payloads_kept : (x : ℕ) → live arena ls x ≡ true → s'.memory x ≡ s.memory x

-- In a heap of the blocks `ls`, in an aligned arena that is not at address 0 and ends below 2^32, a
-- call of `kmalloc` with a 32-bit size ends and leaves a heap of blocks. Its result is NULL, with the
-- same blocks, or the aligned address of `size` bytes of the arena that were in no allocated payload
-- and are in one now, all others being still allocated. No byte of a payload that was allocated
-- before is changed.
pub kmalloc-Gets :
    (arena size : ℕ) (s : Heap) (ls : Layout)
    → IsArena arena
    → size < word_mod
    → IsHeap arena s ls
    → (a : ℕ) × (s' : Heap) × (ls' : Layout) × (kmalloc arena size s ≡ some (a, s'))
      × Gets arena size a s s' ls ls'
kmalloc-Gets arena size s ls r lt h =
    let (s', e, l) = kmalloc-malloc arena size s ls r lt h in
    (
      (malloc arena size ls).0,
      s',
      (malloc arena size ls).1,
      e,
      record {
        heap = l.heap;
        null_or_fresh = elim (Bool-cases ((malloc arena size ls).0 == 0)) [
          | inl null ↦
              let z : (malloc arena size ls).0 ≡ 0 = ground arith in
              inl (z, malloc-null arena size s ls h z)
          | inr block ↦
              let f = malloc-IsFresh arena size s ls h (ground arith) in
              inr (f.lines ∙ r.lines_up, f)
        ];
        payloads_kept = l.kept;
      },
    )

-- In a heap of the blocks `ls`, a call of `kcalloc` ends and leaves a heap of blocks. A result that
-- is not NULL is the address of `count * size` bytes, a product below 2^32, that were in no allocated
-- payload, are in one now and are all zero. No byte of a payload that was allocated before is changed.
pub kcalloc-zero :
    (arena count size : ℕ) (s : Heap) (ls : Layout)
    → IsArena arena
    → IsHeap arena s ls
    → (a : ℕ) × (s' : Heap) × (ls' : Layout) × (kcalloc arena count size s ≡ some (a, s'))
      × IsHeap arena s' ls'
      × (a ≢ 0
          → (count * size < word_mod)
            × IsFresh (arena + arena_size) arena (count * size) ls a ls'
            × ((x : ℕ) → a ≤ x → x < a + count * size → s'.memory x ≡ 0))
      × ((x : ℕ) → live arena ls x ≡ true → s'.memory x ≡ s.memory x)
kcalloc-zero arena count size s ls r h =
    let (s', e, c) = kcalloc-calloc arena count size s ls r h in
    (
      (calloc arena count size ls).0,
      s',
      (calloc arena count size ls).1,
      e,
      c.leaves.heap,
      λ ne. elim (Bool-cases (leb word_mod (count * size))) [
        | inl over ↦
            absurd
              (ne (ap (λ (q : ℕ × Layout). q.0) (calloc-refused arena count size ls (inl over))))
        | inr good ↦
            let is = calloc-malloc arena count size ls (ground arith) in
            (
              ground arith,
              subst
                  (λ (q : ℕ × Layout). IsFresh (arena + arena_size) arena (count * size) ls q.0 q.1)
                  (sym is)
                  (malloc-IsFresh arena (count * size) s ls h
                    (λ z. ne (ap (λ (q : ℕ × Layout). q.0) is ∙ z))),
              c.zero_bytes ne,
            )
      ],
      c.leaves.kept,
    )
