-- ===== src/Heap/Frees.antt =====
-- `kfree` against the list of blocks, and the heap that `kheap_init` makes.
use tinyshell_os.Base.{
  ℕ, ◌+◌, ◌%◌, ◌<◌, ◌≡◌, refl, ap, subst, ◌∙◌, inl, inr, Bool, true, false, not, ◌||◌, Option, none,
  some, [], ◌∷◌, arith, write, loop, Bool-cases, Option-cases, add32, word_mod, ltb, leb, ◌==◌,
}
use tinyshell_os.Heap.{
  release as release_block, arena_size, alignment, header_size, Heap, put_block, first_header,
  block_payload, kfree, init,
}
use tinyshell_os.Heap.Bytes.{Memory}
use tinyshell_os.Heap.Blocks.{put_block_same}
use tinyshell_os.Heap.Layout.{Layout, link, Chain, Chain-le, IsArena, IsHeap}
use tinyshell_os.Heap.Chains.{first_at, live}
use tinyshell_os.Heap.Found.{Released, payload_is, release-Released}
use tinyshell_os.Heap.Lists.{SeparatedAll, release-SeparatedAll, InRange, release-InRange}
use tinyshell_os.Heap.Model.{free_piece, release, free}
use tinyshell_os.Heap.Operations.{passes-IsHeap, search-first_at}

-- Equal tests find the same block.
first_at-ext :
    (f g : ℕ → Bool) (end : ℕ) (m : Memory) (prev p : ℕ) (ls : Layout)
    → end < word_mod
    → ((x : ℕ) → x + header_size < end → f x ≡ g x)
    → Chain m end prev p ls
    → first_at f p ls ≡ first_at g p ls
unfolding first_at
first_at-ext f g end m prev p [] top same c = refl
first_at-ext f g end m prev p (b ∷ bs) top same (is, c) =
    rw
      (
        same p (omega (arith, Chain-le m end p (p + header_size + b.size) bs c, is.enough)),
        first_at-ext f g end m p (p + header_size + b.size) bs top same c,
      )
      refl

abbrev pub told_of : Option Layout → Layout → Bool × Layout
told_of none ls = (false, ls)
told_of (some ls') ls = (true, ls')

-- What a call of `kfree` leaves
pub record Frees (arena : ℕ) (s s' : Heap) (ls' : Layout) : Type 0 where
  pub heap : IsHeap arena s' ls'
  pub kept : (x : ℕ) → live arena ls' x ≡ true → s'.memory x ≡ s.memory x

release-Frees :
    (arena q : ℕ) (s : Heap) (ls : Layout) (o : Option Layout)
    → IsArena arena
    → IsHeap arena s ls
    → SeparatedAll o
    → Released s.memory (arena + arena_size) 0 arena q o
    → ((release_block q s).0 ≡ (told_of o ls).0)
      × Frees arena s (release_block q s).1 (told_of o ls).1
unfolding release_block
release-Frees arena q s ls none a h sep (inl null) =
    rw null (refl, record { heap = h; kept = λ x l. refl })
release-Frees arena q s ls none a h sep (inr is_free) = elim (Bool-cases (q == 0)) [
  | inl null ↦ simp null (refl, record { heap = h; kept = λ x l. refl })
  | inr block ↦ simp (block, is_free) (refl, record { heap = h; kept = λ x l. refl })
]
release-Frees arena q s ls (some ls') a h sep (pos, used, ch) =
    let block : (q == 0) ≡ false = ground arith in
    simp (block, used)
      (
        refl,
        record {
          heap = record { ready = h.ready; first = h.first; chain = ch.chain; apart_free = sep };
          kept = ch.kept;
        },
      )

pub free-told : (arena a : ℕ) (ls : Layout) → free arena a ls ≡ told_of (release a arena ls) ls
unfolding free
free-told arena a ls = elim (Option-cases (release a arena ls)) [
  | inl e ↦ rw (free, e) refl
  | inr (ls', e) ↦ rw (free, e) refl
]

-- An address that `kfree` refuses at once is no payload's.
out_of_range :
    (arena a : ℕ) (s : Heap) (ls : Layout)
    → IsArena arena
    → IsHeap arena s ls
    → (a == 0
        || (ltb a (add32 arena header_size)
            || (leb (add32 arena arena_size) a || not (a % alignment == 0))))
      ≡ true
    → release a arena ls ≡ none
out_of_range arena a s ls r h bad = elim (Option-cases (release a arena ls)) [
  | inl e ↦ e
  | inr (ls', e) ↦
      let (lo, hi, al) : InRange (arena + arena_size) arena a (some ls') =
        subst (InRange (arena + arena_size) arena a) e
          (release-InRange a (arena + arena_size) s.memory 0 arena ls h.chain) in
      absurd (ground (arith, r.ends, r.lines_up))
]

kfree-refused :
    (arena a : ℕ) (s : Heap)
    → (a == 0
        || (ltb a (add32 arena header_size)
            || (leb (add32 arena arena_size) a || not (a % alignment == 0))))
      ≡ true
    → kfree arena a s ≡ some (false, s)
unfolding kfree
kfree-refused arena a s bad = ground arith

kfree-released :
    (arena a : ℕ) (s : Heap) (ls : Layout)
    → IsArena arena
    → IsHeap arena s ls
    → (a == 0
        || (ltb a (add32 arena header_size)
            || (leb (add32 arena arena_size) a || not (a % alignment == 0))))
      ≡ false
    → kfree arena a s ≡ some (release_block (first_at (payload_is a) arena ls) s)
unfolding kfree
kfree-released arena a s ls r h good =
    let ok : (a == 0
          || (ltb a (add32 arena header_size)
              || (leb (add32 arena arena_size) a || (not (a % alignment == 0) || not true))))
        ≡ false =
      ground arith in
    let same : first_at (λ p. block_payload p == a) arena ls ≡ first_at (payload_is a) arena ls =
      first_at-ext (λ p. block_payload p == a) (payload_is a) (arena + arena_size) s.memory 0 arena
        ls r.ends
        (λ x lt. let e : block_payload x ≡ x + header_size = omega (arith, r.ends) in rw e refl)
        h.chain in
    rw
      (
        kfree,
        passes-IsHeap arena s ls r h,
        ok,
        search-first_at arena s ls (λ p. block_payload p == a) r h,
        same,
      )
      refl

-- `kfree` releases as the abstract heap does.
pub kfree-free :
    (arena a : ℕ) (s : Heap) (ls : Layout)
    → IsArena arena
    → IsHeap arena s ls
    → (s' : Heap) × (kfree arena a s ≡ some ((free arena a ls).0, s'))
      × Frees arena s s' (free arena a ls).1
kfree-free arena a s ls r h =
    elim (Bool-cases (
      a == 0
      || (ltb a (add32 arena header_size)
          || (leb (add32 arena arena_size) a || not (a % alignment == 0))))) [
            | inl bad ↦
                rw (free-told arena a ls, out_of_range arena a s ls r h bad)
                  (s, kfree-refused arena a s bad, record { heap = h; kept = λ x l. refl })
            | inr good ↦
                let q = first_at (payload_is a) arena ls in
                let (same, frees) =
                  release-Frees arena q s ls (release a arena ls) r h
                    (release-SeparatedAll a arena ls false h.apart_free)
                    (release-Released a (arena + arena_size) s.memory 0 arena ls false r.ends
                      r.nonnull h.apart_free (λ e. inl refl) h.chain) in
                rw (free-told arena a ls) (
                  (release_block q s).1,
                  kfree-released arena a s ls r h good
                      ∙ ap (λ (x : Bool). some (x, (release_block q s).1)) same,
                  frees,
                )
          ]

-- One free block fills the arena.
abbrev pub whole_arena : Layout
whole_arena = free_piece 262112 ∷ []

init_memory :
    (arena : ℕ) (m : Memory)
    → IsArena arena
    → Chain (put_block arena first_header m) (arena + arena_size) 0 arena whole_arena
init_memory arena m a =
    let at_end : link (arena + arena_size) (arena + header_size + 262112) ≡ 0 = ground arith in
    (
      record {
        header = put_block_same arena first_header m (omega arith) ∙ rw at_end refl;
        enough = omega arith;
        whole = omega arith;
      },
      omega arith,
    )

-- `kheap_init` leaves one free block.
pub init-IsHeap :
    (arena : ℕ) (s : Heap)
    → IsArena arena
    → ((init arena s).0 ≡ true) × IsHeap arena (init arena s).1 whole_arena
unfolding init
init-IsHeap arena s a =
    let made : Heap = record {
      memory =
          put_block arena first_header
            (loop arena_size (λ index m. write m (arena + index) 0) s.memory);
      first_block = arena;
      heap_initialized = true;
    } in
    let h : IsHeap arena made whole_arena = record {
      ready = refl;
      first = refl;
      chain = init_memory arena _ a;
      apart_free = refl;
    } in
    rw (passes-IsHeap arena made whole_arena a h) (refl, h)
