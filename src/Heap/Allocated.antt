-- ===== src/Heap/Allocated.antt =====
-- The search of `kmalloc` of kernel/mm/heap.c, and the block that it takes.
use tinyshell_os.Base.{
  ℕ, ◌+◌, ◌%◌, ◌≤◌, ◌<◌, ◌≡◌, refl, inl, inr, ◌&&◌, Option, none, some, [], ◌∷◌, arith, Bool-cases,
  word_mod, leb,
}
use tinyshell_os.Heap.{alignment, header_size, fits}
use tinyshell_os.Heap.Bytes.{Memory}
use tinyshell_os.Heap.Layout.{Piece, Layout, IsBlock, Chain}
use tinyshell_os.Heap.Chains.{first_at, Changed, Changed-cons}
use tinyshell_os.Heap.Model.{keep, allocate}
use tinyshell_os.Heap.Allocate.{placed, placed-head}

-- The block at `q` is the one that the abstract heap allocates.
abbrev pub Allocated : Memory → ℕ → ℕ → ℕ → ℕ → Layout → ℕ → Option (ℕ × Layout) → Type 0
Allocated m end prev p n ls q none = q ≡ 0
Allocated m end prev p n ls q (some (a, ls')) =
    (a ≡ q + header_size) × Changed m (placed q n m) end prev p q ls ls'

fits_header :
    (m : Memory) (end prev p n : ℕ) (b : Piece)
    → IsBlock m end prev p b
    → fits n m p ≡ (b.free && leb n b.size)
fits_header m end prev p n b is =
    rw is.header (elim (Bool-cases b.free) [ inl f ↦ simp f | inr f ↦ simp f ])

Allocated-keep :
    (m : Memory) (end prev p n q : ℕ) (b : Piece) (bs : Layout) (o : Option (ℕ × Layout))
    → IsBlock m end prev p b
    → Allocated m end p (p + header_size + b.size) n bs q o
    → Allocated m end prev p n (b ∷ bs) q (keep b o)
Allocated-keep m end prev p n q b bs none is h = h
Allocated-keep m end prev p n q b bs (some (a, ls')) is (e, h) =
    (e, Changed-cons m (placed q n m) end prev p q b bs ls' is h)

pub allocate-Allocated :
    (n end : ℕ) (m : Memory) (prev p : ℕ) (ls : Layout)
    → end < word_mod
    → 0 < p
    → alignment ≤ n
    → n % alignment ≡ 0
    → Chain m end prev p ls
    → Allocated m end prev p n ls (first_at (fits n m) p ls) (allocate n p ls)
unfolding first_at allocate
allocate-Allocated n end m prev p [] top pos some_bytes even c = refl
allocate-Allocated n end m prev p (b ∷ bs) top pos some_bytes even (is, c) =
    elim (Bool-cases (b.free && leb n b.size)) [
      | inl hit ↦
          rw (fits_header m end prev p n b is, hit)
            (refl, placed-head n end prev p b bs m top pos some_bytes even (is, c) hit)
      | inr miss ↦
          rw (fits_header m end prev p n b is, miss)
            (Allocated-keep m end prev p n _ b bs _ is (
              allocate-Allocated n end m p (p + header_size + b.size) bs top (omega arith)
                some_bytes even c))
    ]
