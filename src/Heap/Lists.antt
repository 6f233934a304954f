-- ===== src/Heap/Lists.antt =====
-- The lists of blocks under allocation and release.
use mathlib.Core.Option as Opt
use tinyshell_os.Base.{
  ℕ, ◌+◌, ◌%◌, ◌≤◌, ◌<◌, ◌≡◌, refl, ◌∙◌, inl, inr, Bool, true, false, not, ◌&&◌, Option, none, some,
  [], ◌∷◌, arith, Bool-cases, leb, ◌==◌,
}
use tinyshell_os.Heap.{alignment, header_size}
use tinyshell_os.Heap.Bytes.{Memory}
use tinyshell_os.Heap.Layout.{Piece, Layout, Chain, Chain-le, separated}
use tinyshell_os.Heap.Release.{join_both, join_first, join_used, join_none}
use tinyshell_os.Heap.Model.{free_piece, carve, keep, allocate, join, release}

-- No two free blocks become neighbours.
carve-separated :
    (n : ℕ) (b : Piece) (bs : Layout) (w : Bool)
    → separated w (b ∷ bs) ≡ true
    → b.free ≡ true
    → separated w (carve n b bs) ≡ true
unfolding carve
carve-separated n b bs w s f = elim (Bool-cases (leb (n + 48) b.size)) [
  | inl large ↦ rw large (ground arith)
  | inr small ↦ rw small (weaker bs (ground arith))
]
  where
    weaker :
        (cs : Layout) → separated true cs ≡ true → (not (w && false) && separated false cs) ≡ true
    weaker [] h = ground arith
    weaker (c ∷ cs) h = ground arith

abbrev pub Separated : Bool → Option (ℕ × Layout) → Type 0
Separated w none = Unit {0}
Separated w (some (a, ls)) = separated w ls ≡ true

Separated-keep :
    (w : Bool) (b : Piece) (o : Option (ℕ × Layout))
    → (w && b.free) ≡ false
    → Separated b.free o
    → Separated w (keep b o)
Separated-keep w b none h s = tt
Separated-keep w b (some (a, ls)) h s = rw (h, s) refl

pub allocate-Separated :
    (n p : ℕ) (ls : Layout) (w : Bool) → separated w ls ≡ true → Separated w (allocate n p ls)
unfolding allocate
allocate-Separated n p [] w s = tt
allocate-Separated n p (b ∷ bs) w s = elim (Bool-cases (b.free && leb n b.size)) [
  | inl hit ↦ rw hit (carve-separated n b bs w s (ground arith))
  | inr miss ↦ rw miss (
      Separated-keep w b (allocate n (p + header_size + b.size) bs) (ground arith)
        (allocate-Separated n (p + header_size + b.size) bs b.free (ground arith)))
]

weaken-separated : (ls : Layout) (w : Bool) → separated w ls ≡ true → separated false ls ≡ true
weaken-separated [] w s = refl
weaken-separated (b ∷ bs) w s = ground arith

join-separated :
    (b : Piece) (ls : Layout) → separated false ls ≡ true → separated false (join b ls) ≡ true
join-separated b [] s = rw (join_none b) (ground arith)
join-separated b (c ∷ cs) s = elim (Bool-cases b.free) [
  | inr used ↦ rw (join_used b (c ∷ cs) used) (simp used s)
  | inl f ↦ elim (Bool-cases c.free) [
    | inl both ↦ rw (join_both b c cs f both) (ground arith)
    | inr one ↦ rw (join_first b c cs one) (ground arith)
  ]
]

abbrev pub SeparatedAll : Option Layout → Type 0
SeparatedAll none = Unit {0}
SeparatedAll (some ls) = separated false ls ≡ true

SeparatedAll-join :
    (b : Piece) (o : Option Layout) → SeparatedAll o → SeparatedAll (Opt.map (join b) o)
SeparatedAll-join b none s = tt
SeparatedAll-join b (some ls) s = join-separated b ls s

pub release-SeparatedAll :
    (a p : ℕ) (ls : Layout) (w : Bool) → separated w ls ≡ true → SeparatedAll (release a p ls)
unfolding release
release-SeparatedAll a p [] w s = tt
release-SeparatedAll a p (b ∷ bs) w s = elim (Bool-cases (p + header_size == a)) [
  | inl hit ↦ elim (Bool-cases b.free) [
    | inl f ↦ simp (hit, f) tt
    | inr f ↦
        simp (hit, f)
          (join-separated (free_piece b.size) bs (weaken-separated bs b.free (ground arith)))
  ]
  | inr miss ↦ rw miss (
      SeparatedAll-join b (release a (p + header_size + b.size) bs)
        (release-SeparatedAll a (p + header_size + b.size) bs b.free (ground arith)))
]

-- Where a block that is released lies
abbrev pub InRange : ℕ → ℕ → ℕ → Option Layout → Type 0
InRange end p a none = Unit {0}
InRange end p a (some ls) = (p + header_size ≤ a) × (a < end) × (a % alignment ≡ p % alignment)

InRange-join :
    (end p q a : ℕ) (b : Piece) (o : Option Layout)
    → p ≤ q
    → q % alignment ≡ p % alignment
    → InRange end q a o
    → InRange end p a (Opt.map (join b) o)
InRange-join end p q a b none le e h = tt
InRange-join end p q a b (some ls) le e (lo, hi, al) = (omega arith, hi, al ∙ e)

pub release-InRange :
    (a end : ℕ) (m : Memory) (prev p : ℕ) (ls : Layout)
    → Chain m end prev p ls
    → InRange end p a (release a p ls)
unfolding release
release-InRange a end m prev p [] c = tt
release-InRange a end m prev p (b ∷ bs) (is, c) = elim (Bool-cases (p + header_size == a)) [
  | inl hit ↦
      let e : p + header_size ≡ a = ground arith in
      let le = Chain-le m end p (p + header_size + b.size) bs c in
      elim (Bool-cases b.free) [
        | inl f ↦ simp (hit, f) tt
        | inr f ↦ simp (hit, f) (omega arith, omega (arith, is.enough), omega arith)
      ]
  | inr miss ↦ rw miss (
      InRange-join end p (p + header_size + b.size) a b _ (omega arith) (omega (arith, is.whole))
        (release-InRange a end m p (p + header_size + b.size) bs c))
]
