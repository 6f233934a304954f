-- ===== src/Heap/Chains.antt =====
-- Chains of blocks under writes elsewhere, and the search along a chain.
use tinyshell_os.Base.{
  ℕ, zero, suc, ◌+◌, ◌≤◌, ◌<◌, ◌≡◌, refl, ap, ◌∙◌, inl, inr, Bool, true, false, not, ◌&&◌, ◌||◌,
  some, [], ◌∷◌, length, arith, Bool-cases, ltb, leb, ◌==◌, if◌then◌else◌,
}
use tinyshell_os.Heap.{header_size, Block, block_at, find_block}
use tinyshell_os.Heap.Bytes.{Memory}
use tinyshell_os.Heap.Blocks.{block_at-ext}
use tinyshell_os.Heap.Layout.{Piece, Layout, link, IsBlock, Chain, Chain-le}

-- A chain only depends on the bytes from its first block on.
pub Chain-frame :
    (m m' : Memory) (end prev p : ℕ) (ls : Layout)
    → ((a : ℕ) → p ≤ a → m' a ≡ m a)
    → Chain m end prev p ls
    → Chain m' end prev p ls
Chain-frame m m' end prev p [] same c = c
Chain-frame m m' end prev p (b ∷ bs) same (is, c) = (
  record {
    header = block_at-ext m' m p (λ a lo hi. same a lo) ∙ is.header;
    enough = is.enough;
    whole = is.whole;
  },
  Chain-frame m m' end p (p + header_size + b.size) bs (λ a lo. same a (omega arith)) c,
)

-- A block whose header is kept
pub IsBlock-frame :
    (m m' : Memory) (end prev p : ℕ) (b : Piece)
    → ((a : ℕ) → p ≤ a → a < p + 20 → m' a ≡ m a)
    → IsBlock m end prev p b
    → IsBlock m' end prev p b
IsBlock-frame m m' end prev p b same is = record {
  header = block_at-ext m' m p same ∙ is.header;
  enough = is.enough;
  whole = is.whole;
}

-- A chain whose first block, if it has one, gets another predecessor
pub Chain-relink :
    (m m' : Memory) (end prev prev' p : ℕ) (ls : Layout)
    → (p < end → block_at m' p ≡ record (block_at m p) { previous = prev' })
    → ((a : ℕ) → p + 20 ≤ a → m' a ≡ m a)
    → Chain m end prev p ls
    → Chain m' end prev' p ls
Chain-relink m m' end prev prev' p [] head same c = c
Chain-relink m m' end prev prev' p (b ∷ bs) head same (is, c) =
    let lt : p < end = omega (arith, Chain-le m end p (p + header_size + b.size) bs c) in
    (
      record {
        header = head lt ∙ ap (λ (h : Block). record h { previous = prev' }) is.header;
        enough = is.enough;
        whole = is.whole;
      },
      Chain-frame m m' end p (p + header_size + b.size) bs (λ a lo. same a (omega arith)) c,
    )

-- The address of the first block that passes the test, or 0
unfoldable pub first_at : (ℕ → Bool) → ℕ → Layout → ℕ
first_at test p [] = 0
first_at test p (b ∷ bs) =
    let rest = first_at test (p + header_size + b.size) bs in if test p then p else rest

-- The search along a chain ends, with more rounds than there are blocks.
pub find_block-first_at :
    (n : ℕ) (test : ℕ → Bool) (m : Memory) (end prev p : ℕ) (ls : Layout)
    → 0 < p
    → length ls < n
    → Chain m end prev p ls
    → find_block n test (link end p) m ≡ some (first_at test p ls)
unfolding find_block first_at
find_block-first_at zero test m end prev p ls pos rounds c = absurd (omega arith)
find_block-first_at (suc n) test m end prev p [] pos rounds c =
    let e : (p == end) ≡ true = ground arith in rw e refl
find_block-first_at (suc n) test m end prev p (b ∷ bs) pos rounds (is, c) =
    let le = Chain-le m end p (p + header_size + b.size) bs c in
    let e : (p == end) ≡ false = ground arith in
    let ne : (p == 0) ≡ false = ground arith in
    rw (e, ne)
      (elim (Bool-cases (test p)) [
        | inl hit ↦ rw hit refl
        | inr miss ↦
            rw (miss, ap (λ (h : Block). h.next) is.header)
              (find_block-first_at n test m end p (p + header_size + b.size) bs (omega arith)
                (omega arith) c)
      ])

-- The byte lies in the payload of an allocated block.
abbrev pub in_payload : ℕ → Piece → ℕ → Bool
in_payload p b a = not b.free && (leb (p + header_size) a && ltb a (p + header_size + b.size))

unfoldable pub live : ℕ → Layout → ℕ → Bool
live p [] a = false
live p (b ∷ bs) a = in_payload p b a || live (p + header_size + b.size) bs a

pub live-le : (p : ℕ) (ls : Layout) (a : ℕ) → live p ls a ≡ true → p + header_size ≤ a
unfolding live
live-le p [] a h = cc
live-le p (b ∷ bs) a h = ground (arith, live-le (p + header_size + b.size) bs a)

-- The memory `m'` has the blocks `ls'` from `p` on, and is `m` before `q` and in the payloads of the
-- allocated blocks of `ks`.
pub record Changed (m m' : Memory) (end prev p q : ℕ) (ks ls' : Layout) : Type 0 where
  pub chain : Chain m' end prev p ls'
  pub behind : p ≤ q
  pub before : (a : ℕ) → a < q → m' a ≡ m a
  pub kept : (a : ℕ) → live p ks a ≡ true → m' a ≡ m a

pub Changed-cons :
    (m m' : Memory) (end prev p q : ℕ) (b : Piece) (ks ls' : Layout)
    → IsBlock m end prev p b
    → Changed m m' end p (p + header_size + b.size) q ks ls'
    → Changed m m' end prev p q (b ∷ ks) (b ∷ ls')
unfolding live
Changed-cons m m' end prev p q b ks ls' is h = record {
  chain = (
    IsBlock-frame m m' end prev p b (λ a lo hi. h.before a (omega (arith, h.behind, is.enough))) is,
    h.chain,
  );
  behind = omega (arith, h.behind);
  before = h.before;
  kept = λ a l. elim (Bool-cases (in_payload p b a)) [
    | inl own ↦ h.before a (ground (arith, h.behind))
    | inr other ↦ h.kept a (rw other at l)
  ];
}
