-- ===== src/Heap/Fresh.antt =====
-- The bytes that a request takes from the list of blocks.
use tinyshell_os.Base.{
  ℕ, ◌+◌, ◌-◌, ◌%◌, ◌≤◌, ◌<◌, ◌≡◌, ◌∙◌, inl, inr, true, false, ◌&&◌, ◌||◌, Option, none, some, [],
  ◌∷◌, arith, Bool-cases, leb,
}
use tinyshell_os.Heap.{alignment, header_size}
use tinyshell_os.Heap.Bytes.{Memory}
use tinyshell_os.Heap.Blocks.{block_at-ext}
use tinyshell_os.Heap.Layout.{Piece, Layout, Chain, Chain-le}
use tinyshell_os.Heap.Chains.{in_payload, live, live-le}
use tinyshell_os.Heap.Model.{carve, keep, allocate}

-- Writes into the payloads of allocated blocks leave the chain.
pub Chain-live :
    (m m' : Memory) (end prev p : ℕ) (ls : Layout)
    → ((x : ℕ) → p ≤ x → live p ls x ≡ false → m' x ≡ m x)
    → Chain m end prev p ls
    → Chain m' end prev p ls
unfolding live
Chain-live m m' end prev p [] same c = c
Chain-live m m' end prev p (b ∷ bs) same (is, c) = (
  record {
    header = block_at-ext m' m p (λ x lo hi. same x lo (header_dead x hi)) ∙ is.header;
    enough = is.enough;
    whole = is.whole;
  },
  Chain-live m m' end p (p + header_size + b.size) bs
      (λ x lo dead. same x (omega arith) (rw dead (ground arith))) c,
)
  where
    header_dead :
        (x : ℕ) → x < p + 20 → (in_payload p b x || live (p + header_size + b.size) bs x) ≡ false
    header_dead x hi = ground (arith, live-le (p + header_size + b.size) bs x)

-- The block that is allocated: its bytes were in no payload, and all others stay where they were.
pub record IsFresh (end p n : ℕ) (ls : Layout) (a : ℕ) (ls' : Layout) : Type 0 where
  pub from : p + header_size ≤ a
  pub upto : a + n ≤ end
  pub lines : a % alignment ≡ p % alignment
  pub dead_before : (x : ℕ) → a ≤ x → x < a + n → live p ls x ≡ false
  pub live_now : (x : ℕ) → a ≤ x → x < a + n → live p ls' x ≡ true
  pub live_still : (x : ℕ) → live p ls x ≡ true → live p ls' x ≡ true

abbrev pub Fresh : ℕ → ℕ → ℕ → Layout → Option (ℕ × Layout) → Type 0
Fresh end p n ls none = Unit {0}
Fresh end p n ls (some (a, ls')) = IsFresh end p n ls a ls'

carve-IsFresh :
    (end n p : ℕ) (b : Piece) (bs : Layout)
    → b.free ≡ true
    → n ≤ b.size
    → p + header_size + b.size ≤ end
    → IsFresh end p n (b ∷ bs) (p + header_size) (carve n b bs)
unfolding carve live
carve-IsFresh end n p b bs f few le = elim (Bool-cases (leb (n + 48) b.size)) [
  | inl large ↦
      let same : p + header_size + n + header_size + (b.size - n - header_size)
          ≡ p + header_size + b.size =
        ground arith in
      rw large (record {
        from = omega arith;
        upto = omega arith;
        lines = omega arith;
        dead_before = λ x lo hi. ground (arith, live-le (p + header_size + b.size) bs x);
        live_now = λ x lo hi. ground arith;
        live_still = λ x h. rw same (ground arith);
      })
  | inr small ↦ rw small (record {
    from = omega arith;
    upto = omega arith;
    lines = omega arith;
    dead_before = λ x lo hi. ground (arith, live-le (p + header_size + b.size) bs x);
    live_now = λ x lo hi. ground arith;
    live_still = λ x h. ground arith;
  })
]

Fresh-keep :
    (end n p : ℕ) (b : Piece) (bs : Layout) (o : Option (ℕ × Layout))
    → b.size % alignment ≡ 0
    → Fresh end (p + header_size + b.size) n bs o
    → Fresh end p n (b ∷ bs) (keep b o)
unfolding live
Fresh-keep end n p b bs none w h = tt
Fresh-keep end n p b bs (some (a, ls')) w h = record {
  from = omega (arith, h.from);
  upto = h.upto;
  lines = omega (arith, h.lines);
  dead_before = λ x lo hi. ground (arith, h.dead_before x lo hi, h.from);
  live_now = λ x lo hi. ground (arith, h.live_now x lo hi);
  live_still = λ x l. ground (arith, h.live_still x);
}

pub allocate-Fresh :
    (n end : ℕ) (m : Memory) (prev p : ℕ) (ls : Layout)
    → Chain m end prev p ls
    → Fresh end p n ls (allocate n p ls)
unfolding allocate
allocate-Fresh n end m prev p [] c = tt
allocate-Fresh n end m prev p (b ∷ bs) (is, c) = elim (Bool-cases (b.free && leb n b.size)) [
  | inl hit ↦ rw hit (
      carve-IsFresh end n p b bs (ground arith) (ground arith)
        (Chain-le m end p (p + header_size + b.size) bs c))
  | inr miss ↦ rw miss (
      Fresh-keep end n p b bs (allocate n (p + header_size + b.size) bs) is.whole
        (allocate-Fresh n end m p (p + header_size + b.size) bs c))
]
