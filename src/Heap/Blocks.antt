-- ===== src/Heap/Blocks.antt =====
-- What writes to one block of the heap do to the others.
use tinyshell_os.Base.{
  ℕ, ◌+◌, ◌≤◌, ◌<◌, ◌≡◌, refl, ◌∙◌, inl, inr, Bool, true, false, ◌||◌, arith, Bool-cases, word_mod,
  ltb, leb, ◌==◌,
}
use tinyshell_os.Heap.{
  Block, block_at, set_state, set_payload_size, set_previous, set_next, put_block, relink,
}
use tinyshell_os.Heap.Bytes.{Memory, load32, store32, load32-store32, store32-outside, load32-ext}

-- The bytes of two headers do not meet.
abbrev pub apart : ℕ → ℕ → Bool
apart p q = leb (p + 20) q || leb (q + 20) p

-- A byte outside of the header at `p`
abbrev pub outside : ℕ → ℕ → Bool
outside p a = ltb a p || leb (p + 20) a

pub record IsWords (b : Block) : Type 0 where
  pub magic_fits : b.magic < word_mod
  pub state_fits : b.state < word_mod
  pub size_fits : b.payload_size < word_mod
  pub previous_fits : b.previous < word_mod
  pub next_fits : b.next < word_mod

pub Block-eq :
    (b c : Block)
    → b.magic ≡ c.magic
    → b.state ≡ c.state
    → b.payload_size ≡ c.payload_size
    → b.previous ≡ c.previous
    → b.next ≡ c.next
    → b ≡ c
Block-eq b c e f g h k = ground arith

-- A block is read from the twenty bytes of its header.
pub block_at-ext :
    (m m' : Memory) (p : ℕ)
    → ((a : ℕ) → p ≤ a → a < p + 20 → m a ≡ m' a)
    → block_at m p ≡ block_at m' p
unfolding block_at
block_at-ext m m' p same =
    Block-eq (block_at m p) (block_at m' p) (word p (omega arith) (omega arith))
      (word (p + 4) (omega arith) (omega arith)) (word (p + 8) (omega arith) (omega arith))
      (word (p + 12) (omega arith) (omega arith)) (word (p + 16) (omega arith) (omega arith))
  where
    word : (q : ℕ) → p ≤ q → q + 4 ≤ p + 20 → load32 m q ≡ load32 m' q
    word q lo hi =
        load32-ext m m' q (same q lo (omega arith)) (same (q + 1) (omega arith) (omega arith))
          (same (q + 2) (omega arith) (omega arith)) (same (q + 3) (omega arith) (omega arith))

-- A word that is written apart from a word
other_word :
    (p q v : ℕ) (m : Memory)
    → (leb (p + 4) q || leb (q + 4) p) ≡ true
    → load32 (store32 p v m) q ≡ load32 m q
other_word p q v m h =
    load32-ext (store32 p v m) m q (store32-outside p v q m (ground arith))
      (store32-outside p v (q + 1) m (ground arith)) (store32-outside p v (q + 2) m (ground arith))
      (store32-outside p v (q + 3) m (ground arith))

module _ (p v : ℕ) (m : Memory) (lt : v < word_mod) where
  pub set_state_same : block_at (set_state p v m) p ≡ record (block_at m p) { state = v }
  unfolding block_at set_state
  set_state_same =
      Block-eq _ _ (other_word (p + 4) p v m (ground arith)) (load32-store32 (p + 4) v m lt)
        (other_word (p + 4) (p + 8) v m (ground arith))
        (other_word (p + 4) (p + 12) v m (ground arith))
        (other_word (p + 4) (p + 16) v m (ground arith))

  pub set_payload_size_same :
      block_at (set_payload_size p v m) p ≡ record (block_at m p) { payload_size = v }
  unfolding block_at set_payload_size
  set_payload_size_same =
      Block-eq _ _ (other_word (p + 8) p v m (ground arith))
        (other_word (p + 8) (p + 4) v m (ground arith)) (load32-store32 (p + 8) v m lt)
        (other_word (p + 8) (p + 12) v m (ground arith))
        (other_word (p + 8) (p + 16) v m (ground arith))

  pub set_previous_same : block_at (set_previous p v m) p ≡ record (block_at m p) { previous = v }
  unfolding block_at set_previous
  set_previous_same =
      Block-eq _ _ (other_word (p + 12) p v m (ground arith))
        (other_word (p + 12) (p + 4) v m (ground arith))
        (other_word (p + 12) (p + 8) v m (ground arith)) (load32-store32 (p + 12) v m lt)
        (other_word (p + 12) (p + 16) v m (ground arith))

  pub set_next_same : block_at (set_next p v m) p ≡ record (block_at m p) { next = v }
  unfolding block_at set_next
  set_next_same =
      Block-eq _ _ (other_word (p + 16) p v m (ground arith))
        (other_word (p + 16) (p + 4) v m (ground arith))
        (other_word (p + 16) (p + 8) v m (ground arith))
        (other_word (p + 16) (p + 12) v m (ground arith)) (load32-store32 (p + 16) v m lt)

-- Bytes outside of the header are left.
module _ (p v a : ℕ) (m : Memory) (out : outside p a ≡ true) where
  pub set_state_outside : set_state p v m a ≡ m a
  unfolding set_state
  set_state_outside = store32-outside (p + 4) v a m (ground arith)

  pub set_payload_size_outside : set_payload_size p v m a ≡ m a
  unfolding set_payload_size
  set_payload_size_outside = store32-outside (p + 8) v a m (ground arith)

  pub set_previous_outside : set_previous p v m a ≡ m a
  unfolding set_previous
  set_previous_outside = store32-outside (p + 12) v a m (ground arith)

  pub set_next_outside : set_next p v m a ≡ m a
  unfolding set_next
  set_next_outside = store32-outside (p + 16) v a m (ground arith)

pub put_block_outside :
    (p : ℕ) (b : Block) (a : ℕ) (m : Memory) → outside p a ≡ true → put_block p b m a ≡ m a
unfolding put_block
put_block_outside p b a m out =
    set_next_outside p b.next a _ out
    ∙ set_previous_outside p b.previous a _ out
    ∙ set_payload_size_outside p b.payload_size a _ out
    ∙ set_state_outside p b.state a _ out
    ∙ store32-outside p b.magic a m (ground arith)

pub put_block_same : (p : ℕ) (b : Block) (m : Memory) → IsWords b → block_at (put_block p b m) p ≡ b
unfolding put_block
put_block_same p b m w =
    let m1 = store32 p b.magic m in
    let m2 = set_state p b.state m1 in
    let m3 = set_payload_size p b.payload_size m2 in
    let m4 = set_previous p b.previous m3 in
    rw
      (
        set_next_same p b.next m4 w.next_fits,
        set_previous_same p b.previous m3 w.previous_fits,
        set_payload_size_same p b.payload_size m2 w.size_fits,
        set_state_same p b.state m1 w.state_fits,
      )
      (Block-eq _ b (unfold block_at in load32-store32 p b.magic m w.magic_fits) refl refl refl
        refl)

-- A header apart from the one that is written
other_block :
    (p q : ℕ) (m m' : Memory)
    → apart p q ≡ true
    → ((a : ℕ) → outside p a ≡ true → m' a ≡ m a)
    → block_at m' q ≡ block_at m q
other_block p q m m' far same = block_at-ext m' m q λ a lo hi. same a (ground arith)

module _ (p v q : ℕ) (m : Memory) (far : apart p q ≡ true) where
  pub set_state_other : block_at (set_state p v m) q ≡ block_at m q
  set_state_other = other_block p q m _ far λ a out. set_state_outside p v a m out

  pub set_payload_size_other : block_at (set_payload_size p v m) q ≡ block_at m q
  set_payload_size_other = other_block p q m _ far λ a out. set_payload_size_outside p v a m out

  pub set_previous_other : block_at (set_previous p v m) q ≡ block_at m q
  set_previous_other = other_block p q m _ far λ a out. set_previous_outside p v a m out

  pub set_next_other : block_at (set_next p v m) q ≡ block_at m q
  set_next_other = other_block p q m _ far λ a out. set_next_outside p v a m out

pub put_block_other :
    (p : ℕ) (b : Block) (q : ℕ) (m : Memory)
    → apart p q ≡ true
    → block_at (put_block p b m) q ≡ block_at m q
put_block_other p b q m far = other_block p q m _ far λ a out. put_block_outside p b a m out

-- The same for a pointer that may be NULL
module _ (p v : ℕ) (m : Memory) where
  pub relink_outside : (a : ℕ) → ((p == 0) || outside p a) ≡ true → relink p v m a ≡ m a
  relink_outside a h = elim (Bool-cases (p == 0)) [
    | inl null ↦ rw null refl
    | inr block ↦ rw block (set_previous_outside p v a m (ground arith))
  ]

  pub relink_other :
      (q : ℕ) → ((p == 0) || apart p q) ≡ true → block_at (relink p v m) q ≡ block_at m q
  relink_other q h = elim (Bool-cases (p == 0)) [
    | inl null ↦ rw null refl
    | inr block ↦ rw block (set_previous_other p v q m (ground arith))
  ]

  pub relink_same :
      0 < p → v < word_mod → block_at (relink p v m) p ≡ record (block_at m p) { previous = v }
  relink_same pos lt =
      let block : (p == 0) ≡ false = ground arith in rw block (set_previous_same p v m lt)
