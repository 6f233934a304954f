-- ===== src/Heap/Allocate.antt =====
-- The work of `kmalloc` on the block that it finds.
use tinyshell_os.Base.{
  ℕ, ◌+◌, ◌-◌, ◌%◌, ◌≤◌, ◌<◌, ◌≡◌, refl, ap, subst, ◌∙◌, inl, inr, true, false, ◌&&◌, ◌||◌, ◌∷◌,
  arith, Bool-cases, add32, sub32, word_mod, leb, ◌==◌,
}
use tinyshell_os.Heap.{
  alignment, block_free, block_allocated, block_magic, header_size, Block, block_at, set_state,
  set_payload_size, set_next, put_block, relink, split_block,
}
use tinyshell_os.Heap.Bytes.{Memory}
use tinyshell_os.Heap.Blocks.{
  outside, relink_outside, relink_other, relink_same, set_state_same, set_payload_size_same,
  set_next_same, set_state_other, set_payload_size_other, set_next_other, put_block_same,
  put_block_other, set_state_outside, set_payload_size_outside, set_next_outside, put_block_outside,
}
use tinyshell_os.Heap.Layout.{Piece, Layout, link, IsBlock, Chain, Chain-le}
use tinyshell_os.Heap.Chains.{Chain-frame, Chain-relink, live, live-le, Changed}
use tinyshell_os.Heap.Model.{free_piece, used_piece, carve}

-- The header of what is left of a block of `size` bytes at `p` when `n` are taken
abbrev rest_header : ℕ → ℕ → ℕ → ℕ → Block
rest_header p n size next = record {
  magic = block_magic;
  state = block_free;
  payload_size = size - n - header_size;
  previous = p;
  next = next;
}

-- The memory when the block at `p` is split at `s`; `next` is the pointer to its successor.
abbrev carved : ℕ → ℕ → ℕ → ℕ → ℕ → Memory → Memory
carved p n s next size m = set_state p block_allocated (
    set_next p s (set_payload_size p n (relink next s (put_block s (rest_header p n size next) m))))

module _ (p n s next size : ℕ) (m : Memory) (first : p + 48 ≤ s)
    (second : ((next == 0) || leb (s + 48) next) ≡ true) (top : next < word_mod)
    (top' : s < word_mod) (small : size < word_mod) (less : n ≤ size) where
  m1 : Memory
  m1 = put_block s (rest_header p n size next) m

  m2 : Memory
  m2 = relink next s m1

  m3 : Memory
  m3 = set_payload_size p n m2

  m4 : Memory
  m4 = set_next p s m3

  carved_outside :
      (a : ℕ)
      → outside p a ≡ true
      → outside s a ≡ true
      → ((next == 0) || outside next a) ≡ true
      → carved p n s next size m a ≡ m a
  unfolding m1 m2 m3 m4
  carved_outside a hp hs hn =
      set_state_outside p block_allocated a m4 hp
      ∙ set_next_outside p s a m3 hp
      ∙ set_payload_size_outside p n a m2 hp
      ∙ relink_outside next s m1 a hn
      ∙ put_block_outside s (rest_header p n size next) a m hs

  carved_first :
      block_at (carved p n s next size m) p
      ≡ record (block_at m p) { state = block_allocated; payload_size = n; next = s }
  unfolding m1 m2 m3 m4
  carved_first =
      rw
        (
          set_state_same p block_allocated m4 (omega arith),
          set_next_same p s m3 top',
          set_payload_size_same p n m2 (omega arith),
          relink_other next s m1 p (ground arith),
          put_block_other s (rest_header p n size next) p m (ground arith),
        )
        refl

  carved_rest : block_at (carved p n s next size m) s ≡ rest_header p n size next
  unfolding m1 m2 m3 m4
  carved_rest =
      rw
        (
          set_state_other p block_allocated s m4 (ground arith),
          set_next_other p s s m3 (ground arith),
          set_payload_size_other p n s m2 (ground arith),
          relink_other next s m1 s (ground arith),
          put_block_same s (rest_header p n size next) m (omega arith),
        )
        refl

  carved_next :
      0 < next
      → block_at (carved p n s next size m) next ≡ record (block_at m next) { previous = s }
  unfolding m1 m2 m3 m4
  carved_next pos =
      rw
        (
          set_state_other p block_allocated next m4 (ground arith),
          set_next_other p s next m3 (ground arith),
          set_payload_size_other p n next m2 (ground arith),
          relink_same next s m1 pos top',
          put_block_other s (rest_header p n size next) next m (ground arith),
        )
        refl

abbrev pub placed : ℕ → ℕ → Memory → Memory
placed p n m = set_state p block_allocated (split_block p n m)

module _ (n end prev p : ℕ) (b : Piece) (bs : Layout) (m : Memory) (top : end < word_mod)
    (pos : 0 < p) (is : IsBlock m end prev p b) (c : Chain m end p (p + header_size + b.size) bs)
    (le : p + header_size + b.size ≤ end) (free : b.free ≡ true) (few : n ≤ b.size)
    (some_bytes : alignment ≤ n) (even : n % alignment ≡ 0) where
  placed-carved :
      n + 48 ≤ b.size
      → placed p n m
        ≡ carved p n (p + header_size + n) (link end (p + header_size + b.size)) b.size m
  unfolding split_block
  placed-carved large =
      let left : sub32 b.size n ≡ b.size - n = omega arith in
      let rest : sub32 (b.size - n) header_size ≡ b.size - n - header_size = omega arith in
      let at : add32 (add32 p header_size) n ≡ p + header_size + n = omega arith in
      let splits : leb (header_size + alignment) (b.size - n) ≡ true = ground arith in
      rw (is.header, left, rest, at, splits) refl

  placed-whole : b.size < n + 48 → placed p n m ≡ set_state p block_allocated m
  unfolding split_block
  placed-whole small =
      let left : sub32 b.size n ≡ b.size - n = omega arith in
      let stays : leb (header_size + alignment) (b.size - n) ≡ false = ground arith in
      rw (is.header, left, stays) refl

  live_behind : (a : ℕ) → live p (b ∷ bs) a ≡ true → p + header_size + b.size + header_size ≤ a
  unfolding live
  live_behind a h = live-le (p + header_size + b.size) bs a (rw free at h)

  placed-large :
      n + 48 ≤ b.size
      → Changed m
          (placed p n m)
          end
          prev
          p
          p
          (b ∷ bs)
          (used_piece n ∷ free_piece (b.size - n - header_size) ∷ bs)
  placed-large large =
      let s = p + header_size + n in
      let q = p + header_size + b.size in
      let next = link end q in
      let m' = carved p n s next b.size m in
      let second : ((next == 0) || leb (s + 48) next) ≡ true = ground arith in
      let top2 : next < word_mod = ground arith in
      let small : b.size < word_mod = omega arith in
      let top1 : s < word_mod = omega arith in
      let out : (a : ℕ)
          → outside p a ≡ true
          → outside s a ≡ true
          → ((next == 0) || outside next a) ≡ true
          → m' a ≡ m a =
        carved_outside p n s next b.size m (omega arith) second top2 top1 small few in
      let e : q ≡ s + header_size + (b.size - n - header_size) = omega arith in
      let more : (s == end) ≡ false = ground arith in
      rw (placed-carved large) (record {
        chain = (
          record {
            header =
                carved_first p n s next b.size m (omega arith) second top2 top1 small few
                ∙ rw (is.header, more) refl;
            enough = some_bytes;
            whole = even;
          },
          (
            record {
              header =
                  carved_rest p n s next b.size m (omega arith) second top2 top1 small few
                  ∙ ap (λ x. rest_header p n b.size (link end x)) e;
              enough = omega arith;
              whole = omega (arith, is.whole);
            },
            subst (λ x. Chain m' end s x bs) e
                (Chain-relink m m' end p s q bs
                  (λ lt.
                    let on : link end q ≡ q = ground arith in
                    subst (λ x. block_at m' x ≡ record (block_at m x) { previous = s }) on
                      (carved_next p n s next b.size m (omega arith) second top2 top1 small few
                        (ground arith)))
                  (λ a lo. out a (ground arith) (ground arith) (ground arith)) c),
          ),
        );
        behind = omega arith;
        before = λ a lt. out a (ground arith) (ground arith) (ground arith);
        kept =
            λ a h. let lo = live_behind a h in out a (ground arith) (ground arith) (ground arith);
      })

  placed-small :
      b.size < n + 48 → Changed m (placed p n m) end prev p p (b ∷ bs) (used_piece b.size ∷ bs)
  placed-small small =
      let out : (a : ℕ) → outside p a ≡ true → set_state p block_allocated m a ≡ m a =
        λ a h. set_state_outside p block_allocated a m h in
      rw (placed-whole small) (record {
        chain = (
          record {
            header =
                set_state_same p block_allocated m (omega arith)
                ∙ ap (λ (h : Block). record h { state = block_allocated }) is.header;
            enough = is.enough;
            whole = is.whole;
          },
          Chain-frame m _ end p (p + header_size + b.size) bs (λ a lo. out a (ground arith)) c,
        );
        behind = omega arith;
        before = λ a lt. out a (ground arith);
        kept = λ a h. let lo = live_behind a h in out a (ground arith);
      })

-- The first block of a chain, if it is the one
pub placed-head :
    (n end prev p : ℕ) (b : Piece) (bs : Layout) (m : Memory)
    → end < word_mod
    → 0 < p
    → alignment ≤ n
    → n % alignment ≡ 0
    → Chain m end prev p (b ∷ bs)
    → (b.free && leb n b.size) ≡ true
    → Changed m (placed p n m) end prev p p (b ∷ bs) (carve n b bs)
unfolding carve
placed-head n end prev p b bs m top pos some_bytes even (is, c) hit =
    let le = Chain-le m end p (p + header_size + b.size) bs c in
    let free : b.free ≡ true = ground arith in
    let few : n ≤ b.size = ground arith in
    elim (Bool-cases (leb (n + 48) b.size)) [
      | inl large ↦
          rw large (
            placed-large n end prev p b bs m top pos is c le free few some_bytes even
              (ground arith))
      | inr small ↦
          rw small (
            placed-small n end prev p b bs m top pos is c le free few some_bytes even
              (ground arith))
    ]
