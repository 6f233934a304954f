-- ===== src/Heap/Inspect.antt =====
-- `inspect_heap` accepts the memory of a heap's blocks, and measures them.
use tinyshell_os.Base.{
  ℕ, zero, suc, ◌+◌, ◌*◌, ◌%◌, ◌≤◌, ◌<◌, ◌≡◌, refl, ap, ◌∙◌, inl, inr, true, false, ◌&&◌, some, [],
  ◌∷◌, length, arith, Bool-cases, add32, word_mod,
}
use tinyshell_os.Heap.{
  alignment, header_size, Inspection, max_of, block_is_sound, counters_fit, counted, advanced,
  broken, continued, inspect_block, inspect_blocks,
}
use tinyshell_os.Heap.Bytes.{Memory}
use tinyshell_os.Heap.Layout.{
  Piece, Layout, link, header_of, Chain, separated, Chain-le, free_sum, largest, used,
}

-- The counters are right for the bytes before the cursor.
pub record Tallied (arena : ℕ) (i : Inspection) : Type 0 where
  pub passed : i.cursor ≡ arena + i.payload_bytes + header_size * i.block_count
  pub free_within : i.measured.free_bytes ≤ i.payload_bytes
  pub largest_within : i.measured.largest_free_block ≤ i.measured.free_bytes
  pub blocks_within : i.measured.allocated_blocks ≤ i.block_count

-- The counters after the blocks `ls`
pub record Reached (i : Inspection) (ls : Layout) (i' : Inspection) : Type 0 where
  pub total_same : i'.measured.total_bytes ≡ i.measured.total_bytes
  pub free_after : i'.measured.free_bytes ≡ i.measured.free_bytes + free_sum ls
  pub largest_after :
      i'.measured.largest_free_block ≡ max_of (largest ls) i.measured.largest_free_block
  pub used_after : i'.measured.allocated_blocks ≡ i.measured.allocated_blocks + used ls

module _ (arena end : ℕ) (i : Inspection) (b : Piece) (top : end < word_mod)
    (room : i.cursor + header_size + b.size ≤ end) (t : Tallied arena i) where
  sound :
      i.cursor % alignment ≡ 0
      → alignment ≤ b.size
      → b.size % alignment ≡ 0
      → block_is_sound end (header_of end i.preceding i.cursor b) i ≡ true
  unfolding block_is_sound
  sound lines enough whole = elim (Bool-cases b.free) [
    | inl f ↦ simp f (ground arith)
    | inr f ↦ simp f (ground arith)
  ]

  end_of : add32 (add32 i.cursor header_size) b.size ≡ i.cursor + header_size + b.size
  end_of = omega arith

  fit :
      (i.preceding_was_free && b.free) ≡ false
      → counters_fit (header_of end i.preceding i.cursor b) i ≡ true
  unfolding counters_fit
  fit h = elim (Bool-cases b.free) [
    | inl f ↦ simp f (ground (arith, t.passed, t.free_within))
    | inr f ↦ simp f (ground (arith, t.passed, t.blocks_within))
  ]

  counted-Tallied : Tallied arena (advanced (header_of end i.preceding i.cursor b) i)
  unfolding advanced counted max_of
  counted-Tallied = elim (Bool-cases b.free) [
    | inl f ↦ simp f (ground (arith, t.passed, t.free_within, t.largest_within, t.blocks_within))
    | inr f ↦ simp f (ground (arith, t.passed, t.free_within, t.largest_within, t.blocks_within))
  ]

  step-Reached :
      (bs : Layout) (i' : Inspection)
      → Reached (advanced (header_of end i.preceding i.cursor b) i) bs i'
      → Reached i (b ∷ bs) i'
  unfolding advanced counted free_sum largest used max_of
  step-Reached bs i' r = elim (Bool-cases b.free) [
    | inl f ↦
        ground (arith, f, r.free_after, r.largest_after, r.used_after, t.passed, t.free_within)
    | inr f ↦
        ground (arith, f, r.free_after, r.largest_after, r.used_after, t.passed, t.blocks_within)
  ]

-- The counters when the loop has met the end
pub record Finished (arena end : ℕ) (i : Inspection) : Type 0 where
  pub all_passed : end ≡ arena + i.payload_bytes + header_size * i.block_count
  pub some_block : 0 < i.block_count
  pub free_in_all : i.measured.free_bytes ≤ i.payload_bytes
  pub largest_in_all : i.measured.largest_free_block ≤ i.measured.free_bytes

Reached-none : (i : Inspection) → Reached i [] i
unfolding free_sum largest used max_of
Reached-none i = ground arith

module _ (arena end : ℕ) (i : Inspection) (b : Piece) (top : end < word_mod)
    (room : i.cursor + header_size + b.size ≤ end) (t : Tallied arena i) where
  next_fields :
      ((advanced (header_of end i.preceding i.cursor b) i).cursor ≡ i.cursor + header_size + b.size)
      × ((advanced (header_of end i.preceding i.cursor b) i).preceding ≡ i.cursor)
      × ((advanced (header_of end i.preceding i.cursor b) i).preceding_was_free ≡ b.free)
  unfolding advanced
  next_fields = (omega arith, refl, ground arith)

  counted-Reached : Reached i (b ∷ []) (counted (header_of end i.preceding i.cursor b) i)
  unfolding advanced counted
  counted-Reached =
      let r =
        step-Reached arena end i b top room t [] _
          (Reached-none (advanced (header_of end i.preceding i.cursor b) i)) in
      record {
        total_same = r.total_same;
        free_after = r.free_after;
        largest_after = r.largest_after;
        used_after = r.used_after;
      }

  counted-Finished :
      i.cursor + header_size + b.size ≡ end
      → Finished arena end (counted (header_of end i.preceding i.cursor b) i)
  unfolding counted max_of
  counted-Finished e = elim (Bool-cases b.free) [
    | inl f ↦ simp f (ground (arith, t.passed, t.free_within, t.largest_within))
    | inr f ↦ simp f (ground (arith, t.passed, t.free_within, t.largest_within))
  ]

module _ (arena end : ℕ) (m : Memory) (top : end < word_mod) where
  -- One round on a block of the chain
  last_block :
      (i : Inspection) (b : Piece)
      → Tallied arena i
      → i.cursor % alignment ≡ 0
      → (i.preceding_was_free && b.free) ≡ false
      → alignment ≤ b.size
      → b.size % alignment ≡ 0
      → i.cursor + header_size + b.size ≡ end
      → inspect_block end (header_of end i.preceding i.cursor b) i ≡ broken
  unfolding inspect_block
  last_block i b t lines h enough whole e =
      let at_end : link end (i.cursor + header_size + b.size) ≡ 0 = ground arith in
      rw
        (
          sound arena end i b top (omega arith) t lines enough whole,
          fit arena end i b top (omega arith) t h,
          at_end,
        )
        (ground (arith, end_of arena end i b top (omega arith) t))

  inner_block :
      (i : Inspection) (b : Piece)
      → Tallied arena i
      → i.cursor % alignment ≡ 0
      → (i.preceding_was_free && b.free) ≡ false
      → alignment ≤ b.size
      → b.size % alignment ≡ 0
      → i.cursor + header_size + b.size < end
      → inspect_block end (header_of end i.preceding i.cursor b) i ≡ continued
  unfolding inspect_block
  inner_block i b t lines h enough whole lt =
      let on : link end (i.cursor + header_size + b.size) ≡ i.cursor + header_size + b.size =
        ground arith in
      rw
        (
          sound arena end i b top (omega arith) t lines enough whole,
          fit arena end i b top (omega arith) t h,
          on,
        )
        (ground (arith, end_of arena end i b top (omega arith) t))

  -- The loop passes the blocks of a chain, with as many rounds as there are blocks.
  pub inspect_blocks-Chain :
      (n : ℕ) (i : Inspection) (b : Piece) (bs : Layout)
      → Tallied arena i
      → i.cursor % alignment ≡ 0
      → length bs < n
      → separated i.preceding_was_free (b ∷ bs) ≡ true
      → Chain m end i.preceding i.cursor (b ∷ bs)
      → (i' : Inspection) × (inspect_blocks end n m i ≡ some i')
        × Reached i (b ∷ bs) i'
        × Finished arena end i'
  unfolding inspect_blocks
  inspect_blocks-Chain zero i b bs t lines rounds apart c = absurd (omega arith)
  inspect_blocks-Chain (suc n) i b [] t lines rounds apart (is, e) = (
    counted (header_of end i.preceding i.cursor b) i,
    rw (inspect_blocks, is.header, last_block i b t lines (ground arith) is.enough is.whole e)
        (ap (λ h. some (counted h i)) is.header),
    counted-Reached arena end i b top (omega arith) t,
    counted-Finished arena end i b top (omega arith) t e,
  )
  inspect_blocks-Chain (suc n) i b (b' ∷ bs) t lines rounds apart (is, c) =
      let room : i.cursor + header_size + b.size < end = omega (
        arith,
        Chain-le m end i.cursor (i.cursor + header_size + b.size) (b' ∷ bs) c,
        Chain-le m end (i.cursor + header_size + b.size)
            (i.cursor + header_size + b.size + header_size + b'.size) bs c.1,
      ) in
      let (at, behind, was) = next_fields arena end i b top (omega arith) t in
      let (i', e, r, f) =
        inspect_blocks-Chain n (advanced (header_of end i.preceding i.cursor b) i) b' bs
          (counted-Tallied arena end i b top (omega arith) t)
          (rw at (omega (arith, lines, is.whole))) (omega arith) (rw was (ground arith))
          (rw (at, behind) c) in
      (
        i',
        rw
            (
              inspect_blocks,
              is.header,
              inner_block i b t lines (ground arith) is.enough is.whole room,
            )
            (ap (λ h. inspect_blocks end n m (advanced h i)) is.header ∙ e),
        step-Reached arena end i b top (omega arith) t (b' ∷ bs) i' r,
        f,
      )
