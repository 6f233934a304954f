-- ===== src/Heap/Released.antt =====
-- The work of `kfree` on the block that it finds.
use tinyshell_os.Base.{
  ℕ, ◌+◌, ◌≤◌, ◌<◌, ◌≡◌, refl, ap, subst, ◌∙◌, ◌⊎◌, inl, inr, true, false, [], ◌∷◌, arith,
  Bool-cases, word_mod, ◌==◌,
}
use tinyshell_os.Heap.{
  block_free, header_size, block_at, set_state, merge_with_next, merge_free_next, merge_neighbours,
  is_free,
}
use tinyshell_os.Heap.Bytes.{Memory}
use tinyshell_os.Heap.Blocks.{set_state_same, set_state_other, set_state_outside}
use tinyshell_os.Heap.Layout.{Piece, Layout, header_of, IsBlock, Chain}
use tinyshell_os.Heap.Chains.{IsBlock-frame, Changed}
use tinyshell_os.Heap.Merge.{merge-SameBut, merge-Chain}
use tinyshell_os.Heap.Release.{
  freed-Chain, join_both, join_first, join_none, live-join, merge_free_next-Chain,
}
use tinyshell_os.Heap.Model.{free_piece, join}

abbrev pub freed : ℕ → Memory → Memory
freed q m = merge_neighbours q (set_state q block_free m)

-- There is no free block before `p`.
abbrev pub Guarded : Memory → ℕ → ℕ → Type 0
Guarded m prev p = (prev ≡ 0) ⊎ ((prev + header_size ≤ p) × (is_free (block_at m prev) ≡ false))

freed-alone :
    (m : Memory) (end prev p : ℕ) (b : Piece)
    → IsBlock m end prev p b
    → Guarded m prev p
    → freed p m ≡ merge_free_next p (set_state p block_free m)
unfolding merge_neighbours
freed-alone m end prev p b is (inl none_before) =
    rw (set_state_same p block_free m (omega arith), is.header, none_before) refl
freed-alone m end prev p b is (inr (apart, used)) =
    rw
      (
        set_state_same p block_free m (omega arith),
        is.header,
        set_state_other p block_free prev m (ground arith),
        used,
      )
      (elim (Bool-cases (prev == 0)) [ inl e ↦ rw e refl | inr e ↦ rw e refl ])

-- The block has no free predecessor.
pub freed-Alone :
    (m : Memory) (end prev p : ℕ) (b : Piece) (bs : Layout)
    → 0 < p
    → end < word_mod
    → Guarded m prev p
    → Chain m end prev p (b ∷ bs)
    → Changed m (freed p m) end prev p p (join (free_piece b.size) bs) (join (free_piece b.size) bs)
freed-Alone m end prev p b bs pos top g (is, c) =
    let m1 = set_state p block_free m in
    let h =
      merge_free_next-Chain m1 end prev p (free_piece b.size) bs pos top refl
        (freed-Chain m end prev p b bs (is, c)) in
    rw (freed-alone m end prev p b is g) (record {
      chain = h.chain;
      behind = omega arith;
      before = λ a lt. h.before a lt ∙ set_state_outside p block_free a m (ground arith);
      kept = λ a l.
          let lo = live-join p (free_piece b.size) bs a refl l in
          h.kept a l ∙ set_state_outside p block_free a m (ground arith);
    })

join-join :
    (b : Piece) (n : ℕ) (cs : Layout)
    → b.free ≡ true
    → join b (join (free_piece n) cs) ≡ join (free_piece (b.size + header_size + n)) cs
join-join b n [] f =
    rw (join_none (free_piece n), join_none (free_piece (b.size + header_size + n)))
      (join_both b (free_piece n) [] f refl)
join-join b n (c ∷ cs) f = elim (Bool-cases c.free) [
  | inl both ↦
      rw
        (
          join_both (free_piece n) c cs refl both,
          join_both (free_piece (b.size + header_size + n)) c cs refl both,
        )
        (join_both b (free_piece (n + header_size + c.size)) cs f refl
          ∙ ap (λ x. free_piece x ∷ cs) (omega arith))
  | inr one ↦
      rw
        (
          join_first (free_piece n) c cs one,
          join_first (free_piece (b.size + header_size + n)) c cs one,
        )
        (join_both b (free_piece n) (c ∷ cs) f refl)
]

-- The block has a free predecessor, at `p`.
module _ (m : Memory) (end prev p : ℕ) (b t : Piece) (cs : Layout) (pos : 0 < p)
    (top : end < word_mod) (f : b.free ≡ true) (ch : Chain m end prev p (b ∷ t ∷ cs)) where
  freed-both :
      freed (p + header_size + b.size) m
      ≡ merge_free_next p (merge_with_next p (set_state (p + header_size + b.size) block_free m))
  unfolding merge_neighbours
  freed-both =
      let (is, (is', rest)) = ch in
      let e = is.enough in
      let nonnull : (p == 0) ≡ false = ground arith in
      let test : is_free (header_of end prev p b) ≡ true = simp f in
      rw
        (
          set_state_same (p + header_size + b.size) block_free m (omega arith),
          is'.header,
          set_state_other (p + header_size + b.size) block_free p m (ground arith),
          is.header,
          nonnull,
          test,
        )
        refl

  pub freed-Both :
      Changed m
        (freed (p + header_size + b.size) m)
        end
        prev
        p
        p
        (join b (join (free_piece t.size) cs))
        (join b (join (free_piece t.size) cs))
  freed-Both =
      let (is, (is', rest)) = ch in
      let q = p + header_size + b.size in
      let e = is.enough in
      let m1 = set_state q block_free m in
      let below : (a : ℕ) → a < q → m1 a ≡ m a =
        λ a lt. set_state_outside q block_free a m (ground arith) in
      let ch1 : Chain m1 end prev p (b ∷ free_piece t.size ∷ cs) = (
        IsBlock-frame m m1 end prev p b (λ a lo hi. below a (omega arith)) is,
        freed-Chain m end p q t cs (is', rest),
      ) in
      let big = free_piece (b.size + header_size + t.size) in
      let m2 = merge_with_next p m1 in
      let ch2 : Chain m2 end prev p (big ∷ cs) =
        subst
          (λ x.
            Chain m2 end prev p (record { free = x; size = b.size + header_size + t.size } ∷ cs))
          f (merge-Chain m1 end prev p b (free_piece t.size) cs pos top ch1) in
      let same = merge-SameBut m1 end prev p b (free_piece t.size) cs pos top ch1 in
      let h = merge_free_next-Chain m2 end prev p big cs pos top refl ch2 in
      rw (freed-both, join-join b t.size cs f)
        (record {
          chain = h.chain;
          behind = omega arith;
          before = λ a lt. h.before a lt ∙ same a (ground arith) ∙ below a (omega arith);
          kept = λ a l.
              let lo = live-join p big cs a refl l in
              h.kept a l
              ∙ same a (ground arith)
              ∙ set_state_outside q block_free a m (ground arith);
        })
