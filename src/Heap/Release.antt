-- ===== src/Heap/Release.antt =====
-- What `kfree` does to a block and its successor.
use tinyshell_os.Base.{
  ℕ, ◌+◌, ◌≤◌, ◌<◌, ◌≡◌, refl, ap, subst, ◌∙◌, inl, inr, true, false, [], ◌∷◌, arith, Bool-cases,
  word_mod, ◌==◌,
}
use tinyshell_os.Heap.{
  block_free, header_size, Block, block_at, set_state, merge_with_next, merge_free_next, is_free,
}
use tinyshell_os.Heap.Bytes.{Memory}
use tinyshell_os.Heap.Blocks.{set_state_same, set_state_outside}
use tinyshell_os.Heap.Layout.{Piece, Layout, link, Chain, Chain-le}
use tinyshell_os.Heap.Chains.{Chain-frame, live, live-le, Changed}
use tinyshell_os.Heap.Merge.{merge-SameBut, merge-Chain}
use tinyshell_os.Heap.Model.{free_piece, join}

-- Marking the first block of a chain free
pub freed-Chain :
    (m : Memory) (end prev p : ℕ) (b : Piece) (bs : Layout)
    → Chain m end prev p (b ∷ bs)
    → Chain (set_state p block_free m) end prev p (free_piece b.size ∷ bs)
freed-Chain m end prev p b bs (is, c) = (
  record {
    header =
        set_state_same p block_free m (omega arith)
        ∙ ap (λ (h : Block). record h { state = block_free }) is.header;
    enough = is.enough;
    whole = is.whole;
  },
  Chain-frame m _ end p (p + header_size + b.size) bs
      (λ a lo. set_state_outside p block_free a m (ground arith)) c,
)

pub join_both :
    (b c : Piece) (cs : Layout)
    → b.free ≡ true
    → c.free ≡ true
    → join b (c ∷ cs) ≡ free_piece (b.size + header_size + c.size) ∷ cs
unfolding join
join_both b c cs f g = simp (f, g)

pub join_first : (b c : Piece) (cs : Layout) → c.free ≡ false → join b (c ∷ cs) ≡ b ∷ c ∷ cs
unfolding join
join_first b c cs g = elim (Bool-cases b.free) [ inl f ↦ simp (f, g) | inr f ↦ simp f ]

pub join_used : (b : Piece) (cs : Layout) → b.free ≡ false → join b cs ≡ b ∷ cs
unfolding join
join_used b [] f = refl
join_used b (c ∷ cs) f = simp f

pub join_none : (b : Piece) → join b [] ≡ b ∷ []
unfolding join
join_none b = refl

pub live_free :
    (p : ℕ) (b : Piece) (cs : Layout) (a : ℕ)
    → b.free ≡ true
    → live p (b ∷ cs) a ≡ true
    → p + header_size + b.size + header_size ≤ a
unfolding live
live_free p b cs a f h = live-le (p + header_size + b.size) cs a (rw f at h)

-- A payload behind a free block that was joined lies behind the next header.
pub live-join :
    (p : ℕ) (b : Piece) (cs : Layout) (a : ℕ)
    → b.free ≡ true
    → live p (join b cs) a ≡ true
    → p + header_size + b.size + header_size ≤ a
live-join p b [] a f h = live_free p b [] a f (rw (join_none b) at h)
live-join p b (c ∷ cs) a f h = elim (Bool-cases c.free) [
  | inl both ↦ omega (
    arith,
    live_free p (free_piece (b.size + header_size + c.size)) cs a refl
        (rw (join_both b c cs f both) at h),
  )
  | inr one ↦ live_free p b (c ∷ cs) a f (rw (join_first b c cs one) at h)
]

-- A free block takes in a free successor.
pub merge_free_next-Chain :
    (m : Memory) (end prev p : ℕ) (b : Piece) (cs : Layout)
    → 0 < p
    → end < word_mod
    → b.free ≡ true
    → Chain m end prev p (b ∷ cs)
    → Changed m (merge_free_next p m) end prev p p (join b cs) (join b cs)
merge_free_next-Chain m end prev p b [] pos top f (is, e) =
    let null : link end (p + header_size + b.size) ≡ 0 = ground arith in
    rw (join_none b, is.header, null)
      (record { chain = (is, e); behind = omega arith; before = λ a lt. refl; kept = λ a l. refl })
merge_free_next-Chain m end prev p b (c ∷ cs) pos top f (is, (is', rest)) =
    let le =
      Chain-le m end (p + header_size + b.size) (p + header_size + b.size + header_size + c.size) cs
        rest in
    let on : link end (p + header_size + b.size) ≡ p + header_size + b.size = ground arith in
    let nonnull : (p + header_size + b.size == 0) ≡ false = ground arith in
    elim (Bool-cases c.free) [
      | inl both ↦
          let same = merge-SameBut m end prev p b c cs pos top (is, (is', rest)) in
          let test : is_free (block_at m (p + header_size + b.size)) ≡ true =
            rw is'.header (simp both) in
          rw (join_both b c cs f both, is.header, on, nonnull, test)
            (record {
              chain =
                  subst
                    (λ x.
                      Chain (merge_with_next p m) end prev p
                        (record { free = x; size = b.size + header_size + c.size } ∷ cs))
                    f (merge-Chain m end prev p b c cs pos top (is, (is', rest)));
              behind = omega arith;
              before = λ a lt. same a (ground arith);
              kept = λ a l.
                  let lo = live_free p (free_piece (b.size + header_size + c.size)) cs a refl l in
                  same a (ground arith);
            })
      | inr one ↦
          let test : is_free (block_at m (p + header_size + b.size)) ≡ false =
            rw is'.header (simp one) in
          rw (join_first b c cs one, is.header, on, nonnull, test)
            (record {
              chain = (is, (is', rest));
              behind = omega arith;
              before = λ a lt. refl;
              kept = λ a l. refl;
            })
    ]
