-- ===== src/Heap/Merge.antt =====
-- `merge_with_next` joins two neighbours.
use tinyshell_os.Base.{
  ℕ, ◌+◌, ◌≤◌, ◌<◌, ◌≡◌, refl, ap, sym, subst, ◌∙◌, true, ◌||◌, ◌∷◌, arith, add32, word_mod, ltb,
  leb, ◌==◌,
}
use tinyshell_os.Heap.{
  header_size, Block, block_at, set_payload_size, set_next, put_block, relink, invalid_block,
  merge_with_next,
}
use tinyshell_os.Heap.Bytes.{Memory}
use tinyshell_os.Heap.Blocks.{
  outside, relink_outside, relink_other, relink_same, set_payload_size_same, set_next_same,
  set_payload_size_other, set_next_other, put_block_other, set_payload_size_outside,
  set_next_outside, put_block_outside,
}
use tinyshell_os.Heap.Layout.{Piece, Layout, link, header_of, Chain, Chain-le}
use tinyshell_os.Heap.Chains.{Chain-relink}

-- Only bytes from `p` up to the end of the header at `q` differ.
abbrev pub SameBut : ℕ → ℕ → Memory → Memory → Type 0
SameBut p q m m' = (a : ℕ) → (ltb a p || leb (q + header_size) a) ≡ true → m' a ≡ m a

-- The memory when the block at `p` takes in the one at `right`
abbrev merged : ℕ → ℕ → ℕ → ℕ → Memory → Memory
merged p right next size m =
    put_block right invalid_block (relink next p (set_next p next (set_payload_size p size m)))

module _ (p right next size : ℕ) (m : Memory) (first : p + 48 ≤ right)
    (second : ((next == 0) || leb (right + 48) next) ≡ true) (top : next < word_mod)
    (top' : p < word_mod) (small : size < word_mod) where
  m1 : Memory
  m1 = set_payload_size p size m

  m2 : Memory
  m2 = set_next p next m1

  m3 : Memory
  m3 = relink next p m2

  merged_outside :
      (a : ℕ)
      → outside p a ≡ true
      → outside right a ≡ true
      → ((next == 0) || outside next a) ≡ true
      → merged p right next size m a ≡ m a
  unfolding m1 m2 m3
  merged_outside a hp hr hn =
      put_block_outside right invalid_block a m3 hr
      ∙ relink_outside next p m2 a hn
      ∙ set_next_outside p next a m1 hp
      ∙ set_payload_size_outside p size a m hp

  merged_first :
      block_at (merged p right next size m) p
      ≡ record (block_at m p) { payload_size = size; next = next }
  unfolding m1 m2 m3
  merged_first =
      rw
        (
          put_block_other right invalid_block p m3 (ground arith),
          relink_other next p m2 p (ground arith),
          set_next_same p next m1 top,
          set_payload_size_same p size m small,
        )
        refl

  merged_next :
      0 < next
      → block_at (merged p right next size m) next ≡ record (block_at m next) { previous = p }
  unfolding m1 m2 m3
  merged_next pos =
      rw
        (
          put_block_other right invalid_block next m3 (ground arith),
          relink_same next p m2 pos top',
          set_next_other p next next m1 (ground arith),
          set_payload_size_other p size next m (ground arith),
        )
        refl

-- Two neighbours in a chain become one, in the state of the first.
module _ (m : Memory) (end prev p : ℕ) (b c : Piece) (cs : Layout) (pos : 0 < p)
    (top : end < word_mod) (ch : Chain m end prev p (b ∷ c ∷ cs)) where
  merge-merged :
      merge_with_next p m
      ≡ merged p
          (p + header_size + b.size)
          (link end (p + header_size + b.size + header_size + c.size))
          (b.size + header_size + c.size)
          m
  unfolding merge_with_next
  merge-merged =
      let (is, (is', rest)) = ch in
      let le =
        Chain-le m end (p + header_size + b.size) (p + header_size + b.size + header_size + c.size)
          cs rest in
      let on : link end (p + header_size + b.size) ≡ p + header_size + b.size = ground arith in
      let sum : add32 b.size (add32 header_size c.size) ≡ b.size + header_size + c.size =
        omega arith in
      rw (is.header, on, is'.header, sum) refl

  pub merge-SameBut :
      SameBut p (p + header_size + b.size + header_size + c.size) m (merge_with_next p m)
  merge-SameBut a h =
      let (is, (is', rest)) = ch in
      let le =
        Chain-le m end (p + header_size + b.size) (p + header_size + b.size + header_size + c.size)
          cs rest in
      let e = is.enough in
      let e' = is'.enough in
      rw merge-merged (
        merged_outside p (p + header_size + b.size)
          (link end (p + header_size + b.size + header_size + c.size))
          (b.size + header_size + c.size) m (omega arith) (ground arith) (ground arith)
          (omega arith) (omega arith) a (ground arith) (ground arith) (ground arith))

  pub merge-Chain :
      Chain
        (merge_with_next p m)
        end
        prev
        p
        (record { free = b.free; size = b.size + header_size + c.size } ∷ cs)
  merge-Chain =
      let (is, (is', rest)) = ch in
      let right = p + header_size + b.size in
      let q = right + header_size + c.size in
      let le = Chain-le m end right q cs rest in
      let e = is.enough in
      let e' = is'.enough in
      let m' = merged p right (link end q) (b.size + header_size + c.size) m in
      let second : ((link end q == 0) || leb (right + 48) (link end q)) ≡ true = ground arith in
      let same_end : q ≡ p + header_size + (b.size + header_size + c.size) = omega arith in
      subst
        (λ x.
          Chain x end prev p (record { free = b.free; size = b.size + header_size + c.size } ∷ cs))
        (sym merge-merged)
        (
          record {
            header =
                merged_first p right (link end q) (b.size + header_size + c.size) m (omega arith)
                  second (ground arith) (omega arith) (omega arith)
                ∙ ap
                    (λ (h : Block). record h {
                      payload_size = b.size + header_size + c.size;
                      next = link end q;
                    })
                    is.header
                ∙ ap
                    (λ x. record (header_of end prev p b) {
                      payload_size = b.size + header_size + c.size;
                      next = link end x;
                    })
                    same_end;
            enough = omega arith;
            whole = omega (arith, is.whole, is'.whole);
          },
          subst (λ x. Chain m' end p x cs) same_end
              (Chain-relink m m' end right p q cs
                (λ lt.
                  let on : link end q ≡ q = ground arith in
                  subst (λ x. block_at m' x ≡ record (block_at m x) { previous = p }) on
                    (merged_next p right (link end q) (b.size + header_size + c.size) m
                      (omega arith) second (ground arith) (omega arith) (omega arith)
                      (ground arith)))
                (λ a lo.
                  merged_outside p right (link end q) (b.size + header_size + c.size) m
                    (omega arith) second (ground arith) (omega arith) (omega arith) a (ground arith)
                    (ground arith) (ground arith))
                rest),
        )
