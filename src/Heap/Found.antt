-- ===== src/Heap/Found.antt =====
-- `kfree` finds the block, and does with it what the abstract heap does.
use mathlib.Core.Option as Opt
use tinyshell_os.Base.{
  ℕ, ◌+◌, ◌<◌, ◌≡◌, ◌≢◌, refl, ap, sym, ◌∙◌, ◌⊎◌, inl, inr, Bool, true, false, Option, none, some,
  [], ◌∷◌, arith, Bool-cases, Option-cases, word_mod, ◌==◌, if◌then◌else◌,
}
use tinyshell_os.Heap.{block_free, block_allocated, header_size, Block, block_at, is_free}
use tinyshell_os.Heap.Bytes.{Memory}
use tinyshell_os.Heap.Layout.{Piece, Layout, IsBlock, Chain, separated}
use tinyshell_os.Heap.Chains.{first_at, Changed, Changed-cons}
use tinyshell_os.Heap.Release.{join_used, join_first}
use tinyshell_os.Heap.Released.{freed, Guarded, freed-Alone, freed-Both}
use tinyshell_os.Heap.Model.{free_piece, join, release}

-- The block at `q` is the one that the abstract heap releases, if it does.
abbrev pub Released : Memory → ℕ → ℕ → ℕ → ℕ → Option Layout → Type 0
Released m end prev p q none = (q ≡ 0) ⊎ ((block_at m q).state ≡ block_free)
Released m end prev p q (some ls') =
    (0 < q) × ((block_at m q).state ≡ block_allocated) × Changed m (freed q m) end prev p p ls' ls'

abbrev pub payload_is : ℕ → ℕ → Bool
payload_is a p = p + header_size == a

-- A block that is not the one, and is not joined with what follows
Released-keep :
    (m : Memory) (end prev p q : ℕ) (b : Piece) (o : Option Layout)
    → IsBlock m end prev p b
    → ((ls' : Layout) → o ≡ some ls' → join b ls' ≡ b ∷ ls')
    → Released m end p (p + header_size + b.size) q o
    → Released m end prev p q (Opt.map (join b) o)
Released-keep m end prev p q b none is e h = h
Released-keep m end prev p q b (some ls') is e (pos, used, h) = (
  pos,
  used,
  rw (e ls' refl) (
      let k = Changed-cons m (freed q m) end prev (p) (p + header_size + b.size) b ls' ls' is h in
      record {
        chain = k.chain;
        behind = omega arith;
        before = λ a lt. k.before a (omega arith);
        kept = k.kept;
      }),
)

-- Behind a free block, the list begins with a block that stays.
join-release :
    (a p : ℕ) (b : Piece) (bs ls' : Layout)
    → separated b.free bs ≡ true
    → b.free ≡ true
    → (bs ≢ [] → payload_is a p ≡ false)
    → release a p bs ≡ some ls'
    → join b ls' ≡ b ∷ ls'
unfolding release
join-release a p b [] ls' s f miss h = cc
join-release a p b (c ∷ cs) ls' s f miss h =
    let used : c.free ≡ false = ground arith in
    elim (Option-cases (release a (p + header_size + c.size) cs)) [
      | inl e ↦ absurd (let t : none ≡ some ls' = rw (miss (λ n. cc), e) at h in cc)
      | inr (rest, e) ↦
          let t : some (join c rest) ≡ some ls' = rw (miss (λ n. cc), e) at h in
          let is : ls' ≡ c ∷ rest = sym (some_eq t) ∙ join_used c rest used in
          rw is (join_first b c rest used)
    ]
  where
    some_eq : {x y : Layout} → some x ≡ some y → x ≡ y
    some_eq e = cc

allocated_state :
    (m : Memory) (end prev p : ℕ) (b : Piece)
    → IsBlock m end prev p b
    → (block_at m p).state ≡ (if b.free then block_free else block_allocated)
allocated_state m end prev p b is = ap (λ (h : Block). h.state) is.header

used_block :
    (m : Memory) (end prev p : ℕ) (b : Piece)
    → IsBlock m end prev p b
    → is_free (block_at m p) ≡ b.free
used_block m end prev p b is =
    rw is.header (elim (Bool-cases b.free) [ inl f ↦ simp f | inr f ↦ simp f ])

-- The first block is the one.
release_here :
    (a end : ℕ) (m : Memory) (prev p : ℕ) (b : Piece) (bs : Layout)
    → end < word_mod
    → 0 < p
    → Guarded m prev p
    → Chain m end prev p (b ∷ bs)
    → Released m end prev p p (if b.free then none else some (join (free_piece b.size) bs))
release_here a end m prev p b bs top pos g (is, c) = elim (Bool-cases b.free) [
  | inl f ↦ simp f (inr (allocated_state m end prev p b is ∙ simp f))
  | inr f ↦ simp f (
    pos,
    allocated_state m end prev p b is ∙ simp f,
    freed-Alone m end prev p b bs pos top g (is, c),
  )
]

-- The second block is the one, behind a free block.
release_second :
    (end : ℕ) (m : Memory) (prev p : ℕ) (b t : Piece) (cs : Layout)
    → end < word_mod
    → 0 < p
    → separated b.free (t ∷ cs) ≡ true
    → b.free ≡ true
    → Chain m end prev p (b ∷ t ∷ cs)
    → Released m end prev p
        (p + header_size + b.size)
        (Opt.map (join b) (if t.free then none else some (join (free_piece t.size) cs)))
release_second end m prev p b t cs top pos s f (is, (is', c)) =
    let used : t.free ≡ false = ground arith in
    simp used (
      omega arith,
      allocated_state m end p (p + header_size + b.size) t is' ∙ simp used,
      freed-Both m end prev p b t cs pos top f (is, (is', c)),
    )

-- A later block is looked for, behind a free one.
release_later :
    (a end : ℕ) (m : Memory) (prev p : ℕ) (b : Piece) (bs : Layout)
    → end < word_mod
    → 0 < p
    → separated b.free bs ≡ true
    → b.free ≡ true
    → Chain m end prev p (b ∷ bs)
    → ((payload_is a (p + header_size + b.size) ≡ true → Guarded m p (p + header_size + b.size))
        → Released m end p
            (p + header_size + b.size)
            (first_at (payload_is a) (p + header_size + b.size) bs)
            (release a (p + header_size + b.size) bs))
    → Released m end prev p
        (first_at (payload_is a) (p + header_size + b.size) bs)
        (Opt.map (join b) (release a (p + header_size + b.size) bs))
unfolding first_at release
release_later a end m prev p b [] top pos s f c ih = inl refl
release_later a end m prev p b (t ∷ cs) top pos s f (is, c) ih =
    elim (Bool-cases (payload_is a (p + header_size + b.size))) [
      | inl hit ↦ rw hit (release_second end m prev p b t cs top pos s f (is, c))
      | inr miss ↦
          Released-keep m end prev p _ b _ is
            (λ ls' e. join-release a (p + header_size + b.size) b (t ∷ cs) ls' s f (λ n. miss) e)
            (ih (λ hit. cc))
    ]

pub release-Released :
    (a end : ℕ) (m : Memory) (prev p : ℕ) (ls : Layout) (was_free : Bool)
    → end < word_mod
    → 0 < p
    → separated was_free ls ≡ true
    → (payload_is a p ≡ true → Guarded m prev p)
    → Chain m end prev p ls
    → Released m end prev p (first_at (payload_is a) p ls) (release a p ls)
unfolding first_at release
release-Released a end m prev p [] was top pos s g c = inl refl
release-Released a end m prev p (b ∷ bs) was top pos s g (is, c) =
    let apart : separated b.free bs ≡ true = ground arith in
    let ih =
      release-Released a end m p (p + header_size + b.size) bs b.free top (omega arith) apart in
    elim (Bool-cases (p + header_size == a)) [
      | inl hit ↦ rw hit (release_here a end m prev p b bs top pos (g hit) (is, c))
      | inr miss ↦ rw miss (elim (Bool-cases b.free) [
        | inl f ↦ release_later a end m prev p b bs top pos apart f (is, c) (λ g'. ih g' c)
        | inr f ↦
            Released-keep m end prev p _ b _ is (λ ls' e. join_used b ls' f)
              (ih (λ hit. inr (omega arith, used_block m end prev p b is ∙ f)) c)
      ])
    ]
