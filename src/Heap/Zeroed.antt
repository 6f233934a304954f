-- ===== src/Heap/Zeroed.antt =====
-- `kcalloc` clears the bytes of the block that it gets.
use tinyshell_os.Base.{
  ℕ, zero, suc, ◌+◌, ◌*◌, ◌/◌, ◌≤◌, ◌<◌, ◌≡◌, ◌≢◌, refl, ap, sym, ◌∙◌, ◌⊎◌, inl, inr, true, false,
  ◌&&◌, ◌||◌, some, arith, write, loop, Bool-cases, word_mod, word_max, ltb, leb, ◌==◌,
  if◌then◌else◌,
}
use tinyshell_os.Heap.{arena_size, Heap, kcalloc, zeroed}
use tinyshell_os.Heap.Bytes.{Memory}
use tinyshell_os.Heap.Layout.{Layout, IsArena, IsHeap}
use tinyshell_os.Heap.Chains.{live}
use tinyshell_os.Heap.Fresh.{Chain-live}
use tinyshell_os.Heap.Model.{malloc, calloc}
use tinyshell_os.Heap.Operations.{
  rounded_zero, malloc-refused, Leaves, Leaves-self, kmalloc-malloc, malloc-IsFresh,
}

abbrev cleared : ℕ → ℕ → Memory → Memory
cleared a n m = loop n (λ index m. write m (a + index) 0) m

cleared_lem :
    (a n : ℕ) (m : Memory) (x : ℕ) → cleared a n m x ≡ (if leb a x && ltb x (a + n) then 0 else m x)
unfolding loop
cleared_lem a zero m x = ground arith
cleared_lem a (suc n) m x = ground (arith, cleared_lem a n m x)

-- Writes into the allocated payloads leave the heap.
pub IsHeap-live :
    (arena : ℕ) (s : Heap) (m : Memory) (ls : Layout)
    → ((x : ℕ) → live arena ls x ≡ false → m x ≡ s.memory x)
    → IsHeap arena s ls
    → IsHeap arena (record s { memory = m }) ls
IsHeap-live arena s m ls same h = record {
  ready = h.ready;
  first = h.first;
  chain = Chain-live s.memory m (arena + arena_size) 0 arena ls (λ x lo dead. same x dead) h.chain;
  apart_free = h.apart_free;
}

-- What `kcalloc` leaves: a heap, the payloads of the others, and cleared bytes if it succeeds
pub record Clears (arena n a : ℕ) (s s' : Heap) (ls ls' : Layout) : Type 0 where
  pub leaves : Leaves arena s s' ls ls'
  pub zero_bytes : a ≢ 0 → (x : ℕ) → a ≤ x → x < a + n → s'.memory x ≡ 0

zeroed-Clears :
    (arena n : ℕ) (s s1 : Heap) (ls : Layout)
    → IsHeap arena s ls
    → Leaves arena s s1 ls (malloc arena n ls).1
    → ((zeroed n ((malloc arena n ls).0, s1)).0 ≡ (malloc arena n ls).0)
      × Clears arena n
          (malloc arena n ls).0
          s
          (zeroed n ((malloc arena n ls).0, s1)).1
          ls
          (malloc arena n ls).1
unfolding zeroed
zeroed-Clears arena n s s1 ls h l = elim (Bool-cases ((malloc arena n ls).0 == 0)) [
  | inl null ↦
      let e : (malloc arena n ls).0 ≡ 0 = ground arith in
      simp null (sym e, record { leaves = l; zero_bytes = λ ne. absurd (ne e) })
  | inr block ↦
      let ne : (malloc arena n ls).0 ≢ 0 = ground arith in
      let f = malloc-IsFresh arena n s ls h ne in
      let a = (malloc arena n ls).0 in
      simp block (
        refl,
        record {
          leaves = record {
            heap =
                IsHeap-live arena s1 (cleared a n s1.memory) (malloc arena n ls).1
                  (λ x dead.
                    cleared_lem a n s1.memory x ∙ elim (Bool-cases (leb a x && ltb x (a + n))) [
                      | inl in_block ↦
                          absurd (let t = f.live_now x (ground arith) (ground arith) in cc)
                      | inr out ↦ rw out refl
                    ])
                  l.heap;
            kept = λ x live_before.
                cleared_lem a n s1.memory x ∙ elim (Bool-cases (leb a x && ltb x (a + n))) [
                  | inl in_block ↦
                      absurd (let t = f.dead_before x (ground arith) (ground arith) in cc)
                  | inr out ↦ rw out (l.kept x live_before)
                ];
          };
          zero_bytes = λ ne' x lo hi. cleared_lem a n s1.memory x ∙ ground arith;
        },
      )
]

quotient_fits : (m c s : ℕ) → 0 < c → s ≤ m / c → c * s ≤ m
quotient_fits m c s pos h = grind arith

quotient_over : (m c s : ℕ) → 0 < c → m / c < s → m < c * s
quotient_over m c s pos h = grind arith

-- The test on the quotient is the test on the product.
overflows :
    (count size : ℕ)
    → (count == 0 || (size == 0 || ltb (word_max / count) size)) ≡ true
    → (leb word_mod (count * size) ≡ true) ⊎ (count * size ≡ 0)
overflows count size h = elim (Bool-cases (count == 0)) [
  | inl null ↦ inr (let e : count ≡ 0 = ground arith in rw e (omega arith))
  | inr pos ↦ elim (Bool-cases (size == 0)) [
    | inl null ↦ inr (let e : size ≡ 0 = ground arith in rw e (omega arith))
    | inr some_size ↦
        let over : word_max < count * size =
          quotient_over word_max count size (ground arith) (ground arith) in
        inl (ground arith)
  ]
]

product_fits :
    (count size : ℕ)
    → (count == 0 || (size == 0 || ltb (word_max / count) size)) ≡ false
    → count * size ≤ word_max
product_fits count size h = quotient_fits word_max count size (ground arith) (ground arith)

pub calloc-refused :
    (arena count size : ℕ) (ls : Layout)
    → (leb word_mod (count * size) ≡ true) ⊎ (count * size ≡ 0)
    → calloc arena count size ls ≡ (0, ls)
unfolding calloc
calloc-refused arena count size ls (inl over) = rw (calloc, over) refl
calloc-refused arena count size ls (inr null) =
    rw (calloc, null) (malloc-refused arena 0 ls rounded_zero)

pub calloc-malloc :
    (arena count size : ℕ) (ls : Layout)
    → count * size ≤ word_max
    → calloc arena count size ls ≡ malloc arena (count * size) ls
unfolding calloc
calloc-malloc arena count size ls le =
    let fits : leb word_mod (count * size) ≡ false = ground arith in rw (calloc, fits) refl

-- `kcalloc` allocates as the abstract heap does, and clears the block.
pub kcalloc-calloc :
    (arena count size : ℕ) (s : Heap) (ls : Layout)
    → IsArena arena
    → IsHeap arena s ls
    → (s' : Heap) × (kcalloc arena count size s ≡ some ((calloc arena count size ls).0, s'))
      × Clears arena
          (count * size)
          (calloc arena count size ls).0
          s
          s'
          ls
          (calloc arena count size ls).1
unfolding kcalloc
kcalloc-calloc arena count size s ls r h =
    elim (Bool-cases (count == 0 || (size == 0 || ltb (word_max / count) size))) [
      | inl bad ↦
          rw (calloc-refused arena count size ls (overflows count size bad), kcalloc, bad)
            (
              s,
              refl,
              record { leaves = Leaves-self arena s ls h; zero_bytes = λ ne. absurd (ne refl) },
            )
      | inr good ↦
          let le = product_fits count size good in
          let (s1, e, l) = kmalloc-malloc arena (count * size) s ls r (omega arith) h in
          let (same, clears) = zeroed-Clears arena (count * size) s s1 ls h l in
          rw (calloc-malloc arena count size ls le, kcalloc, good, e)
            (
              (zeroed (count * size) ((malloc arena (count * size) ls).0, s1)).1,
              ap
                  (λ (x : ℕ).
                    some (x, (zeroed (count * size) ((malloc arena (count * size) ls).0, s1)).1))
                  same,
              clears,
            )
    ]
