-- ===== src/Heap/Bytes.antt =====
-- The memory as bytes, and the 32-bit words that kernel/mm/heap.c keeps in it, low byte first.
use tinyshell_os.Base.{
  ℕ, ◌+◌, ◌*◌, ◌/◌, ◌%◌, ◌^◌, ◌<◌, ◌≡◌, true, ◌||◌, arith, Array, write, ltb, leb,
}

abbrev pub Memory : Type 0
Memory = Array ℕ

unfoldable pub load32 : Memory → ℕ → ℕ
load32 m p = m p + 2 ^ 8 * m (p + 1) + 2 ^ 16 * m (p + 2) + 2 ^ 24 * m (p + 3)

unfoldable pub store32 : ℕ → ℕ → Memory → Memory
store32 p v m =
    write
      (write (write (write m p (v % 2 ^ 8)) (p + 1) (v / 2 ^ 8 % 2 ^ 8)) (p + 2)
        (v / 2 ^ 16 % 2 ^ 8))
      (p + 3) (v / 2 ^ 24 % 2 ^ 8)

pub load32-store32 : (p v : ℕ) (m : Memory) → v < 2 ^ 32 → load32 (store32 p v m) p ≡ v
unfolding load32 store32
load32-store32 p v m lt = ground arith

pub store32-outside :
    (p v q : ℕ) (m : Memory) → (ltb q p || leb (p + 4) q) ≡ true → store32 p v m q ≡ m q
unfolding store32
store32-outside p v q m h = ground arith

-- Equal bytes are equal words.
pub load32-ext :
    (m m' : Memory) (p : ℕ)
    → m p ≡ m' p
    → m (p + 1) ≡ m' (p + 1)
    → m (p + 2) ≡ m' (p + 2)
    → m (p + 3) ≡ m' (p + 3)
    → load32 m p ≡ load32 m' p
unfolding load32
load32-ext m m' p a b c d = omega (arith, a, b, c, d)
