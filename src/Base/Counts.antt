-- ===== src/Base/Counts.antt =====
-- Counting the indices that pass a test.
use tinyshell_os.Base.{
  ℕ, zero, suc, ◌+◌, ◌≤◌, ◌<◌, ◌≡◌, ◌≢◌, refl, Bool, true, false, arith, inl, inr, Bool-cases,
  if◌then◌else◌, ◌==◌,
}

unfoldable pub count : (ℕ → Bool) → ℕ → ℕ
count p zero = 0
count p (suc n) = (if p n then 1 else 0) + count p n

pub count-le : (p : ℕ → Bool) (n : ℕ) → count p n ≤ n
unfolding count
count-le p zero = omega arith
count-le p (suc n) = ground (arith, count-le p n)

pub count-ext : (p q : ℕ → Bool) (n : ℕ) → ((j : ℕ) → j < n → p j ≡ q j) → count p n ≡ count q n
unfolding count
count-ext p q zero h = refl
count-ext p q (suc n) h =
    ground (arith, h n (omega arith), count-ext p q n (λ j lt. h j (omega arith)))

-- One index comes to pass.
pub count-add :
    (p q : ℕ → Bool) (k n : ℕ)
    → k < n
    → p k ≡ false
    → q k ≡ true
    → ((j : ℕ) → j ≢ k → p j ≡ q j)
    → count q n ≡ count p n + 1
unfolding count
count-add p q k zero lt pk qk h = absurd (omega arith)
count-add p q k (suc n) lt pk qk h = elim (Bool-cases (k == n)) [
  | inl last ↦
      let e : k ≡ n = ground arith in
      let same : count p n ≡ count q n = count-ext p q n (λ j lt'. h j (omega arith)) in
      ground arith
  | inr below ↦ ground (arith, h n (ground arith), count-add p q k n (ground arith) pk qk h)
]

pub count-pos : (p : ℕ → Bool) (k n : ℕ) → k < n → p k ≡ true → 0 < count p n
unfolding count
count-pos p k zero lt pk = absurd (omega arith)
count-pos p k (suc n) lt pk = elim (Bool-cases (k == n)) [
  | inl last ↦ let e : k ≡ n = ground arith in ground arith
  | inr below ↦ ground (arith, count-pos p k n (ground arith) pk)
]

pub count-zero : (p : ℕ → Bool) (n k : ℕ) → count p n ≡ 0 → k < n → p k ≡ false
count-zero p n k e lt = elim (Bool-cases (p k)) [
  | inl hit ↦ absurd (omega (arith, count-pos p k n lt hit))
  | inr miss ↦ miss
]

pub count-none : (p : ℕ → Bool) (n : ℕ) → ((j : ℕ) → j < n → p j ≡ false) → count p n ≡ 0
unfolding count
count-none p zero h = refl
count-none p (suc n) h =
    ground (arith, h n (omega arith), count-none p n (λ j lt. h j (omega arith)))
