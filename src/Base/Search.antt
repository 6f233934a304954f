-- ===== src/Base/Search.antt =====
-- `for (i = start; i < end; ++i) if (test(i)) return i;`: the first index that passes.
use Prim.Native.Nat.{ℕ, zero, suc, ◌+◌, ◌≤◌, ◌<◌}
use mathlib.Core.Path.{◌≡◌, refl}
use mathlib.Core.Bool.{Bool, true, false}
use mathlib.Core.Option.{Option, none, some}
use mathlib.Core.Logic.{inl, inr}
use native.Mathlib.Omega.{arith}
use tinyshell_os.Base.Tests.{Bool-cases}

-- `n` rounds from index `i` on
unfoldable pub find_first : (ℕ → Bool) → ℕ → ℕ → Option ℕ
find_first p zero i = none
find_first p (suc n) i = elim (p i) [ true ↦ some i | false ↦ find_first p n (suc i) ]

pub find_first-some :
    (p : ℕ → Bool) (n i k : ℕ) → find_first p n i ≡ some k → (i ≤ k) × (k < i + n) × (p k ≡ true)
unfolding find_first
find_first-some p zero i k h = cc
find_first-some p (suc n) i k h = ground (arith, find_first-some p n (suc i) k)

-- Every index before the one that is found fails the test.
pub find_first-before :
    (p : ℕ → Bool) (n i k j : ℕ) → find_first p n i ≡ some k → i ≤ j → j < k → p j ≡ false
unfolding find_first
find_first-before p zero i k j h lo hi = cc
find_first-before p (suc n) i k j h lo hi = ground (arith, find_first-before p n (suc i) k j)

pub find_first-none :
    (p : ℕ → Bool) (n i j : ℕ) → find_first p n i ≡ none → i ≤ j → j < i + n → p j ≡ false
unfolding find_first
find_first-none p zero i j h lo hi = absurd (omega arith)
find_first-none p (suc n) i j h lo hi = ground (arith, find_first-none p n (suc i) j)

-- If no index passes, the search fails.
pub find_first-eq-none :
    (p : ℕ → Bool) (n i : ℕ) → ((j : ℕ) → i ≤ j → j < i + n → p j ≡ false) → find_first p n i ≡ none
unfolding find_first
find_first-eq-none p zero i h = refl
find_first-eq-none p (suc n) i h =
    rw (h i (omega arith) (omega arith), find_first)
      (find_first-eq-none p n (suc i) λ j lo hi. h j (omega arith) (omega arith))

-- The first index that passes is the one that is found.
pub find_first-eq-some :
    (p : ℕ → Bool) (n i k : ℕ)
    → i ≤ k
    → k < i + n
    → p k ≡ true
    → ((j : ℕ) → i ≤ j → j < k → p j ≡ false)
    → find_first p n i ≡ some k
unfolding find_first
find_first-eq-some p zero i k lo hi hit h = absurd (omega arith)
find_first-eq-some p (suc n) i k lo hi hit h = elim (Bool-cases (p i)) [
  | inl e ↦ ground (arith, h i)
  | inr e ↦
      rw (e, find_first)
        (find_first-eq-some p n (suc i) k (ground arith) (omega arith) hit
          λ j lo' hi'. h j (omega arith) hi')
]

-- Tests that agree on the range find the same index.
pub find_first-congr :
    (p q : ℕ → Bool) (n i : ℕ)
    → ((j : ℕ) → i ≤ j → j < i + n → p j ≡ q j)
    → find_first p n i ≡ find_first q n i
unfolding find_first
find_first-congr p q zero i h = refl
find_first-congr p q (suc n) i h = ground (
  arith,
  h i (omega arith) (omega arith),
  find_first-congr p q n (suc i) λ j lo hi. h j (omega arith) (omega arith),
)

-- The only index that passes is the one that is found.
pub find_first_unique :
    (p : ℕ → Bool) (n k : ℕ)
    → k < n
    → p k ≡ true
    → ((j : ℕ) → j < n → p j ≡ true → j ≡ k)
    → find_first p n 0 ≡ some k
find_first_unique p n k lt hit only =
    find_first-eq-some p n 0 k (omega arith) (omega arith) hit λ j lo hi. elim (Bool-cases (p j)) [
      | inl e ↦ absurd (omega (arith, only j (omega arith) e))
      | inr e ↦ e
    ]
