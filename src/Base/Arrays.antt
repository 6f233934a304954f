-- ===== src/Base/Arrays.antt =====
-- C arrays as functions of the index, and the counted loops that fill them. Nothing bounds an
-- index here: the components state that the indices they use lie inside the source's arrays.
use Prim.Native.Nat.{ℕ, zero, suc, ◌+◌, ◌<◌}
use mathlib.Core.Path.{◌≡◌, refl, ap, ap₂}
use mathlib.Core.List.{List, [], ◌∷◌, ◌++◌}
use mathlib.Core.Option.{Option, none, some}
use native.Mathlib.Omega.{arith}
use tinyshell_os.Base.Tests.{ltb, ◌==◌, if◌then◌else◌}

abbrev pub Array {ℓ} : Type ℓ → Type ℓ
Array A = ℕ → A

-- `for (i = 0; i < n; ++i) body(i);`: the last round runs on the state that the rounds before
-- it left.
unfoldable pub loop {ℓ} : {S : Type ℓ} → ℕ → (ℕ → S → S) → S → S
loop zero body s = s
loop (suc n) body s = body n (loop n body s)

-- The invariant rule.
pub loop_inv {ℓ κ} :
    {S : Type ℓ} (P : ℕ → S → Type κ) (body : ℕ → S → S) (n : ℕ)
    → ((i : ℕ) (s : S) → i < n → P i s → P (suc i) (body i s))
    → (s : S) → P 0 s
    → P n (loop n body s)
unfolding loop
loop_inv P body zero keep s h = h
loop_inv P body (suc n) keep s h =
    keep n (loop n body s) (omega arith) (loop_inv P body n (λ i t lt. keep i t (omega arith)) s h)

module _ {ℓ} {A : Type ℓ} where
  abbrev pub length : List A → ℕ
  length [] = 0
  length (x ∷ xs) = suc (length xs)

  abbrev pub get_elem? : List A → ℕ → Option A
  get_elem? [] i = none
  get_elem? (x ∷ xs) zero = some x
  get_elem? (x ∷ xs) (suc i) = get_elem? xs i

  -- `a[i] = v`
  abbrev pub write : Array A → ℕ → A → Array A
  write a i v j = if j == i then v else a j

  -- `for (i = 0; i < n; ++i) a[i] = f(i, a[i]);`
  unfoldable pub each : ℕ → (ℕ → A → A) → Array A → Array A
  unfolding loop
  each n f = loop n (λ i a. write a i (f i (a i)))

  pub each_lem :
      (n : ℕ) (f : ℕ → A → A) (a : Array A) (j : ℕ)
      → each n f a j ≡ (if ltb j n then f j (a j) else a j)
  unfolding each
  each_lem zero f a j = ground arith
  each_lem (suc n) f a j = ground (arith, each_lem n f a j, each_lem n f a n)

  -- The first `n` entries from index `i` on.
  abbrev pub slice : Array A → ℕ → ℕ → List A
  slice a i zero = []
  slice a i (suc n) = a i ∷ slice a (suc i) n

  shift_index :
      (a b : Array A) (i j k : ℕ) → a (i + suc k) ≡ b (j + suc k) → a (suc i + k) ≡ b (suc j + k)
  shift_index a b i j k h =
      let p : suc i + k ≡ i + suc k = omega arith in
      let q : suc j + k ≡ j + suc k = omega arith in rw (p, q) h

  -- Equal stretches of two arrays.
  pub slice-eq-slice :
      (a b : Array A) (i j n : ℕ)
      → ((k : ℕ) → k < n → a (i + k) ≡ b (j + k))
      → slice a i n ≡ slice b j n
  slice-eq-slice a b i j zero h = refl
  slice-eq-slice a b i j (suc n) h =
      ap₂ ◌∷◌ (ground (arith, h 0 (omega arith))) (
        slice-eq-slice a b (suc i) (suc j) n
          λ k lt. shift_index a b i j k (h (suc k) (omega arith)))

  pub slice-ext :
      (a b : Array A) (i n : ℕ)
      → ((j : ℕ) → j < n → a (i + j) ≡ b (i + j))
      → slice a i n ≡ slice b i n
  slice-ext a b i n h = slice-eq-slice a b i i n h

  pub slice-append :
      (a : Array A) (i m n : ℕ) → slice a i (m + n) ≡ slice a i m ++ slice a (i + m) n
  slice-append a i zero n = ap₂ (slice a) (omega arith) (omega arith)
  slice-append a i (suc m) n =
      let p : suc m + n ≡ suc (m + n) = omega arith in
      let q : i + suc m ≡ suc i + m = omega arith in
      rw (p, q) (ap (λ t. a i ∷ t) (slice-append a (suc i) m n))

  pub length-slice : (a : Array A) (i n : ℕ) → length (slice a i n) ≡ n
  length-slice a i zero = refl
  length-slice a i (suc n) = ap suc (length-slice a (suc i) n)
