-- ===== src/Base/Rings.antt =====
-- A bounded FIFO in a fixed array, addressed by two free-running 32-bit sequence numbers: what
-- kernel/ipc/ipc.c and kernel/arch/x86/keyboard.c share. A client gives the function from
-- sequence numbers to slots with its laws.
use Prim.Native.Nat.{ℕ, zero, suc, ◌+◌, ◌%◌, ◌<◌}
use mathlib.Core.Path.{◌≡◌, refl, ap, ap₂}
use mathlib.Core.Logic.{◌≢◌}
use mathlib.Core.List.{List, [], ◌∷◌, ◌++◌}
use native.Mathlib.Omega.{arith}
use tinyshell_os.Base.Arrays.{Array, write, length}
use tinyshell_os.Base.Words.{word_mod}

pub record Slots : Type 0 where
  pub index : ℕ → ℕ
  pub depth : ℕ
  -- reducing a sequence number modulo 2^32 does not change the slots that it leads to
  pub wrap : (s k : ℕ) → index (s % word_mod + k) ≡ index (s + k)
  -- slots less than `depth` apart are distinct
  pub apart : (s j : ℕ) → j < depth → 0 < j → index (s + j) ≢ index s
  pub in_range : (s : ℕ) → index s < depth

module _ {ℓ} {A : Type ℓ} (slots : Slots) where
  open slots use {index, depth, wrap, apart}

  -- the `n` entries from sequence number `r` on, oldest first
  abbrev pub window : Array A → ℕ → ℕ → List A
  window q r zero = []
  window q r (suc n) = q (index r) ∷ window q (suc r) n

  window-congr :
      (q : Array A) (r s n : ℕ)
      → ((k : ℕ) → index (r + k) ≡ index (s + k))
      → window q r n ≡ window q s n
  window-congr q r s zero h = refl
  window-congr q r s (suc n) h =
      ap₂ ◌∷◌ (ap q (ground (arith, h 0)))
        (window-congr q (suc r) (suc s) n λ k. ground (arith, h (suc k)))

  -- Wrapping the oldest sequence number does not change what is pending.
  pub window-mod : (q : Array A) (r n : ℕ) → window q ((r + 1) % word_mod) n ≡ window q (suc r) n
  window-mod q r n = window-congr q ((r + 1) % word_mod) (suc r) n λ k. step k
    where
      step : (k : ℕ) → index ((r + 1) % word_mod + k) ≡ index (suc r + k)
      step k = ground (arith, wrap (r + 1) k)

  -- Writing just behind the `n` pending entries appends the value, and disturbs none of them.
  pub window-write :
      (q : Array A) (v : A) (r n i : ℕ)
      → n < depth
      → i ≡ index (r + n)
      → window (write q i v) r (suc n) ≡ window q r n ++ (v ∷ [])
  window-write q v r zero i h e = ground arith
  window-write q v r (suc n) i h e =
      ap₂ ◌∷◌ (ground (arith, apart r (suc n) h))
        (window-write q v (suc r) n i (omega arith) (ground arith))

  pub length-window : (q : Array A) (r n : ℕ) → length (window q r n) ≡ n
  length-window q r zero = refl
  length-window q r (suc n) = ap suc (length-window q (suc r) n)
