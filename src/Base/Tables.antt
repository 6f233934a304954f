-- ===== src/Base/Tables.antt =====
-- Statements about all numbers below a bound, checked by evaluation.
use Prim.Native.Nat.{ℕ, ◌<◌}
use mathlib.Core.Path.{◌≡◌, refl}
use mathlib.Core.Bool.{Bool, true, false, not}
use mathlib.Core.Option.{Option, none, some}
use native.Mathlib.Omega.{arith}
use tinyshell_os.Base.Tests.{◌==◌}
use tinyshell_os.Base.Search.{find_first, find_first-none}

-- A search for a counterexample that finds none.
pub no_counterexample :
    (bound : ℕ) (p : ℕ → Bool) {a : ℕ}
    → find_first (λ x. not (p x)) bound 0 ≡ none
    → a < bound
    → p a ≡ true
no_counterexample bound p {a} searched lt =
    ground (arith, find_first-none (λ x. not (p x)) bound 0 a searched)

abbrev pub same_option : Option ℕ → Option ℕ → Bool
same_option none none = true
same_option (some a) (some b) = a == b
same_option _ _ = false

pub same_option_sound : (a b : Option ℕ) → same_option a b ≡ true → a ≡ b
same_option_sound none none h = refl
same_option_sound none (some b) h = cc
same_option_sound (some a) none h = cc
same_option_sound (some a) (some b) h = ground arith
