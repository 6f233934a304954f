-- ===== src/Console/Digits.antt =====
-- Texts of digits, and the numbers that they spell.
use tinyshell_os.Base.{
  ℕ, ◌+◌, ◌-◌, ◌*◌, ◌<◌, ◌≡◌, refl, ap, sym, ◌∙◌, inl, inr, Bool, true, false, ◌&&◌, none, some,
  List, [], ◌∷◌, ◌++◌, arith, leb, ltb, not, Option, Option-cases, ◌==◌, if◌then◌else◌,
}

-- The value of a digit of the base, `0` to `9` and `a` to `f`
unfoldable pub digit_value : ℕ → ℕ → Option ℕ
digit_value base c =
    if leb b'0' c && (leb c b'9' && ltb (c - b'0') base)
    then some (c - b'0')
    else if leb b'a' c && (leb c b'f' && ltb (c - b'a' + 10) base)
    then some (c - b'a' + 10)
    else none

-- The number that a text spells behind the digits of `high`, none if a byte is no digit
unfoldable pub spelled : ℕ → List ℕ → ℕ → Option ℕ
spelled base [] high = some high
spelled base (c ∷ text) high = elim (digit_value base c) [
  | none ↦ none
  | some digit ↦ spelled base text (high * base + digit)
]

-- No digit is missing or in vain: only the number 0 starts with a 0.
unfoldable pub is_shortest : List ℕ → Bool
is_shortest [] = false
is_shortest (c ∷ []) = true
is_shortest (c ∷ d ∷ text) = not (c == b'0')

pub spelled-cons :
    (base c digit : ℕ) (text : List ℕ) (high : ℕ)
    → digit_value base c ≡ some digit
    → spelled base (c ∷ text) high ≡ spelled base text (high * base + digit)
unfolding spelled
spelled-cons base c digit text high e = rw (spelled, e) refl

pub spelled-append :
    (base : ℕ) (a b : List ℕ) (high middle : ℕ)
    → spelled base a high ≡ some middle
    → spelled base (a ++ b) high ≡ spelled base b middle
unfolding spelled
spelled-append base [] b high middle h =
    ap (λ (n : Option ℕ). elim n [ none ↦ none | some k ↦ spelled base b k ]) h
spelled-append base (c ∷ a) b high middle h = elim (Option-cases (digit_value base c)) [
  | inl e ↦ absurd (let z : none ≡ some middle = rw (spelled, e) at h in cc)
  | inr (digit, e) ↦
      let first = spelled-cons base c digit a high e in
      spelled-cons base c digit (a ++ b) high e
      ∙ spelled-append base a b (high * base + digit) middle (sym first ∙ h)
]

pub decimal_value : (n : ℕ) → n < 10 → digit_value 10 (b'0' + n) ≡ some n
unfolding digit_value
decimal_value n lt =
    let inside : (leb b'0' (b'0' + n) && (leb (b'0' + n) b'9' && ltb (b'0' + n - b'0') 10)) ≡ true =
      ground arith in
    let e : b'0' + n - b'0' ≡ n = omega arith in rw (inside, e) refl

-- A first digit that is not 0
unfoldable pub leads : List ℕ → Bool
leads [] = false
leads (c ∷ text) = not (c == b'0')

pub leads-append : (a b : List ℕ) → leads a ≡ true → leads (a ++ b) ≡ true
unfolding leads
leads-append [] b h = cc
leads-append (c ∷ a) b h = h

pub leads-is_shortest : (text : List ℕ) → leads text ≡ true → is_shortest text ≡ true
unfolding leads is_shortest
leads-is_shortest [] h = h
leads-is_shortest (c ∷ []) h = refl
leads-is_shortest (c ∷ d ∷ text) h = h

pub spelled-nil : (base value : ℕ) → spelled base [] value ≡ some value
unfolding spelled
spelled-nil base value = refl
