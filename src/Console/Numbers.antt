-- ===== src/Console/Numbers.antt =====
-- `console_write_u32_dec` and `console_write_u32_hex` of kernel/console/console.c.
use tinyshell_os.Base.{
  ℕ, zero, suc, ◌+◌, ◌-◌, ◌*◌, ◌/◌, ◌%◌, ◌^◌, ◌<◌, ◌≡◌, refl, ap, sym, ◌∙◌, inl, inr, true, false,
  none, some, List, [], ◌∷◌, ◌++◌, get_elem?, length, arith, loop, Bool-cases, word_mod, ◌==◌,
  if◌then◌else◌,
}
use tinyshell_os.Console.Digits.{
  digit_value, spelled, is_shortest, spelled-cons, spelled-append, decimal_value, leads,
  leads-append, leads-is_shortest, spelled-nil,
}
use tinyshell_os.Console.{Console, putc, put_all}

-- The buffer that the digits are collected in, the lowest first; `n` is the number of its places
-- that are left.
unfoldable pub digits_of : ℕ → ℕ → List ℕ
digits_of zero value = []
digits_of (suc n) value = elim (value == 0) [
  | true ↦ []
  | false ↦ (b'0' + value % 10) ∷ digits_of n (value / 10)
]

-- The digits from the last one in the buffer down.
unfoldable pub put_back : List ℕ → Console → Console
put_back [] s = s
put_back (d ∷ digits) s = putc d (put_back digits s)

unfoldable pub write_u32_dec : ℕ → Console → Console
write_u32_dec value s = if value == 0 then putc b'0' s else put_back (digits_of 10 value) s

abbrev hex_digits : List ℕ
hex_digits =
    b'0' ∷ b'1' ∷ b'2' ∷ b'3' ∷ b'4' ∷ b'5' ∷ b'6' ∷ b'7' ∷ b'8' ∷ b'9' ∷ b'a' ∷ b'b' ∷ b'c' ∷ b'd'
    ∷ b'e' ∷ b'f' ∷ []

-- `digits[index]`, of an index below 16
abbrev hex_digit : ℕ → ℕ
hex_digit index = elim (get_elem? hex_digits index) [ none ↦ 0 | some digit ↦ digit ]

unfoldable pub write_u32_hex : ℕ → Console → Console
write_u32_hex value s =
    loop 8 (λ i s. putc (hex_digit (value / 16 ^ (7 - i) % 16)) s) (put_all (b'0' ∷ b'x' ∷ []) s)

backwards : List ℕ → List ℕ
backwards [] = []
backwards (d ∷ digits) = backwards digits ++ (d ∷ [])

put_all-append : (a b : List ℕ) (s : Console) → put_all (a ++ b) s ≡ put_all b (put_all a s)
unfolding put_all
put_all-append [] b s = refl
put_all-append (c ∷ a) b s = put_all-append a b (putc c s)

put_back-backwards :
    (digits : List ℕ) (s : Console) → put_back digits s ≡ put_all (backwards digits) s
unfolding put_back put_all backwards
put_back-backwards [] s = refl
put_back-backwards (d ∷ digits) s =
    ap (putc d) (put_back-backwards digits s) ∙ sym (put_all-append (backwards digits) (d ∷ []) s)

-- What is left of a number behind `n` digits
abbrev rest : ℕ → ℕ → ℕ
rest zero value = value
rest (suc n) value = rest n (value / 10)

digits_of-spelled :
    (n value : ℕ) → rest n value ≡ 0 → spelled 10 (backwards (digits_of n value)) 0 ≡ some value
unfolding digits_of spelled backwards
digits_of-spelled zero value h = ap some (sym h)
digits_of-spelled (suc n) value h = elim (Bool-cases (value == 0)) [
  | inl none_left ↦ rw (digits_of, none_left) (ap some (ground arith))
  | inr some_left ↦
      let e : value / 10 * 10 + value % 10 ≡ value = omega arith in
      rw (digits_of, some_left)
        (spelled-append 10 (backwards (digits_of n (value / 10))) _ 0 (value / 10)
            (digits_of-spelled n (value / 10) h)
          ∙ spelled-cons 10 _ _ [] (value / 10) (decimal_value (value % 10) (omega arith))
          ∙ ap some e)
]

digits_of-zero : (n : ℕ) → digits_of n 0 ≡ []
unfolding digits_of
digits_of-zero zero = refl
digits_of-zero (suc n) = refl

digits_of-leads :
    (n value : ℕ)
    → rest n value ≡ 0
    → (value == 0) ≡ false
    → leads (backwards (digits_of n value)) ≡ true
unfolding digits_of backwards leads
digits_of-leads zero value h some_left = ground arith
digits_of-leads (suc n) value h some_left = elim (Bool-cases (value / 10 == 0)) [
  | inl last ↦
      let e : value / 10 ≡ 0 = ground arith in
      let digit : (b'0' + value % 10 == b'0') ≡ false = ground arith in
      rw (digits_of, some_left, e, digits_of-zero n, digit) refl
  | inr more ↦
      rw (digits_of, some_left)
        (leads-append (backwards (digits_of n (value / 10))) _
          (digits_of-leads n (value / 10) h more))
]

-- For a 32-bit number `console_write_u32_dec` writes its decimal digits, and as few as spell it: one
-- for 0, and no leading 0 otherwise. The ten places of its buffer are enough.
pub write_u32_dec-spelled :
    (value : ℕ) (s : Console)
    → value < word_mod
    → (text : List ℕ) × (write_u32_dec value s ≡ put_all text s)
      × (is_shortest text ≡ true)
      × (spelled 10 text 0 ≡ some value)
unfolding write_u32_dec put_all spelled is_shortest digit_value
write_u32_dec-spelled value s lt = elim (Bool-cases (value == 0)) [
  | inl zero_value ↦
      let e : value ≡ 0 = ground arith in (b'0' ∷ [], rw zero_value refl, refl, ap some (sym e))
  | inr other ↦ (
    backwards (digits_of 10 value),
    rw other (put_back-backwards (digits_of 10 value) s),
    leads-is_shortest _ (digits_of-leads 10 value (omega arith) other),
    digits_of-spelled 10 value (omega arith),
  )
]

hex_digit-value : (n : ℕ) → n < 16 → digit_value 16 (hex_digit n) ≡ some n
unfolding digit_value
hex_digit-value n lt = ground arith

abbrev hex_text : ℕ → List ℕ
hex_text value =
    hex_digit (value / 16 ^ 7 % 16)
    ∷ hex_digit (value / 16 ^ 6 % 16)
    ∷ hex_digit (value / 16 ^ 5 % 16)
    ∷ hex_digit (value / 16 ^ 4 % 16)
    ∷ hex_digit (value / 16 ^ 3 % 16)
    ∷ hex_digit (value / 16 ^ 2 % 16)
    ∷ hex_digit (value / 16 ^ 1 % 16)
    ∷ hex_digit (value / 16 ^ 0 % 16)
    ∷ []

spelled-hex :
    (digit high next value : ℕ) (text : List ℕ)
    → digit < 16
    → high * 16 + digit ≡ next
    → spelled 16 text next ≡ some value
    → spelled 16 (hex_digit digit ∷ text) high ≡ some value
spelled-hex digit high next value text lt e h =
    spelled-cons 16 (hex_digit digit) digit text high (hex_digit-value digit lt)
    ∙ ap (spelled 16 text) e
    ∙ h

hex_text-spelled : (value : ℕ) → value < word_mod → spelled 16 (hex_text value) 0 ≡ some value
hex_text-spelled value lt =
    spelled-hex (value / 16 ^ 7 % 16) 0 (value / 16 ^ 7) value _ (omega arith) (omega arith) (
      spelled-hex (value / 16 ^ 6 % 16) (value / 16 ^ 7) (value / 16 ^ 6) value _ (omega arith)
        (omega arith)
        (spelled-hex (value / 16 ^ 5 % 16) (value / 16 ^ 6) (value / 16 ^ 5) value _ (omega arith)
          (omega arith)
          (spelled-hex (value / 16 ^ 4 % 16) (value / 16 ^ 5) (value / 16 ^ 4) value _ (omega arith)
            (omega arith)
            (spelled-hex (value / 16 ^ 3 % 16) (value / 16 ^ 4) (value / 16 ^ 3) value _
              (omega arith) (omega arith)
              (spelled-hex (value / 16 ^ 2 % 16) (value / 16 ^ 3) (value / 16 ^ 2) value _
                (omega arith) (omega arith)
                (spelled-hex (value / 16 ^ 1 % 16) (value / 16 ^ 2) (value / 16 ^ 1) value _
                  (omega arith) (omega arith)
                  (spelled-hex (value / 16 ^ 0 % 16) (value / 16 ^ 1) value value _ (omega arith)
                    (omega arith) (spelled-nil 16 value))))))))

-- For a 32-bit number `console_write_u32_hex` writes 0x and eight digits, `0` to `9` and `a` to `f`,
-- that spell the number to the base 16.
pub write_u32_hex-spelled :
    (value : ℕ) (s : Console)
    → value < word_mod
    → (text : List ℕ) × (write_u32_hex value s ≡ put_all (b'0' ∷ b'x' ∷ text) s)
      × (length text ≡ 8)
      × (spelled 16 text 0 ≡ some value)
unfolding write_u32_hex put_all loop
write_u32_hex-spelled value s lt = (hex_text value, refl, refl, hex_text-spelled value lt)
