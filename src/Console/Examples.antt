-- ===== src/Console/Examples.antt =====
-- kernel/console/console.c on concrete texts.
use tinyshell_os.Base.{ℕ, ◌≡◌, refl, true, some, List, [], ◌∷◌, length, arith}
use tinyshell_os.Console.{Console, clear, put_all, write_text}
use tinyshell_os.Console.Screen.{blank_screen, feed_all}
use tinyshell_os.Console.Moves.{Shows}
use tinyshell_os.Console.Run.{write_text-clear-Shows}
use tinyshell_os.Console.Digits.{spelled, is_shortest}
use tinyshell_os.Console.Numbers.{
  write_u32_dec, write_u32_hex, digits_of, write_u32_dec-spelled, write_u32_hex-spelled,
}

abbrev boot : Console
boot = record { vga_buffer = λ i. i; vga_row = 24; vga_column = 79; sent = b'>' ∷ [] }

-- A character, a backspace over it and one at the first cell, a newline, and a tab.
abbrev typed : List ℕ
typed = b'a' ∷ 8 ∷ 8 ∷ 10 ∷ 9 ∷ b'b' ∷ 13 ∷ b'c' ∷ []

write_text-clear-Shows_example :
    Shows (write_text (some typed) (clear boot)) (feed_all typed (blank_screen (b'>' ∷ [])))
write_text-clear-Shows_example = write_text-clear-Shows boot typed

write_u32_dec-spelled_example :
    (text : List ℕ) × (write_u32_dec 4294967295 boot ≡ put_all text boot)
    × (is_shortest text ≡ true)
    × (spelled 10 text 0 ≡ some 4294967295)
write_u32_dec-spelled_example = write_u32_dec-spelled 4294967295 boot (omega arith)

write_u32_hex-spelled_example :
    (text : List ℕ) × (write_u32_hex 48879 boot ≡ put_all (b'0' ∷ b'x' ∷ text) boot)
    × (length text ≡ 8)
    × (spelled 16 text 0 ≡ some 48879)
write_u32_hex-spelled_example = write_u32_hex-spelled 48879 boot (omega arith)

digits_back : digits_of 10 408 ≡ b'8' ∷ b'0' ∷ b'4' ∷ []
unfolding digits_of
digits_back = refl
