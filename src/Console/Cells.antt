-- ===== src/Console/Cells.antt =====
-- The loops of kernel/console/console.c over the cells of the screen.
use tinyshell_os.Base.{
  ℕ, zero, suc, ◌+◌, ◌-◌, ◌*◌, ◌≤◌, ◌<◌, ◌≡◌, ◌≢◌, refl, ◌∙◌, inl, inr, ◌&&◌, arith, Array, loop,
  Bool-cases, ltb, ◌==◌, if◌then◌else◌,
}
use tinyshell_os.Console.{width, height, vga_blank, vga_put_cell, put_row, scrolled, cleared}

abbrev pub cell : Array ℕ → ℕ → ℕ → ℕ
cell b r c = b (r * width + c)

pub vga_put_cell-cell :
    (row column entry : ℕ) (b : Array ℕ) (r c : ℕ)
    → row < height
    → column < width
    → c < width
    → cell (vga_put_cell row column entry b) r c
      ≡ (if r == row && c == column then entry else cell b r c)
unfolding vga_put_cell
vga_put_cell-cell row column entry b r c lr lc lt = ground arith

-- A row is filled from what the row's own cells do not change.
pub put_row-cell :
    (row : ℕ) (entry : ℕ → Array ℕ → ℕ) (value : ℕ → ℕ) (n : ℕ) (b : Array ℕ)
    → row < height
    → n ≤ width
    → ((column : ℕ) (b' : Array ℕ)
        → column < width
        → ((r c : ℕ) → r ≢ row → c < width → cell b' r c ≡ cell b r c)
        → entry column b' ≡ value column)
    → (r c : ℕ) → c < width
    → cell (put_row row entry n b) r c ≡ (if r == row && ltb c n then value c else cell b r c)
unfolding put_row loop
put_row-cell row entry value zero b lr le same r c lt = ground arith
put_row-cell row entry value (suc n) b lr le same r c lt =
    let before = put_row row entry n b in
    let ih : (r' c' : ℕ)
        → c' < width
        → cell before r' c' ≡ (if r' == row && ltb c' n then value c' else cell b r' c') =
      put_row-cell row entry value n b lr (omega arith) same in
    let e : entry n before ≡ value n =
      same n before (omega arith) λ r' c' ne lt'. ih r' c' lt' ∙ ground arith in
    vga_put_cell-cell row n (entry n before) before r c lr (omega arith) lt
    ∙ ground (arith, e, ih r c lt)

pub blank_row-cell :
    (row : ℕ) (b : Array ℕ) (r c : ℕ)
    → row < height
    → c < width
    → cell (put_row row (λ _ _. vga_blank) width b) r c
      ≡ (if r == row then vga_blank else cell b r c)
blank_row-cell row b r c lr lt =
    put_row-cell row (λ _ _. vga_blank) (λ _. vga_blank) width b lr (omega arith)
      (λ column b' lc same. refl) r c lt
    ∙ ground arith

rows_up :
    (n : ℕ) (b : Array ℕ) (r c : ℕ)
    → n < height
    → c < width
    → cell
        (loop n (λ row b. put_row row (λ column b. b ((row + 1) * width + column)) width b) b)
        r
        c
      ≡ (if ltb r n then cell b (r + 1) c else cell b r c)
unfolding loop
rows_up zero b r c ln lt = ground arith
rows_up (suc n) b r c ln lt =
    let before =
      loop n (λ row b. put_row row (λ column b. b ((row + 1) * width + column)) width b) b in
    put_row-cell n (λ column b. b ((n + 1) * width + column)) (λ column. cell before (n + 1) column)
      width before (omega arith) (omega arith)
      (λ column b' lc same. same (n + 1) column (omega arith) lc) r c lt
    ∙ elim (Bool-cases (r == n)) [
      | inl last ↦
          let e : r ≡ n = ground arith in ground (arith, rows_up n b (n + 1) c (omega arith) lt)
      | inr other ↦ ground (arith, rows_up n b r c (omega arith) lt)
    ]

-- The rows move up, and the last one is blank.
pub scrolled-cell :
    (b : Array ℕ) (r c : ℕ)
    → r < height
    → c < width
    → cell (scrolled b) r c ≡ (if r == height - 1 then vga_blank else cell b (r + 1) c)
unfolding scrolled
scrolled-cell b r c lr lt =
    blank_row-cell (height - 1) _ r c (omega arith) lt
    ∙ ground (arith, rows_up (height - 1) b r c (omega arith) lt)

rows_blank :
    (n : ℕ) (b : Array ℕ) (r c : ℕ)
    → n ≤ height
    → c < width
    → cell (loop n (λ row b. put_row row (λ _ _. vga_blank) width b) b) r c
      ≡ (if ltb r n then vga_blank else cell b r c)
unfolding loop
rows_blank zero b r c ln lt = ground arith
rows_blank (suc n) b r c ln lt =
    blank_row-cell n _ r c (omega arith) lt ∙ ground (arith, rows_blank n b r c (omega arith) lt)

pub cleared-cell :
    (b : Array ℕ) (r c : ℕ) → r < height → c < width → cell (cleared b) r c ≡ vga_blank
unfolding cleared
cleared-cell b r c lr lt = rows_blank height b r c (omega arith) lt ∙ ground arith
