-- ===== src/Vmm/Walks.antt =====
-- What `vmm_translate` of kernel/mm/vmm.c and the processor find in the tables is the map.
use tinyshell_os.Base.{
  ℕ, ◌+◌, ◌-◌, ◌*◌, ◌/◌, ◌%◌, ◌<◌, ◌≡◌, ◌⊎◌, inl, inr, refl, ap, sym, ◌∙◌, true, false, ◌&&◌,
  Option, none, some, arith, Bool-cases, ltb, leb, ◌==◌, if◌then◌else◌, word_mod,
}
use tinyshell_os.Vmm.{Places, Vmm, no_table, page_present, page_writable, page_user, translate}
use tinyshell_os.Vmm.Registers.{Mapping, has, address_part}
use tinyshell_os.Vmm.Calls.{word_at, granted, walk_table, walk}
use tinyshell_os.Vmm.Model
use tinyshell_os.Vmm.Model.{Space, is_some}
use tinyshell_os.Vmm.Spaces.{IsPlaced, IsTabled, IsSpace, has_table, decode, view}
use tinyshell_os.Vmm.Unmaps.{entry_lem, no_entry}

directory_present :
    (base e : ℕ)
    → base % 4096 ≡ 0
    → (e ≡ base + 3) ⊎ (e ≡ base + 7)
    → (has page_present e ≡ true) × (has page_writable e ≡ true) × (address_part e ≡ base)
unfolding has
directory_present base e al h = ground arith

upper_lem :
    (places : Places) (s : Vmm) (m : Space) (d : ℕ)
    → IsPlaced places
    → IsTabled places s m
    → d < 1024
    → has_table s d ≡ true
    → (has page_present (s.page_directory d) ≡ true)
      × (has page_writable (s.page_directory d) ≡ true)
      × (address_part (s.page_directory d) ≡ places.tables + s.directory_table_indices d * 4096)
upper_lem places s m d r h lt g =
    directory_present (places.tables + s.directory_table_indices d * 4096) (s.page_directory d)
      (omega (arith, r.tables_aligned)) (h.tables d lt g).upper

absent_lem :
    (places : Places) (s : Vmm) (m : Space) (d : ℕ)
    → IsTabled places s m
    → d < 1024
    → has_table s d ≡ false
    → has page_present (s.page_directory d) ≡ false
unfolding has
absent_lem places s m d h lt g = rw (h.absent d lt g) refl

-- What `vmm_translate` finds at an address
abbrev seen : Vmm → ℕ → Option Mapping
seen s v =
    let d = v / 4194304 in
    if has page_present (s.page_directory d) && has_table s d
    then decode (s.page_tables (s.directory_table_indices d) (v / 4096 % 1024))
    else none

translate_lem :
    (s : Vmm) (v out : ℕ)
    → s.enabled ≡ true
    → translate v (some out) s ≡ Model.translate v (some out) (λ page. seen s v)
unfolding translate Model.translate decode
translate_lem s v out on =
    let d = v / 4194304 in
    let entry = s.page_tables (s.directory_table_indices d) (v / 4096 % 1024) in
    elim (Bool-cases (has page_present (s.page_directory d))) [
      | inr bad ↦ simp (on, bad) refl
      | inl good ↦ elim (Bool-cases (s.directory_table_indices d == no_table)) [
        | inl gone ↦ simp (on, good, gone) refl
        | inr there ↦ elim (Bool-cases (has page_present entry)) [
          | inl present ↦ simp (on, good, there, present) refl
          | inr absent ↦ simp (on, good, there, absent) refl
        ]
      ]
    ]

translate-congr :
    (v out : ℕ) (m n : Space)
    → m (v / 4096) ≡ n (v / 4096)
    → Model.translate v (some out) m ≡ Model.translate v (some out) n
unfolding Model.translate
translate-congr v out m n e = rw (Model.translate, e) refl

seen_lem :
    (places : Places) (s : Vmm) (m : Space) (v : ℕ)
    → IsPlaced places
    → IsTabled places s m
    → v < word_mod
    → seen s v ≡ m (v / 4096)
seen_lem places s m v r h lt = elim (Bool-cases (has_table s (v / 4194304))) [
  | inl g ↦
      let (present, writes, base) = upper_lem places s m (v / 4194304) r h (omega arith) g in
      rw (present, g) (sym (entry_lem places s m v h lt g))
  | inr gone ↦
      rw (absent_lem places s m (v / 4194304) h (omega arith) gone)
        (sym (no_entry places s m v h lt gone))
]

-- `vmm_translate` looks a page up in the map.
pub translate-Model :
    (places : Places) (s : Vmm) (m : Space) (v : ℕ) (out : Option ℕ)
    → IsPlaced places
    → IsSpace places s m
    → v < word_mod
    → translate v out s ≡ Model.translate v out m
unfolding translate Model.translate
translate-Model places s m v none r h lt = refl
translate-Model places s m v (some out) r h lt =
    translate_lem s v out h.tabled.on
    ∙ translate-congr v out (λ page. seen s v) m (seen_lem places s m v r h.tabled lt)

word_at_directory :
    (places : Places) (s : Vmm) (d : ℕ)
    → IsPlaced places
    → d < 1024
    → word_at places s (address_part places.directory + 4 * d) ≡ some (s.page_directory d)
unfolding word_at
word_at_directory places s d r lt =
    let q : address_part places.directory + 4 * d ≡ places.directory + 4 * d =
      omega (arith, r.directory_aligned) in
    let i : (places.directory + 4 * d - places.directory) / 4 ≡ d = omega arith in
    let lo : leb places.directory (places.directory + 4 * d) ≡ true = ground arith in
    let hi : ltb (places.directory + 4 * d) (places.directory + 4096) ≡ true = ground arith in
    rw (q, lo, hi, i) refl

word_at_table :
    (places : Places) (s : Vmm) (t index : ℕ)
    → IsPlaced places
    → t < 64
    → index < 1024
    → word_at places s (places.tables + t * 4096 + 4 * index) ≡ some (s.page_tables t index)
unfolding word_at
word_at_table places s t index r lt lt' =
    let a = places.tables + t * 4096 + 4 * index in
    let outside : (leb places.directory a && ltb a (places.directory + 4096)) ≡ false =
      ground (arith, r.apart) in
    let i : (a - places.tables) / 4096 ≡ t = omega arith in
    let j : (a - places.tables) / 4 % 1024 ≡ index = omega arith in
    let lo : leb places.tables a ≡ true = ground arith in
    let hi : ltb a (places.tables + 64 * 4096) ≡ true = ground arith in
    rw (outside, lo, hi, i, j) refl

-- The permissions of both levels are those of the lower one.
granted_lem :
    (upper lower : ℕ)
    → has page_writable upper ≡ true
    → (has page_user lower ≡ true → has page_user upper ≡ true)
    → granted upper lower ≡ record {
      frame = address_part lower;
      writable = has page_writable lower;
      user = has page_user lower;
    }
unfolding granted
granted_lem upper lower w u = elim (Bool-cases (has page_user lower)) [
  | inl on ↦ rw (w, on, u on) refl
  | inr off ↦ elim (Bool-cases (has page_user upper)) [
    | inl user ↦ rw (w, off, user) refl
    | inr kernel ↦ rw (w, off, kernel) refl
  ]
]

-- The user's permission in a mapped page's entry stands in the directory too.
user_upper :
    (places : Places) (s : Vmm) (m : Space) (page : ℕ)
    → IsTabled places s m
    → page < 1048576
    → has_table s (page / 1024) ≡ true
    → has page_present (s.page_tables (s.directory_table_indices (page / 1024)) (page % 1024))
      ≡ true
    → has page_user (s.page_tables (s.directory_table_indices (page / 1024)) (page % 1024)) ≡ true
    → has page_user (s.page_directory (page / 1024)) ≡ true
unfolding view decode
user_upper places s m page h lt g on u =
    let entry = s.page_tables (s.directory_table_indices (page / 1024)) (page % 1024) in
    let x : Mapping = record {
      frame = address_part entry;
      writable = has page_writable entry;
      user = has page_user entry;
    } in
    let e : view s page ≡ some x = rw (g, on) refl in h.users page x lt (h.pages page lt ∙ e) u

-- The processor's walk finds the map.
pub walk-Model :
    (places : Places) (s : Vmm) (m : Space) (page : ℕ)
    → IsPlaced places
    → IsTabled places s m
    → page < 1048576
    → walk places s page ≡ m page
unfolding walk walk_table view decode
walk-Model places s m page r h lt =
    let d = page / 1024 in
    let first : word_at places s (address_part s.processor.directory + 4 * d)
        ≡ some (s.page_directory d) =
      ap (λ a. word_at places s (address_part a + 4 * d)) h.loaded
      ∙ word_at_directory places s d r (omega arith) in
    elim (Bool-cases (has_table s d)) [
      | inr gone ↦
          let none_here : m page ≡ none = h.pages page lt ∙ rw gone refl in
          rw (walk, first, absent_lem places s m d h (omega arith) gone, none_here) refl
      | inl g ↦
          let t = s.directory_table_indices d in
          let (present, writes, base) = upper_lem places s m d r h (omega arith) g in
          let second : word_at places s (address_part (s.page_directory d) + 4 * (page % 1024))
              ≡ some (s.page_tables t (page % 1024)) =
            rw base (
              word_at_table places s t (page % 1024) r (h.tables d (omega arith) g).below
                (omega arith)) in
          elim (Bool-cases (has page_present (s.page_tables t (page % 1024)))) [
            | inr absent ↦
                let none_here : m page ≡ none = h.pages page lt ∙ rw (g, absent) refl in
                rw (walk, first, present, walk_table, second, absent, none_here) refl
            | inl on ↦
                let e = h.pages page lt in
                rw (walk, first, present, walk_table, second, on, e, g, on)
                  (ap some (
                    granted_lem (s.page_directory d) (s.page_tables t (page % 1024)) writes
                      (user_upper places s m page h lt g on)))
          ]
    ]
