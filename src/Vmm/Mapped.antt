-- ===== src/Vmm/Mapped.antt =====
-- The map that a new entry of kernel/mm/vmm.c makes, and the room in the pool of tables.
use tinyshell_os.Base.{
  ℕ, ◌+◌, ◌/◌, ◌%◌, ◌<◌, ◌≡◌, ◌≢◌, inl, inr, refl, ap, sym, ◌∙◌, true, false, not, Option, none,
  some, arith, Bool-cases, write, find_first, find_first-none, ltb, ◌==◌, word_mod,
}
use tinyshell_os.Base.Counts.{count, count-add, count-le, count-ext}
use tinyshell_os.Vmm.{Places, Vmm, page_present, page_user, make_page_flags, map_entry}
use tinyshell_os.Vmm.Registers.{has, address_part}
use tinyshell_os.Vmm.Model.{Space, used, is_some}
use tinyshell_os.Vmm.Spaces.{IsPlaced, IsTabled, IsSpace, has_table}
use tinyshell_os.Vmm.Changes.{entered-IsTabled}
use tinyshell_os.Vmm.Groups.{used_by, used-write}
use tinyshell_os.Vmm.Maps.{
  new_mapping, decode-new, user-Lets, kept-Lets, present_lem, has-make_page_flags,
}

-- One call agrees: the same reply, and tables that hold the map that is left.
abbrev pub Agree : {R : Type 0} → Places → R × Vmm → R × Space → Type 0
Agree places a b = (a.0 ≡ b.0) × IsSpace places a.1 b.1

mapped-Tabled :
    (places : Places) (s : Vmm) (m : Space) (v p flags : ℕ)
    → IsPlaced places
    → IsTabled places s m
    → v < word_mod
    → has_table s (v / 4194304) ≡ true
    → p % 4096 ≡ 0
    → flags < 4
    → is_some (m (v / 4096)) ≡ false
    → ((map_entry v p flags (s.directory_table_indices (v / 4194304)) s).0 ≡ true)
      × IsTabled places
          (map_entry v p flags (s.directory_table_indices (v / 4194304)) s).1
          (write m (v / 4096) (some (new_mapping p flags)))
unfolding map_entry
mapped-Tabled places s m v p flags r h lt g al lf free =
    let value = address_part p + make_page_flags flags in
    let d = v / 4194304 in
    let absent = present_lem places s m v h lt g ∙ free in
    let e = sym (decode-new p flags al lf) in
    let own = h.tables d (omega arith) g in
    elim (Bool-cases (has page_user (make_page_flags flags))) [
      | inl user ↦
          rw (absent, user)
            (
              refl,
              rw e
                  (entered-IsTabled places s m v value _ h lt g (user-Lets places s d value r own)),
            )
      | inr kept ↦
          rw (absent, kept)
            (
              refl,
              rw e (
                  entered-IsTabled places s m v value _ h lt g
                    (kept-Lets places s d value own (has-make_page_flags p flags lf ∙ kept))),
            )
    ]

map_entry-has_table :
    (s : Vmm) (v p flags t d : ℕ) → has_table (map_entry v p flags t s).1 d ≡ has_table s d
unfolding map_entry
map_entry-has_table s v p flags t d =
    elim (Bool-cases (has page_present (s.page_tables t (v / 4096 % 1024)))) [
      | inl on ↦ rw on refl
      | inr off ↦ elim (Bool-cases (has page_user (make_page_flags flags))) [
        | inl user ↦ rw (off, user) refl
        | inr kept ↦ rw (off, kept) refl
      ]
    ]

-- The map that is left, when all other groups kept their tables
pub mapped-Agree :
    (places : Places) (s : Vmm) (m : Space) (v p flags : ℕ)
    → IsPlaced places
    → IsTabled places s m
    → v < word_mod
    → has_table s (v / 4194304) ≡ true
    → p % 4096 ≡ 0
    → flags < 4
    → is_some (m (v / 4096)) ≡ false
    → ((d : ℕ) → d < 1024 → d ≢ v / 4194304 → used m d ≡ has_table s d)
    → Agree places
        (map_entry v p flags (s.directory_table_indices (v / 4194304)) s)
        (true, write m (v / 4096) (some (new_mapping p flags)))
mapped-Agree places s m v p flags r h lt g al lf free groups =
    let (reply, tabled) = mapped-Tabled places s m v p flags r h lt g al lf free in
    (
      reply,
      record {
        tabled = tabled;
        groups = λ d ld. elim (Bool-cases (d == v / 4194304)) [
          | inl same ↦
              let q : d ≡ v / 4096 / 1024 = ground arith in
              let q' : d ≡ v / 4194304 = ground arith in
              let here =
                used_by (write m (v / 4096) (some (new_mapping p flags))) (v / 4096)
                  (ground arith) in
              ap (used (write m (v / 4096) (some (new_mapping p flags)))) q
              ∙ here
              ∙ sym (
                  map_entry-has_table s v p flags (s.directory_table_indices (v / 4194304)) d
                  ∙ ap (has_table s) q'
                  ∙ g)
          | inr other ↦
              used-write m (v / 4096) d (some (new_mapping p flags)) (ground arith)
              ∙ groups d ld (ground arith)
              ∙ sym (map_entry-has_table s v p flags (s.directory_table_indices (v / 4194304)) d)
        ];
      },
    )

pub counted_groups :
    (places : Places) (s : Vmm) (m : Space)
    → IsSpace places s m
    → count (used m) 1024 ≡ count s.table_in_use 64
counted_groups places s m h = count-ext (used m) (has_table s) 1024 h.groups ∙ h.tabled.counts

abbrev pub free_table : Vmm → Option ℕ
free_table s = find_first (λ index. not (s.table_in_use index)) 32 32

taken_at :
    (places : Places) (s : Vmm) (m : Space) (j : ℕ)
    → IsTabled places s m
    → free_table s ≡ none
    → j < 64
    → s.table_in_use j ≡ true
taken_at places s m j h e lt = elim (Bool-cases (ltb j 32)) [
  | inl low ↦ h.fixed j (ground arith)
  | inr high ↦
      let n : not (s.table_in_use j) ≡ false =
        find_first-none (λ index. not (s.table_in_use index)) 32 32 j e (ground arith) lt in
      elim (Bool-cases (s.table_in_use j)) [
        | inl on ↦ on
        | inr off ↦ absurd (let z : true ≡ false = rw off at n in cc)
      ]
]

pub all_taken :
    (places : Places) (s : Vmm) (m : Space)
    → IsTabled places s m
    → free_table s ≡ none
    → count s.table_in_use 64 ≡ 64
unfolding count
all_taken places s m h e =
    count-ext s.table_in_use (λ j. true) 64 (λ j lt. taken_at places s m j h e lt)

pub some_free : (s : Vmm) (t : ℕ) → t < 64 → s.table_in_use t ≡ false → count s.table_in_use 64 < 64
some_free s t lt free = omega (
  arith,
  count-add s.table_in_use (write s.table_in_use t true) t 64 lt free (ground arith)
      (λ j ne. ground arith),
  count-le (write s.table_in_use t true) 64,
)
