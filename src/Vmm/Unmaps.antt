-- ===== src/Vmm/Unmaps.antt =====
-- An entry of kernel/mm/vmm.c that is removed, and the table that goes with its last one.
use tinyshell_os.Base.{
  ℕ, ◌+◌, ◌*◌, ◌/◌, ◌%◌, ◌≤◌, ◌<◌, ◌≡◌, ◌≢◌, inl, inr, refl, ap, sym, ◌∙◌, true, false, not, none,
  some, arith, Bool-cases, Option-cases, write, find_first, find_first-none, find_first-congr, leb,
  ◌==◌, word_mod,
}
use tinyshell_os.Vmm.{
  Places, Vmm, page_present, page_writable, page_user, table_is_empty, drop_empty,
}
use tinyshell_os.Vmm.Registers.{Mapping, has, address_part}
use tinyshell_os.Vmm.Model.{Space, used, is_some}
use tinyshell_os.Vmm.Spaces.{IsTabled, IsSpace, has_table, decode, view}
use tinyshell_os.Vmm.Changes.{entered, entered-IsTabled}
use tinyshell_os.Vmm.Tables.{dropped, dropped-IsTabled}
use tinyshell_os.Vmm.Groups.{used-write}
use tinyshell_os.Vmm.Maps.{kept-Lets, page_present_lem}

abbrev pub removed : ℕ → Vmm → Vmm
removed v s = entered v 0 s.page_directory s

removed-IsTabled :
    (places : Places) (s : Vmm) (m : Space) (v : ℕ)
    → IsTabled places s m
    → v < word_mod
    → has_table s (v / 4194304) ≡ true
    → IsTabled places (removed v s) (write m (v / 4096) none)
unfolding decode has
removed-IsTabled places s m v h lt g =
    entered-IsTabled places s m v 0 s.page_directory h lt g
      (kept-Lets places s (v / 4194304) 0 (h.tables (v / 4194304) (omega arith) g) (ground arith))

-- A table is empty exactly if no page of its group is mapped.
table_is_empty-used :
    (places : Places) (s : Vmm) (m : Space) (d : ℕ)
    → IsTabled places s m
    → d < 1024
    → has_table s d ≡ true
    → table_is_empty (s.directory_table_indices d) s ≡ not (used m d)
unfolding table_is_empty used
table_is_empty-used places s m d h lt g =
    let e : find_first
          (λ entry. has page_present (s.page_tables (s.directory_table_indices d) entry)) 1024 0
        ≡ find_first (λ index. is_some (m (d * 1024 + index))) 1024 0 =
      find_first-congr _ _ 1024 0 λ j lo hi.
        let q : (d * 1024 + j) / 1024 ≡ d = omega arith in
        let q' : (d * 1024 + j) % 1024 ≡ j = omega arith in
        rw (q, q') at (page_present_lem places s m (d * 1024 + j) h (omega arith) (rw q g)) in
    elim (Option-cases (find_first (λ index. is_some (m (d * 1024 + index))) 1024 0)) [
      | inl n ↦ rw (table_is_empty, used, e, n) refl
      | inr (i, n) ↦ rw (table_is_empty, used, e, n) refl
    ]

empty_entries :
    (s : Vmm) (t entry : ℕ)
    → table_is_empty t s ≡ true
    → entry < 1024
    → has page_present (s.page_tables t entry) ≡ false
unfolding table_is_empty
empty_entries s t entry h lt =
    elim (Option-cases (find_first (λ e. has page_present (s.page_tables t e)) 1024 0)) [
      | inl e ↦
          find_first-none (λ e. has page_present (s.page_tables t e)) 1024 0 entry e (omega arith)
            lt
      | inr (i, e) ↦ absurd (let z : false ≡ true = rw (table_is_empty, e) at h in cc)
    ]

-- The table goes when no page of its group is left.
drop_empty-IsSpace :
    (places : Places) (s : Vmm) (m : Space) (d : ℕ)
    → IsTabled places s m
    → 32 ≤ d
    → d < 1024
    → has_table s d ≡ true
    → ((c : ℕ) → c < 1024 → c ≢ d → used m c ≡ has_table s c)
    → IsSpace places (drop_empty d (s.directory_table_indices d) s) m
unfolding drop_empty
drop_empty-IsSpace places s m d h lo lt g groups =
    let t = s.directory_table_indices d in
    let high : leb 32 t ≡ true = ground (arith, (h.tables d lt g).dynamic lo) in
    let counts = table_is_empty-used places s m d h lt g in
    elim (Bool-cases (table_is_empty t s)) [
      | inl empty ↦
          simp (high, empty)
            (record {
              tabled =
                  dropped-IsTabled places s m d h lo lt g
                    (λ entry le. empty_entries s t entry empty le);
              groups = λ c lc. elim (Bool-cases (c == d)) [
                | inl same ↦
                    let q : c ≡ d = ground arith in
                    let none_left : used m d ≡ false = ground arith in
                    let after : has_table (dropped d s) c ≡ false = ground arith in
                    ap (used m) q ∙ none_left ∙ sym after
                | inr other ↦ groups c lc (ground arith) ∙ ground arith
              ];
            })
      | inr some_left ↦
          simp (high, some_left)
            (record {
              tabled = h;
              groups = λ c lc. elim (Bool-cases (c == d)) [
                | inl same ↦
                    let q : c ≡ d = ground arith in
                    let some_used : used m d ≡ true = ground arith in
                    ap (used m) q ∙ some_used ∙ sym (ap (has_table s) q ∙ g)
                | inr other ↦ groups c lc (ground arith)
              ];
            })
    ]

pub decode-frame : (entry : ℕ) (x : Mapping) → decode entry ≡ some x → address_part entry ≡ x.frame
unfolding decode
decode-frame entry x e = elim (Bool-cases (has page_present entry)) [
  | inl on ↦
      let r : some (record {
        frame = address_part entry;
        writable = has page_writable entry;
        user = has page_user entry;
      })
          ≡ some x =
        rw on at e in
      let r' : record {
        frame = address_part entry;
        writable = has page_writable entry;
        user = has page_user entry;
      }
          ≡ x =
        cc in
      ap (λ (y : Mapping). y.frame) r'
  | inr off ↦ absurd (let r : none ≡ some x = rw off at e in cc)
]

-- The entry of a page that has a table
pub entry_lem :
    (places : Places) (s : Vmm) (m : Space) (a : ℕ)
    → IsTabled places s m
    → a < word_mod
    → has_table s (a / 4194304) ≡ true
    → m (a / 4096)
      ≡ decode (s.page_tables (s.directory_table_indices (a / 4194304)) (a / 4096 % 1024))
unfolding view
entry_lem places s m a h lt g =
    let q : a / 4096 / 1024 ≡ a / 4194304 = omega arith in
    h.pages (a / 4096) (omega arith) ∙ rw (q, g) refl

-- A page without a table is not mapped.
pub no_entry :
    (places : Places) (s : Vmm) (m : Space) (a : ℕ)
    → IsTabled places s m
    → a < word_mod
    → has_table s (a / 4194304) ≡ false
    → m (a / 4096) ≡ none
unfolding view
no_entry places s m a h lt g =
    let q : a / 4096 / 1024 ≡ a / 4194304 = omega arith in
    h.pages (a / 4096) (omega arith) ∙ rw (q, g) refl

pub unmapped-IsSpace :
    (places : Places) (s : Vmm) (m : Space) (v : ℕ)
    → IsSpace places s m
    → v < word_mod
    → 0x40000000 ≤ v
    → has_table s (v / 4194304) ≡ true
    → IsSpace places
        (drop_empty (v / 4194304) (s.directory_table_indices (v / 4194304)) (removed v s))
        (write m (v / 4096) none)
unmapped-IsSpace places s m v h lt lo g =
    drop_empty-IsSpace places (removed v s) (write m (v / 4096) none) (v / 4194304)
      (removed-IsTabled places s m v h.tabled lt g) (omega arith) (omega arith) g
      λ c lc ne. used-write m (v / 4096) c none (omega arith) ∙ h.groups c lc
