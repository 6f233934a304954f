-- ===== src/Vmm/Starts.antt =====
-- `vmm_init` of kernel/mm/vmm.c maps the first 128 MiB.
use tinyshell_os.Base.{
  ℕ, suc, ◌+◌, ◌*◌, ◌/◌, ◌%◌, ◌<◌, ◌≡◌, inl, inr, refl, ap, sym, ◌∙◌, subst, true, false, none,
  some, arith, Bool-cases, Array, loop_inv, each_lem, ltb, ◌==◌, if◌then◌else◌,
}
use tinyshell_os.Base.Counts.{count}
use tinyshell_os.Vmm.{
  Places, Vmm, no_table, page_present, page_writable, page_user, table_entry, table_entries,
  no_tables, cleared_tables, identity_entries, identity_tables,
}
use tinyshell_os.Vmm.Registers.{Mapping, has, with_bit, address_part, load_directory, enable}
use tinyshell_os.Vmm.Model.{identity, used, is_some}
use tinyshell_os.Vmm.Spaces.{has_table, decode, view}
use tinyshell_os.Vmm.Groups.{used_by, unused}

-- The directory after `n` rounds of the first loop
pub record NoTables (n : ℕ) (s : Vmm) : Type 0 where
  pub zero_entries : (d : ℕ) → d < n → s.page_directory d ≡ 0
  pub no_indices : (d : ℕ) → d < n → s.directory_table_indices d ≡ no_table

pub no_tables-NoTables : (s : Vmm) → NoTables 1024 (no_tables s)
unfolding no_tables
no_tables-NoTables s =
    loop_inv NoTables _ 1024
      (λ i t lt h. record {
        zero_entries = λ d ld. ground (arith, h.zero_entries d);
        no_indices = λ d ld. ground (arith, h.no_indices d);
      })
      s
      (record {
        zero_entries = λ d ld. absurd (omega arith);
        no_indices = λ d ld. absurd (omega arith);
      })

-- The pool after `n` rounds of the second loop
pub record Cleared (n : ℕ) (s : Vmm) : Type 0 where
  pub directory : NoTables 1024 s
  pub identity_taken : (t : ℕ) → t < n → s.table_in_use t ≡ ltb t 32
  pub zero_tables : (t entry : ℕ) → t < n → entry < 1024 → s.page_tables t entry ≡ 0

pub cleared_tables-Cleared : (s : Vmm) → NoTables 1024 s → Cleared 64 (cleared_tables s)
unfolding cleared_tables
cleared_tables-Cleared s h =
    loop_inv Cleared _ 64
      (λ i t lt c. record {
        directory = record {
          zero_entries = c.directory.zero_entries;
          no_indices = c.directory.no_indices;
        };
        identity_taken = λ j lj. ground (arith, c.identity_taken j);
        zero_tables = λ j entry lj le. elim (Bool-cases (j == i)) [
          | inl same ↦
              rw same (each_lem table_entries (λ _ _. 0) (t.page_tables i) entry ∙ ground arith)
          | inr other ↦ rw other (c.zero_tables j entry (ground arith) le)
        ];
      })
      s
      (record {
        directory = h;
        identity_taken = λ j lj. absurd (omega arith);
        zero_tables = λ j entry lj le. absurd (omega arith);
      })

pub identity_entry : ℕ → ℕ → ℕ
identity_entry t entry = if t * 1024 + entry == 0 then 0 else (t * 1024 + entry) * 4096 + 3

-- The tables after `n` rounds of the third loop
pub record Identity (places : Places) (n : ℕ) (s : Vmm) : Type 0 where
  pub indices : (d : ℕ) → d < 1024 → s.directory_table_indices d ≡ (if ltb d n then d else no_table)
  pub upper :
      (d : ℕ) → d < 1024 → s.page_directory d ≡ (if ltb d n then table_entry places d else 0)
  pub in_use : (t : ℕ) → t < 64 → s.table_in_use t ≡ ltb t 32
  pub entries :
      (t entry : ℕ)
      → t < 32
      → entry < 1024
      → s.page_tables t entry ≡ (if ltb t n then identity_entry t entry else 0)

identity_entries_lem :
    (t entry : ℕ) (a : Array ℕ)
    → entry < 1024
    → a entry ≡ 0
    → identity_entries t a entry ≡ identity_entry t entry
unfolding identity_entries identity_entry with_bit has
identity_entries_lem t entry a lt z = each_lem table_entries _ a entry ∙ ground arith

pub identity_tables-Identity :
    (places : Places) (s : Vmm) → Cleared 64 s → Identity places 32 (identity_tables places s)
unfolding identity_tables
identity_tables-Identity places s c =
    loop_inv (Identity places) _ 32
      (λ i t lt h. record {
        indices = λ d ld. ground (arith, h.indices d ld);
        upper = λ d ld. elim (Bool-cases (d == i)) [
          | inl same ↦
              let q : d ≡ i = ground arith in
              let next : ltb d (suc i) ≡ true = ground arith in
              rw (same, next) (ap (table_entry places) (sym q))
          | inr other ↦ ground (arith, h.upper d ld)
        ];
        in_use = h.in_use;
        entries = λ j entry lj le. elim (Bool-cases (j == i)) [
          | inl same ↦
              let q : j ≡ i = ground arith in
              let next : ltb j (suc i) ≡ true = ground arith in
              let past : ltb i i ≡ false = ground arith in
              let z : t.page_tables i entry ≡ 0 = h.entries i entry lt le ∙ rw past refl in
              rw (same, next)
                (identity_entries_lem i entry (t.page_tables i) le z
                  ∙ ap (λ k. identity_entry k entry) (sym q))
          | inr other ↦ ground (arith, h.entries j entry lj le)
        ];
      })
      s
      (record {
        indices = λ d ld. ground (arith, c.directory.no_indices d ld);
        upper = λ d ld. ground (arith, c.directory.zero_entries d ld);
        in_use = c.identity_taken;
        entries = λ j entry lj le. ground (arith, c.zero_tables j entry);
      })

pub identity_groups : (d : ℕ) → d < 1024 → used identity d ≡ ltb d 32
identity_groups d lt = elim (Bool-cases (ltb d 32)) [
  | inl low ↦
      let q : (d * 1024 + 1) / 1024 ≡ d = omega arith in
      let k : is_some (identity (d * 1024 + 1)) ≡ true = ground arith in
      rw low (subst (λ c. used identity c ≡ true) q (used_by identity (d * 1024 + 1) k))
  | inr high ↦ rw high (
      unused identity d λ index li.
        let past : ltb (d * 1024 + index) 32768 ≡ false = ground arith in
        let some_page : (d * 1024 + index == 0) ≡ false = ground arith in rw (past, some_page) refl)
]

pub low_groups : count (λ d. ltb d 32) 1024 ≡ count (λ t. ltb t 32) 64
unfolding count
low_groups = refl

abbrev pub started : Places → Vmm → Vmm
started places t = record t {
  processor = enable (load_directory places.directory t.processor);
  enabled = true;
}

pub started-has_table :
    (places : Places) (t : Vmm) (d : ℕ) → Identity places 32 t → d < 1024 → has_table t d ≡ ltb d 32
started-has_table places t d h lt = ground (arith, h.indices d lt)

identity-decode :
    (page : ℕ) → page < 32768 → identity page ≡ decode (identity_entry (page / 1024) (page % 1024))
unfolding identity_entry decode has
identity-decode page lt =
    let q : page / 1024 * 1024 + page % 1024 ≡ page = omega arith in
    elim (Bool-cases (page == 0)) [
      | inl first ↦ rw (q, first) refl
      | inr other ↦
          let low : ltb page 32768 ≡ true = ground arith in
          let on : has page_present (page * 4096 + 3) ≡ true = ground arith in
          let writes : has page_writable (page * 4096 + 3) ≡ true = ground arith in
          let kernel : has page_user (page * 4096 + 3) ≡ false = ground arith in
          let frame : address_part (page * 4096 + 3) ≡ page * 4096 = omega arith in
          rw (q, other, low, on, writes, kernel, frame) refl
    ]

pub started-view :
    (places : Places) (t : Vmm) (page : ℕ)
    → Identity places 32 t
    → page < 1048576
    → identity page ≡ view t page
unfolding view
started-view places t page h lt =
    let d = page / 1024 in
    let g = started-has_table places t d h (omega arith) in
    elim (Bool-cases (ltb d 32)) [
      | inl low ↦
          let i : t.directory_table_indices d ≡ d = h.indices d (omega arith) ∙ rw low refl in
          let e : t.page_tables d (page % 1024) ≡ identity_entry d (page % 1024) =
            h.entries d (page % 1024) (ground arith) (omega arith) ∙ rw low refl in
          let g' : has_table t d ≡ true = g ∙ low in
          identity-decode page (ground arith) ∙ sym (rw (g', i, e) refl)
      | inr high ↦
          let g' : has_table t d ≡ false = g ∙ high in
          let past : ltb page 32768 ≡ false = ground arith in
          let some_page : (page == 0) ≡ false = ground arith in rw (g', past, some_page) refl
    ]

pub identity-user : (page : ℕ) (x : Mapping) → identity page ≡ some x → x.user ≡ false
identity-user page x e = elim (Bool-cases (page == 0)) [
  | inl first ↦ absurd (let z : none ≡ some x = rw first at e in cc)
  | inr other ↦ elim (Bool-cases (ltb page 32768)) [
    | inl low ↦
        let y : Mapping = record { frame = page * 4096; writable = true; user = false } in
        let z : some y ≡ some x = rw (other, low) at e in
        let z' : y ≡ x = cc in sym (ap (λ (w : Mapping). w.user) z')
    | inr high ↦ absurd (let z : none ≡ some x = rw (other, high) at e in cc)
  ]
]
