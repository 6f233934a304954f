-- ===== src/Vmm/Changes.antt =====
-- The changes that kernel/mm/vmm.c makes to its tables, one at a time.
use tinyshell_os.Base.{
  ℕ, ◌+◌, ◌*◌, ◌/◌, ◌%◌, ◌<◌, ◌≡◌, ◌≢◌, ◌⊎◌, inl, inr, refl, ap, sym, ◌∙◌, true, false, none, some,
  arith, Bool-cases, write, Array, ◌==◌, word_mod, each_lem, each,
}
use tinyshell_os.Vmm.{
  Places, Vmm, page_present, page_writable, page_user, table_entry, table_entries,
}
use tinyshell_os.Vmm.Registers.{Mapping, has, address_part, invalidate}
use tinyshell_os.Vmm.Model.{Space}
use tinyshell_os.Vmm.Spaces.{IsTabled, has_table, decode, view}

-- A new entry for the page of the address `a`, whose directory entry may change too
abbrev pub entered : ℕ → ℕ → Array ℕ → Vmm → Vmm
entered a v directory s =
    let t = s.directory_table_indices (a / 4194304) in
    record s {
      page_tables = write s.page_tables t (write (s.page_tables t) (a / 4096 % 1024) v);
      page_directory = directory;
      processor = invalidate a s.processor;
    }

-- What the directory entries may change to
pub record Lets (places : Places) (s : Vmm) (d v : ℕ) (directory : Array ℕ) : Type 0 where
  pub others : (c : ℕ) → c ≢ d → directory c ≡ s.page_directory c
  pub here :
      (directory d ≡ places.tables + s.directory_table_indices d * 4096 + 3)
      ⊎ (directory d ≡ places.tables + s.directory_table_indices d * 4096 + 7)
  pub stays : has page_user (s.page_directory d) ≡ true → has page_user (directory d) ≡ true
  pub lets_user : has page_user v ≡ true → has page_user (directory d) ≡ true

entered-view :
    (places : Places) (s : Vmm) (m : Space) (a v : ℕ) (directory : Array ℕ) (page : ℕ)
    → IsTabled places s m
    → a < word_mod
    → page < 1048576
    → has_table s (a / 4194304) ≡ true
    → write m (a / 4096) (decode v) page ≡ view (entered a v directory s) page
unfolding view
entered-view places s m a v directory page h lt lt' g = elim (Bool-cases (page == a / 4096)) [
  | inl same ↦
      let e : page ≡ a / 4096 = ground arith in
      let q : a / 4096 / 1024 ≡ a / 4194304 = omega arith in rw (e, q, g) (ground arith)
  | inr other ↦ elim (Bool-cases (page / 1024 == a / 4194304)) [
    | inl group ↦
        let q : page / 1024 ≡ a / 4194304 = ground arith in
        let n : page % 1024 ≢ a / 4096 % 1024 = ground arith in ground (arith, h.pages page lt')
    | inr apart ↦ elim (Bool-cases (has_table s (page / 1024))) [
      | inl here ↦ ground (
        arith,
        h.pages page lt',
        h.distinct (page / 1024) (a / 4194304) (omega arith) (omega arith) (ground arith) g,
      )
      | inr gone ↦ ground (arith, h.pages page lt')
    ]
  ]
]

decode-user : (v : ℕ) (x : Mapping) → decode v ≡ some x → x.user ≡ true → has page_user v ≡ true
unfolding decode
decode-user v x e u = elim (Bool-cases (has page_present v)) [
  | inl on ↦
      let r : some (record {
        frame = address_part v;
        writable = has page_writable v;
        user = has page_user v;
      })
          ≡ some x =
        rw on at e in
      let r' : record {
        frame = address_part v;
        writable = has page_writable v;
        user = has page_user v;
      }
          ≡ x =
        cc in
      ap (λ (y : Mapping). y.user) r' ∙ u
  | inr off ↦ absurd (let r : none ≡ some x = rw off at e in cc)
]

entered-users :
    (places : Places) (s : Vmm) (m : Space) (a v : ℕ) (directory : Array ℕ) (page : ℕ) (x : Mapping)
    → IsTabled places s m
    → page < 1048576
    → Lets places s (a / 4194304) v directory
    → write m (a / 4096) (decode v) page ≡ some x
    → x.user ≡ true
    → has page_user (directory (page / 1024)) ≡ true
unfolding decode
entered-users places s m a v directory page x h lt l e u = elim (Bool-cases (page == a / 4096)) [
  | inl same ↦
      let q : page / 1024 ≡ a / 4194304 = ground arith in
      rw q (l.lets_user (decode-user v x (rw same at e) u))
  | inr other ↦
      let old : m page ≡ some x = rw other at e in
      let upper = h.users page x lt old u in
      elim (Bool-cases (page / 1024 == a / 4194304)) [
        | inl group ↦
            let q : page / 1024 ≡ a / 4194304 = ground arith in rw q (l.stays (rw q at upper))
        | inr apart ↦ rw (l.others (page / 1024) (ground arith)) upper
      ]
]

pub entered-IsTabled :
    (places : Places) (s : Vmm) (m : Space) (a v : ℕ) (directory : Array ℕ)
    → IsTabled places s m
    → a < word_mod
    → has_table s (a / 4194304) ≡ true
    → Lets places s (a / 4194304) v directory
    → IsTabled places (entered a v directory s) (write m (a / 4096) (decode v))
unfolding invalidate
entered-IsTabled places s m a v directory h lt g l = record {
  on = h.on;
  loaded = h.loaded;
  translates = h.translates;
  protects = h.protects;
  pages = λ page lt'. entered-view places s m a v directory page h lt lt' g;
  tables = λ d lt' g'.
      let t = h.tables d lt' g' in
      record {
        below = t.below;
        taken = t.taken;
        dynamic = t.dynamic;
        upper = elim (Bool-cases (d == a / 4194304)) [
          | inl same ↦ let q : d ≡ a / 4194304 = ground arith in rw q l.here
          | inr other ↦ rw (l.others d (ground arith)) t.upper
        ];
      };
  absent = λ d lt' g'. elim (Bool-cases (d == a / 4194304)) [
    | inl same ↦ absurd (ground arith)
    | inr other ↦ l.others d (ground arith) ∙ h.absent d lt' g'
  ];
  distinct = h.distinct;
  fixed = h.fixed;
  counts = h.counts;
  users = λ page x lt' e u. entered-users places s m a v directory page x h lt' l e u;
  held = λ page x lt' e. elim (Bool-cases (page == a / 4096)) [
    | inl same ↦ absurd (ground arith)
    | inr other ↦ rw other (h.held page x lt' (ground arith))
  ];
}

-- A free table is taken for the directory's entry `d`, and cleared.
abbrev pub taken : Places → ℕ → ℕ → Vmm → Vmm
taken places d t s = record s {
  page_tables = write s.page_tables t (each table_entries (λ _ _. 0) (s.page_tables t));
  table_in_use = write s.table_in_use t true;
  directory_table_indices = write s.directory_table_indices d t;
  page_directory = write s.page_directory d (table_entry places t);
}

pub taken-view :
    (places : Places) (s : Vmm) (m : Space) (d t page : ℕ)
    → IsTabled places s m
    → d < 1024
    → t < 64
    → has_table s d ≡ false
    → s.table_in_use t ≡ false
    → page < 1048576
    → m page ≡ view (taken places d t s) page
unfolding view decode has
taken-view places s m d t page h lt lt' g free lt'' = elim (Bool-cases (page / 1024 == d)) [
  | inl group ↦
      let q : page / 1024 ≡ d = ground arith in
      let before : m page ≡ none = h.pages page lt'' ∙ rw (q, g) refl in
      let zero_entry : each table_entries (λ _ _. 0) (s.page_tables t) (page % 1024) ≡ 0 =
        each_lem table_entries (λ _ _. 0) (s.page_tables t) (page % 1024) ∙ ground arith in
      let after : view (taken places d t s) page ≡ none = rw q (ground (arith, zero_entry)) in
      before ∙ sym after
  | inr apart ↦ elim (Bool-cases (has_table s (page / 1024))) [
    | inl here ↦
        let n : s.directory_table_indices (page / 1024) ≢ t =
          λ e. let used = (h.tables (page / 1024) (omega arith) here).taken in ground arith in
        ground (arith, h.pages page lt'')
    | inr gone ↦ ground (arith, h.pages page lt'')
  ]
]
