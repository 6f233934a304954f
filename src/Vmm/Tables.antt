-- ===== src/Vmm/Tables.antt =====
-- A table that is taken from the pool of kernel/mm/vmm.c, or given back, leaves the map as it is.
use tinyshell_os.Base.{
  ℕ, ◌+◌, ◌/◌, ◌%◌, ◌≤◌, ◌<◌, ◌≡◌, ◌≢◌, inl, inr, refl, ap, sym, ◌∙◌, true, false, Option, none,
  some, arith, Bool-cases, write, ◌==◌,
}
use tinyshell_os.Base.Counts.{count-add}
use tinyshell_os.Vmm.{Places, Vmm, no_table, page_present}
use tinyshell_os.Vmm.Registers.{Mapping, has}
use tinyshell_os.Vmm.Model.{Space}
use tinyshell_os.Vmm.Spaces.{IsPlaced, IsTabled, has_table, decode, view, table_entry_lem}
use tinyshell_os.Vmm.Changes.{taken, taken-view}

-- No other entry leads to a free table.
free_elsewhere :
    (places : Places) (s : Vmm) (m : Space) (t c : ℕ)
    → IsTabled places s m
    → c < 1024
    → t < 64
    → s.table_in_use t ≡ false
    → s.directory_table_indices c ≢ t
free_elsewhere places s m t c h lt lt' free e = elim (Bool-cases (has_table s c)) [
  | inl here ↦ let used = (h.tables c lt here).taken in ground arith
  | inr gone ↦ ground arith
]

taken-distinct :
    (places : Places) (s : Vmm) (m : Space) (d t b c : ℕ)
    → IsTabled places s m
    → t < 64
    → s.table_in_use t ≡ false
    → b < 1024
    → c < 1024
    → b ≢ c
    → has_table (taken places d t s) c ≡ true
    → write s.directory_table_indices d t b ≢ write s.directory_table_indices d t c
taken-distinct places s m d t b c h lt free lb lc ne g = ground (
  arith,
  free_elsewhere places s m t b h lb lt free,
  free_elsewhere places s m t c h lc lt free,
  h.distinct b c lb lc ne,
)

-- A mapped page has a table.
mapped_in :
    (s : Vmm) (o : Option Mapping) (page : ℕ) (x : Mapping)
    → o ≡ view s page
    → o ≡ some x
    → has_table s (page / 1024) ≡ true
unfolding view
mapped_in s o page x h e = elim (Bool-cases (has_table s (page / 1024))) [
  | inl here ↦ here
  | inr gone ↦
      let n : o ≡ none = h ∙ rw gone refl in absurd (let r : some x ≡ none = sym e ∙ n in cc)
]

pub taken-IsTabled :
    (places : Places) (s : Vmm) (m : Space) (d t : ℕ)
    → IsPlaced places
    → IsTabled places s m
    → 32 ≤ d
    → d < 1024
    → 32 ≤ t
    → t < 64
    → has_table s d ≡ false
    → s.table_in_use t ≡ false
    → IsTabled places (taken places d t s) m
taken-IsTabled places s m d t r h lo lt lo' lt' g free = record {
  on = h.on;
  loaded = h.loaded;
  translates = h.translates;
  protects = h.protects;
  pages = λ page lt''. taken-view places s m d t page h lt lt' g free lt'';
  tables = λ c lc gc. elim (Bool-cases (c == d)) [
    | inl same ↦
        let q : c ≡ d = ground arith in
        record {
          below = rw same lt';
          taken = rw same (ground arith);
          dynamic = λ k. rw same lo';
          upper = rw same (inl (table_entry_lem places t r));
        }
    | inr other ↦
        let old = h.tables c lc (ground arith) in
        record {
          below = rw other old.below;
          taken = rw other (ground (arith, old.taken));
          dynamic = rw other old.dynamic;
          upper = rw other old.upper;
        }
  ];
  absent = λ c lc gc. elim (Bool-cases (c == d)) [
    | inl same ↦ absurd (ground arith)
    | inr other ↦ rw other (h.absent c lc (ground arith))
  ];
  distinct = λ b c lb lc ne gc. taken-distinct places s m d t b c h lt' free lb lc ne gc;
  fixed = λ i li. ground (arith, h.fixed i li);
  counts =
      count-add (has_table s) (has_table (taken places d t s)) d 1024 lt g (ground arith)
        (λ j ne. ground arith)
      ∙ ap (λ n. n + 1) h.counts
      ∙ sym (
          count-add s.table_in_use (write s.table_in_use t true) t 64 lt' free (ground arith)
            (λ j ne. ground arith));
  users = λ page x lp e u.
      let here = mapped_in s (m page) page x (h.pages page lp) e in
      let other : (page / 1024 == d) ≡ false = ground arith in rw other (h.users page x lp e u);
  held = h.held;
}

-- The table of the directory's entry `d` is given back.
abbrev pub dropped : ℕ → Vmm → Vmm
dropped d s = record s {
  page_directory = write s.page_directory d 0;
  directory_table_indices = write s.directory_table_indices d no_table;
  table_in_use = write s.table_in_use (s.directory_table_indices d) false;
}

dropped-view :
    (places : Places) (s : Vmm) (m : Space) (d page : ℕ)
    → IsTabled places s m
    → ((entry : ℕ)
        → entry < 1024
        → has page_present (s.page_tables (s.directory_table_indices d) entry) ≡ false)
    → page < 1048576
    → m page ≡ view (dropped d s) page
unfolding view decode
dropped-view places s m d page h empty lt = elim (Bool-cases (page / 1024 == d)) [
  | inl group ↦
      let q : page / 1024 ≡ d = ground arith in
      let before : m page ≡ none =
        h.pages page lt ∙ rw q (ground (arith, empty (page % 1024) (omega arith))) in
      let after : view (dropped d s) page ≡ none = rw q (ground arith) in before ∙ sym after
  | inr apart ↦ ground (arith, h.pages page lt)
]

pub dropped-IsTabled :
    (places : Places) (s : Vmm) (m : Space) (d : ℕ)
    → IsTabled places s m
    → 32 ≤ d
    → d < 1024
    → has_table s d ≡ true
    → ((entry : ℕ)
        → entry < 1024
        → has page_present (s.page_tables (s.directory_table_indices d) entry) ≡ false)
    → IsTabled places (dropped d s) m
dropped-IsTabled places s m d h lo lt g empty =
    let own = h.tables d lt g in
    record {
      on = h.on;
      loaded = h.loaded;
      translates = h.translates;
      protects = h.protects;
      pages = λ page lp. dropped-view places s m d page h empty lp;
      tables = λ c lc gc.
          let other : (c == d) ≡ false = ground arith in
          let old = h.tables c lc (rw other at gc) in
          record {
            below = rw other old.below;
            taken = rw other (ground (arith, old.taken, h.distinct c d lc lt (ground arith) g));
            dynamic = rw other old.dynamic;
            upper = rw other old.upper;
          };
      absent = λ c lc gc. elim (Bool-cases (c == d)) [
        | inl same ↦ ground arith
        | inr other ↦ rw other (h.absent c lc (ground arith))
      ];
      distinct = λ b c lb lc ne gc.
          ground (arith, h.distinct b c lb lc ne, (h.tables c lc (ground arith)).below);
      fixed = λ i li. ground (arith, h.fixed i li, own.dynamic lo);
      counts = omega (
        arith,
        h.counts,
        count-add (has_table (dropped d s)) (has_table s) d 1024 lt (ground arith) g
            (λ j ne. ground arith),
        count-add (write s.table_in_use (s.directory_table_indices d) false) s.table_in_use
            (s.directory_table_indices d) 64 own.below (ground arith) own.taken
            (λ j ne. ground arith),
      );
      users = λ page x lp e u.
          let here =
            mapped_in (dropped d s) (m page) page x (dropped-view places s m d page h empty lp) e in
          let other : (page / 1024 == d) ≡ false = ground arith in rw other (h.users page x lp e u);
      held = h.held;
    }
