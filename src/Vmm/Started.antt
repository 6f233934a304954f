-- ===== src/Vmm/Started.antt =====
-- The tables that `vmm_init` of kernel/mm/vmm.c leaves, and what the processor reads in them.
use tinyshell_os.Base.{
  ℕ, ◌+◌, ◌*◌, ◌<◌, ◌≡◌, inl, inr, refl, ap, sym, ◌∙◌, true, false, none, some, arith, Bool-cases,
  Option-cases, write, ltb, ◌==◌, Bool, not, ◌&&◌, ◌||◌, ◌/◌, word_mod,
}
use tinyshell_os.Base.Counts.{count-ext}
use tinyshell_os.Vmm.{Places, Vmm, no_tables, cleared_tables, identity_tables, init}
use tinyshell_os.Vmm.Registers.{Mapping, load_directory, enable, Processor}
use tinyshell_os.Vmm.Calls.{walk, lookup, access, reached_by, is_allowed}
use tinyshell_os.Vmm.Model
use tinyshell_os.Vmm.Model.{Space, identity}
use tinyshell_os.Vmm.Spaces.{IsPlaced, IsTable, IsSpace, has_table, view, table_entry_lem}
use tinyshell_os.Vmm.Starts.{
  Identity, started, started-has_table, started-view, identity-user, identity_groups, low_groups,
  no_tables-NoTables, cleared_tables-Cleared, identity_tables-Identity,
}
use tinyshell_os.Vmm.Walks.{walk-Model}

started-IsTable :
    (places : Places) (t : Vmm) (d : ℕ)
    → IsPlaced places
    → Identity places 32 t
    → d < 32
    → IsTable places t d
started-IsTable places t d r h lt =
    let low : ltb d 32 ≡ true = ground arith in
    let i : t.directory_table_indices d ≡ d = h.indices d (omega arith) ∙ rw low refl in
    let e : t.page_directory d ≡ places.tables + d * 4096 + 3 =
      h.upper d (omega arith) ∙ rw low (table_entry_lem places d r) in
    record {
      below = omega (arith, i);
      taken = ap t.table_in_use i ∙ h.in_use d (omega arith) ∙ low;
      dynamic = λ k. absurd (omega arith);
      upper = inl (omega (arith, i, e));
    }

started-IsSpace :
    (places : Places) (t : Vmm)
    → IsPlaced places
    → Identity places 32 t
    → IsSpace places (started places t) identity
unfolding load_directory enable view
started-IsSpace places t r h =
    let tabled_as : (d : ℕ) → d < 1024 → has_table t d ≡ ltb d 32 =
      λ d lt. started-has_table places t d h lt in
    record {
      tabled = record {
        on = refl;
        loaded = refl;
        translates = refl;
        protects = refl;
        pages = λ page lt. started-view places t page h lt;
        tables = λ d lt g.
            let low : d < 32 = ground (arith, tabled_as d lt) in
            let own = started-IsTable places t d r h low in
            record {
              below = own.below;
              taken = own.taken;
              dynamic = own.dynamic;
              upper = own.upper;
            };
        absent = λ d lt g. ground (arith, tabled_as d lt, h.upper d lt);
        distinct = λ c d lc ld ne g. ground (arith, tabled_as d ld, h.indices c lc, h.indices d ld);
        fixed = λ i li. ground (arith, h.in_use i (omega arith));
        counts =
            count-ext (has_table t) (λ d. ltb d 32) 1024 tabled_as
            ∙ low_groups
            ∙ sym (count-ext t.table_in_use (λ i. ltb i 32) 64 h.in_use);
        users =
            λ page x lt e u. absurd (let z : true ≡ false = sym u ∙ identity-user page x e in cc);
        held = λ page x lt e. absurd (let z : none ≡ some x = e in cc);
      };
      groups = λ d lt. identity_groups d lt ∙ sym (tabled_as d lt);
    }

-- `vmm_init` before paging is on
pub init-IsSpace :
    (places : Places) (s : Vmm)
    → IsPlaced places
    → s.enabled ≡ false
    → ((init places s).0 ≡ true) × IsSpace places (init places s).1 identity
unfolding init
init-IsSpace places s r off =
    let made = identity_tables places (cleared_tables (no_tables s)) in
    let h =
      identity_tables-Identity places (cleared_tables (no_tables s))
        (cleared_tables-Cleared (no_tables s) (no_tables-NoTables s)) in
    simp off (refl, started-IsSpace places made r h)

-- `vmm_init` after that
pub init_again : (places : Places) (s : Vmm) → s.enabled ≡ true → init places s ≡ (true, s)
unfolding init
init_again places s on = simp on refl

held-IsSpace :
    (places : Places) (s : Vmm) (m : Space) (page : ℕ) (x : Mapping)
    → IsSpace places s m
    → page < 1048576
    → m page ≡ some x
    → IsSpace places
        (record s {
          processor = record s.processor { cached = write s.processor.cached page (some x) };
        })
        m
unfolding view
held-IsSpace places s m page x h lt e = record {
  tabled = record {
    on = h.tabled.on;
    loaded = h.tabled.loaded;
    translates = h.tabled.translates;
    protects = h.tabled.protects;
    pages = h.tabled.pages;
    tables = λ d ld g.
        let own = h.tabled.tables d ld g in
        record { below = own.below; taken = own.taken; dynamic = own.dynamic; upper = own.upper };
    absent = h.tabled.absent;
    distinct = h.tabled.distinct;
    fixed = h.tabled.fixed;
    counts = h.tabled.counts;
    users = h.tabled.users;
    held = λ p y lp k. elim (Bool-cases (p == page)) [
      | inl same ↦
          let q : p ≡ page = ground arith in
          let k' : some x ≡ some y = rw same at k in ap m q ∙ e ∙ k'
      | inr other ↦ h.tabled.held p y lp (rw other at k)
    ];
  };
  groups = h.groups;
}

-- The processor finds the map, also by the translations that it holds.
pub lookup-IsSpace :
    (places : Places) (s : Vmm) (m : Space) (page : ℕ)
    → IsPlaced places
    → IsSpace places s m
    → page < 1048576
    → ((lookup places page s).0 ≡ m page) × IsSpace places (lookup places page s).1 m
unfolding lookup
lookup-IsSpace places s m page r h lt =
    let walked = walk-Model places s m page r h.tabled lt in
    elim (Option-cases (s.processor.cached page)) [
      | inr (x, held) ↦ rw (lookup, held) (sym (h.tabled.held page x lt held), h)
      | inl free ↦ elim (Option-cases (m page)) [
        | inl e ↦ let w : walk places s page ≡ none = walked ∙ e in rw (lookup, free, w) (sym e, h)
        | inr (x, e) ↦
            let w : walk places s page ≡ some x = walked ∙ e in
            rw (lookup, free, w) (sym e, held-IsSpace places s m page x h lt e)
      ]
    ]

-- With CR0.WP set, the permissions are the map's.
allowed_lem :
    (c : Processor) (writes by_user : Bool) (x : Mapping)
    → c.control 16 ≡ true
    → is_allowed c writes by_user x ≡ ((not by_user || x.user) && (not writes || x.writable))
allowed_lem c writes by_user x p = rw p (ground arith)

reached_lem :
    (c : Processor) (a : ℕ) (writes by_user : Bool) (m : Space)
    → c.control 16 ≡ true
    → reached_by c a writes by_user (m (a / 4096)) ≡ Model.access a writes by_user m
unfolding Model.access
reached_lem c a writes by_user m p = elim (Option-cases (m (a / 4096))) [
  | inl e ↦ rw (Model.access, e) refl
  | inr (x, e) ↦ rw (Model.access, e, allowed_lem c writes by_user x p) refl
]

-- The processor reaches what the map says.
pub access-IsSpace :
    (places : Places) (s : Vmm) (m : Space) (a : ℕ) (writes by_user : Bool)
    → IsPlaced places
    → IsSpace places s m
    → a < word_mod
    → ((access places a writes by_user s).0 ≡ Model.access a writes by_user m)
      × IsSpace places (access places a writes by_user s).1 m
unfolding access
access-IsSpace places s m a writes by_user r h lt =
    let (found, h') = lookup-IsSpace places s m (a / 4096) r h (omega arith) in
    simp h.tabled.translates (
      ap (reached_by s.processor a writes by_user) found
          ∙ reached_lem s.processor a writes by_user m h.tabled.protects,
      h',
    )
