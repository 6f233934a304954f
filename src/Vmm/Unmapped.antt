-- ===== src/Vmm/Unmapped.antt =====
-- `vmm_unmap_page` of kernel/mm/vmm.c agrees with the partial map of pages.
use tinyshell_os.Base.{
  ℕ, ◌/◌, ◌%◌, ◌<◌, ◌≡◌, inl, inr, refl, ap, sym, ◌∙◌, Bool, true, false, not, ◌&&◌, Option, none,
  some, arith, Bool-cases, Option-cases, ◌==◌, if◌then◌else◌, word_mod,
}
use tinyshell_os.Vmm.{
  Places, Vmm, no_table, page_present, drop_empty, unmap_page, dynamic_address_is_valid,
}
use tinyshell_os.Vmm.Registers.{Mapping, has, address_part}
use tinyshell_os.Vmm.Model
use tinyshell_os.Vmm.Model.{Space, used, is_some, is_dynamic}
use tinyshell_os.Vmm.Spaces.{IsSpace, has_table}
use tinyshell_os.Vmm.Maps.{present_lem}
use tinyshell_os.Vmm.Mapped.{Agree}
use tinyshell_os.Vmm.Unmaps.{removed, decode-frame, entry_lem, no_entry, unmapped-IsSpace}

-- What the guards of `vmm_unmap_page` ask
abbrev mapped_at : ℕ → Vmm → Bool
mapped_at v s =
    let t = s.directory_table_indices (v / 4194304) in
    is_dynamic v && (not (t == no_table) && has page_present (s.page_tables t (v / 4096 % 1024)))

unmap_page_lem :
    (s : Vmm) (v out : ℕ)
    → s.enabled ≡ true
    → unmap_page v (some out) s ≡ (
        if mapped_at v s
        then (
          (
            true,
            some (
                address_part
                  (s.page_tables (s.directory_table_indices (v / 4194304)) (v / 4096 % 1024))),
          ),
          drop_empty (v / 4194304) (s.directory_table_indices (v / 4194304)) (removed v s),
        )
        else ((false, some out), s))
unfolding unmap_page dynamic_address_is_valid
unmap_page_lem s v out on =
    let t = s.directory_table_indices (v / 4194304) in
    elim (Bool-cases (is_dynamic v)) [
      | inr bad ↦ simp (on, bad) refl
      | inl dyn ↦ elim (Bool-cases (t == no_table)) [
        | inl gone ↦ simp (on, dyn, gone) refl
        | inr there ↦ elim (Bool-cases (has page_present (s.page_tables t (v / 4096 % 1024)))) [
          | inl present ↦ simp (on, dyn, there, present) refl
          | inr absent ↦ simp (on, dyn, there, absent) refl
        ]
      ]
    ]

mapped_at_lem :
    (places : Places) (s : Vmm) (m : Space) (v : ℕ)
    → IsSpace places s m
    → v < word_mod
    → mapped_at v s ≡ is_some (if is_dynamic v then m (v / 4096) else none)
mapped_at_lem places s m v h lt = elim (Bool-cases (is_dynamic v)) [
  | inr bad ↦ rw bad refl
  | inl dyn ↦ elim (Bool-cases (has_table s (v / 4194304))) [
    | inl g ↦ rw (dyn, g, present_lem places s m v h.tabled lt g) refl
    | inr gone ↦ rw (dyn, gone, no_entry places s m v h.tabled lt gone) refl
  ]
]

-- What the tables say of a page that is mapped
mapped_here :
    (places : Places) (s : Vmm) (m : Space) (v : ℕ) (x : Mapping)
    → IsSpace places s m
    → v < word_mod
    → (if is_dynamic v then m (v / 4096) else none) ≡ some x
    → (is_dynamic v ≡ true)
      × (has_table s (v / 4194304) ≡ true)
      × (address_part (s.page_tables (s.directory_table_indices (v / 4194304)) (v / 4096 % 1024))
          ≡ x.frame)
mapped_here places s m v x h lt e = elim (Bool-cases (is_dynamic v)) [
  | inr bad ↦ absurd (let z : none ≡ some x = rw bad at e in cc)
  | inl dyn ↦
      let e' : m (v / 4096) ≡ some x = rw dyn at e in
      elim (Bool-cases (has_table s (v / 4194304))) [
        | inl g ↦ (dyn, g, decode-frame _ x (sym (entry_lem places s m v h.tabled lt g) ∙ e'))
        | inr gone ↦
            let n = no_entry places s m v h.tabled lt gone in
            absurd (let z : none ≡ some x = sym n ∙ e' in cc)
      ]
]

unmap_page_null : (s : Vmm) (v : ℕ) → unmap_page v none s ≡ ((false, none), s)
unfolding unmap_page
unmap_page_null s v = refl

-- `vmm_unmap_page` unmaps a page exactly as the map does.
pub unmap_page-Agree :
    (places : Places) (s : Vmm) (m : Space) (v : ℕ) (out : Option ℕ)
    → IsSpace places s m
    → v < word_mod
    → Agree places (unmap_page v out s) (Model.unmap v out m)
unfolding Model.unmap
unmap_page-Agree places s m v none h lt = rw (unmap_page_null s v) (refl, h)
unmap_page-Agree places s m v (some out) h lt =
    let code = unmap_page_lem s v out h.tabled.on in
    let same = mapped_at_lem places s m v h lt in
    elim (Option-cases (if is_dynamic v then m (v / 4096) else none)) [
      | inl e ↦
          let same' : mapped_at v s ≡ false = same ∙ ap is_some e in
          rw (code, same', Model.unmap, e) (refl, h)
      | inr (x, e) ↦
          let same' : mapped_at v s ≡ true = same ∙ ap is_some e in
          let (dyn, g, frame) = mapped_here places s m v x h lt e in
          rw (code, same', Model.unmap, e)
            (ap (λ a. (true, some a)) frame, unmapped-IsSpace places s m v h lt (ground arith) g)
    ]
