-- ===== src/Vmm/Maps.antt =====
-- `vmm_map_page` of kernel/mm/vmm.c on a partial map of pages.
use tinyshell_os.Base.{
  ℕ, ◌+◌, ◌*◌, ◌/◌, ◌%◌, ◌<◌, ◌≡◌, ◌⊎◌, inl, inr, refl, sym, ◌∙◌, true, false, some, arith,
  Bool-cases, write, leb, ◌==◌, word_mod,
}
use tinyshell_os.Vmm.{Places, Vmm, page_present, page_writable, page_user, make_page_flags}
use tinyshell_os.Vmm.Registers.{Mapping, has, with_bit, address_part}
use tinyshell_os.Vmm.Model.{Space, is_some}
use tinyshell_os.Vmm.Spaces.{IsPlaced, IsTable, IsTabled, has_table, decode, view}
use tinyshell_os.Vmm.Changes.{Lets}

make_page_flags_lem : (flags : ℕ) → flags < 4 → make_page_flags flags ≡ 1 + 2 * flags
unfolding make_page_flags has with_bit
make_page_flags_lem flags lt = ground arith

abbrev pub new_mapping : ℕ → ℕ → Mapping
new_mapping p flags = record { frame = p; writable = flags % 2 == 1; user = leb 2 flags }

pub decode-new :
    (p flags : ℕ)
    → p % 4096 ≡ 0
    → flags < 4
    → decode (address_part p + make_page_flags flags) ≡ some (new_mapping p flags)
unfolding decode has
decode-new p flags al lt =
    let e = make_page_flags_lem flags lt in
    let present : has page_present (address_part p + (1 + 2 * flags)) ≡ true = ground arith in
    let writes : has page_writable (address_part p + (1 + 2 * flags)) ≡ (flags % 2 == 1) =
      ground arith in
    let uses : has page_user (address_part p + (1 + 2 * flags)) ≡ leb 2 flags = ground arith in
    let at_page : address_part (address_part p + (1 + 2 * flags)) ≡ p = omega arith in
    rw (e, present, writes, uses, at_page) refl

with_user :
    (base e : ℕ)
    → base % 4096 ≡ 0
    → (e ≡ base + 3) ⊎ (e ≡ base + 7)
    → with_bit page_user e ≡ base + 7
unfolding with_bit has
with_user base e al h = ground arith

pub user-Lets :
    (places : Places) (s : Vmm) (d v : ℕ)
    → IsPlaced places
    → IsTable places s d
    → Lets places s d v (write s.page_directory d (with_bit page_user (s.page_directory d)))
unfolding has
user-Lets places s d v r t =
    let base = places.tables + s.directory_table_indices d * 4096 in
    let al : base % 4096 ≡ 0 = omega (arith, r.tables_aligned) in
    let same : (d == d) ≡ true = ground arith in
    let e = with_user base (s.page_directory d) al t.upper in
    let on : has page_user (base + 7) ≡ true = ground arith in
    record {
      others = λ c ne. ground arith;
      here = rw (same, e) (inr refl);
      stays = λ k. rw (same, e) on;
      lets_user = λ k. rw (same, e) on;
    }

pub kept-Lets :
    (places : Places) (s : Vmm) (d v : ℕ)
    → IsTable places s d
    → has page_user v ≡ false
    → Lets places s d v s.page_directory
kept-Lets places s d v t off = record {
  others = λ c ne. refl;
  here = t.upper;
  stays = λ k. k;
  lets_user = λ k. absurd (let z : true ≡ false = sym k ∙ off in cc);
}

-- Is the page of the entry mapped?
pub page_present_lem :
    (places : Places) (s : Vmm) (m : Space) (page : ℕ)
    → IsTabled places s m
    → page < 1048576
    → has_table s (page / 1024) ≡ true
    → has page_present (s.page_tables (s.directory_table_indices (page / 1024)) (page % 1024))
      ≡ is_some (m page)
unfolding view decode
page_present_lem places s m page h lt g =
    let e = h.pages page lt in
    elim (Bool-cases
      (has page_present (s.page_tables (s.directory_table_indices (page / 1024)) (page % 1024)))) [
        | inl on ↦ rw (e, g, on) refl
        | inr off ↦ rw (e, g, off) refl
      ]

pub present_lem :
    (places : Places) (s : Vmm) (m : Space) (a : ℕ)
    → IsTabled places s m
    → a < word_mod
    → has_table s (a / 4194304) ≡ true
    → has page_present (s.page_tables (s.directory_table_indices (a / 4194304)) (a / 4096 % 1024))
      ≡ is_some (m (a / 4096))
present_lem places s m a h lt g =
    let q : a / 4096 / 1024 ≡ a / 4194304 = omega arith in
    rw q at (page_present_lem places s m (a / 4096) h (omega arith) (rw q g))

pub has-make_page_flags :
    (p flags : ℕ)
    → flags < 4
    → has page_user (address_part p + make_page_flags flags) ≡ has page_user (make_page_flags flags)
unfolding has
has-make_page_flags p flags lt =
    let e = make_page_flags_lem flags lt in
    let same : has page_user (address_part p + (1 + 2 * flags)) ≡ has page_user (1 + 2 * flags) =
      ground arith in
    rw e same
