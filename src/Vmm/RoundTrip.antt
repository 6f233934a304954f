-- ===== src/Vmm/RoundTrip.antt =====
-- A page that `vmm_map_page` of kernel/mm/vmm.c maps, until it is unmapped.
use tinyshell_os.Base.{
  ℕ, ◌+◌, ◌/◌, ◌%◌, ◌<◌, ◌≡◌, inl, inr, refl, ap, sym, ◌∙◌, true, false, not, ◌&&◌, none, some,
  arith, Bool-cases, write, ltb, ◌==◌, if◌then◌else◌, word_mod, add32, subst,
}
use tinyshell_os.Vmm.{Places, Vmm, map_page, unmap_page, translate}
use tinyshell_os.Vmm.Registers.{Mapping}
use tinyshell_os.Vmm.Model
use tinyshell_os.Vmm.Model.{Space, is_some, is_dynamic, has_room}
use tinyshell_os.Vmm.Spaces.{IsPlaced, IsSpace}
use tinyshell_os.Vmm.Maps.{new_mapping}
use tinyshell_os.Vmm.Attempts.{map_page-Agree}
use tinyshell_os.Vmm.Unmapped.{unmap_page-Agree}
use tinyshell_os.Vmm.Walks.{translate-Model}

map-true :
    (v p flags : ℕ) (m : Space)
    → (Model.map v p flags m).0 ≡ true
    → (is_dynamic v ≡ true)
      × (p % 4096 ≡ 0)
      × ((Model.map v p flags m).1 ≡ write m (v / 4096) (some (new_mapping p flags)))
unfolding Model.map
map-true v p flags m h =
    let ok =
      is_dynamic v
      && ((p % 4096 == 0)
          && (ltb flags 4 && (not (is_some (m (v / 4096))) && has_room m (v / 4194304)))) in
    elim (Bool-cases ok) [
      | inr bad ↦ absurd (let z : false ≡ true = rw bad at h in cc)
      | inl good ↦ (ground arith, ground arith, rw good refl)
    ]

translate-some :
    (a out : ℕ) (m : Space) (x : Mapping)
    → m (a / 4096) ≡ some x
    → Model.translate a (some out) m ≡ (true, some (add32 x.frame (a % 4096)))
unfolding Model.translate
translate-some a out m x e = rw (Model.translate, e) refl

translate-none :
    (a out : ℕ) (m : Space)
    → m (a / 4096) ≡ none
    → Model.translate a (some out) m ≡ (false, some out)
unfolding Model.translate
translate-none a out m e = rw (Model.translate, e) refl

unmap-some :
    (v out : ℕ) (m : Space) (x : Mapping)
    → is_dynamic v ≡ true
    → m (v / 4096) ≡ some x
    → Model.unmap v (some out) m ≡ ((true, some x.frame), write m (v / 4096) none)
unfolding Model.unmap
unmap-some v out m x dyn e =
    let e' : (if is_dynamic v then m (v / 4096) else none) ≡ some x = rw dyn e in
    rw (Model.unmap, e') refl

-- The answers for an address, before and after its page is unmapped
record Answers (v p offset out : ℕ) (m m' : Space) : Type 0 where
  pub translated : Model.translate (v + offset) (some out) m ≡ (true, some (p + offset))
  pub unmapped : (Model.unmap v (some out) m).0 ≡ (true, some p)
  pub gone : Model.translate (v + offset) (some out) m' ≡ (false, some out)

mapped-Answers :
    (v p flags offset out : ℕ) (m : Space)
    → is_dynamic v ≡ true
    → p % 4096 ≡ 0
    → p < word_mod
    → offset < 4096
    → Answers v p offset out
        (write m (v / 4096) (some (new_mapping p flags)))
        (Model.unmap v (some out) (write m (v / 4096) (some (new_mapping p flags)))).1
mapped-Answers v p flags offset out m dyn al lp lo =
    let m' = write m (v / 4096) (some (new_mapping p flags)) in
    let page : (v + offset) / 4096 ≡ v / 4096 = ground arith in
    let rest : (v + offset) % 4096 ≡ offset = ground arith in
    let same : (v / 4096 == v / 4096) ≡ true = ground arith in
    let sum : (p + offset) % word_mod ≡ p + offset = omega arith in
    let here : m' (v / 4096) ≡ some (new_mapping p flags) = rw same refl in
    let drop = unmap-some v out m' (new_mapping p flags) dyn here in
    let left : write m' (v / 4096) none ((v + offset) / 4096) ≡ none = rw (page, same) refl in
    record {
      translated =
          translate-some (v + offset) out m' (new_mapping p flags) (ap m' page ∙ here)
          ∙ ap (λ a. (true, some a)) (rw (rest, sum) refl);
      unmapped = rw drop refl;
      gone = rw drop (translate-none (v + offset) out (write m' (v / 4096) none) left);
    }

-- In tables that hold a map of pages, in a directory and tables that are aligned to pages and do not
-- overlap: if `vmm_map_page` returns true for 32-bit addresses, then an address of the page translates
-- to the same offset from the physical address, `vmm_unmap_page` returns true with the physical
-- address, and after it the address does not translate.
pub map_page-translate :
    (places : Places) (s : Vmm) (m : Space) (v p flags offset out : ℕ)
    → IsPlaced places
    → IsSpace places s m
    → v < word_mod
    → p < word_mod
    → offset < 4096
    → (map_page places v p flags s).0 ≡ true
    → (translate (v + offset) (some out) (map_page places v p flags s).1
        ≡ (true, some (p + offset)))
      × ((unmap_page v (some out) (map_page places v p flags s).1).0 ≡ (true, some p))
      × (translate
            (v + offset)
            (some out)
            (unmap_page v (some out) (map_page places v p flags s).1).1
          ≡ (false, some out))
map_page-translate places s m v p flags offset out r h lv lp lo t =
    let (b, h1) = map_page-Agree places s m v p flags r h lv in
    let (dyn, al, e) = map-true v p flags m (sym b ∙ t) in
    let m1 = write m (v / 4096) (some (new_mapping p flags)) in
    let s1 = (map_page places v p flags s).1 in
    let h1' = subst (λ n. IsSpace places s1 n) e h1 in
    let (c, h2) = unmap_page-Agree places s1 m1 v (some out) h1' lv in
    let a = mapped-Answers v p flags offset out m dyn al lp lo in
    let small : v + offset < word_mod = ground arith in
    (
      translate-Model places s1 m1 (v + offset) (some out) r h1' small ∙ a.translated,
      c ∙ a.unmapped,
      translate-Model places _ _ (v + offset) (some out) r h2 small ∙ a.gone,
    )
