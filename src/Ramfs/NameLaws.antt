-- ===== src/Ramfs/NameLaws.antt =====
-- What `names_equal` and the copying loop of kernel/fs/ramfs.c do: equality of NUL-terminated
-- strings, and a copy that is equal to its source.
use mathlib.Core.Option as Opt
use tinyshell_os.Base.{
  ℕ, zero, suc, ◌<◌, ◌≡◌, refl, inl, inr, ◌≢◌, ◌↔◌, true, false, Option, none, some, List, [], ◌∷◌,
  arith, write, ◌==◌, Bool-cases, Option-cases,
}
use tinyshell_os.Ramfs.Names.{
  Name, name_max, check_name, name_is_valid, names_agree, names_equal, copy_name,
}

-- The string at index `i`, up to its NUL; `none` if none stands in the next `n` bytes.
abbrev pub text : Name → ℕ → ℕ → Option (List ℕ)
text a zero i = none
text a (suc n) i = elim (a i == 0) [
  | true ↦ some []
  | false ↦ Opt.map (λ t. a i ∷ t) (text a n (suc i))
]

names_agree-text :
    (l r : Name) (n i : ℕ)
    → names_agree l r n i ≡ true
    → (t : List ℕ) × (text l n i ≡ some t) × (text r n i ≡ some t)
unfolding names_agree
names_agree-text l r zero i h = cc
names_agree-text l r (suc n) i h = elim (Bool-cases (l i == 0)) [
  | inl z ↦ ([], ground arith, ground arith)
  | inr nz ↦
      let (t, p, q) = names_agree-text l r n (suc i) (ground arith) in
      (l i ∷ t, ground arith, ground arith)
]

text-nil : (a : Name) (n i : ℕ) → text a (suc n) i ≡ some [] → a i ≡ 0
text-nil a n i h = elim (Bool-cases (a i == 0)) [
  | inl z ↦ ground arith
  | inr nz ↦ elim (Option-cases (text a n (suc i))) [
    | inl e ↦ ground arith
    | inr (u, e) ↦ ground arith
  ]
]

text-cons :
    (a : Name) (n i x : ℕ) (t : List ℕ)
    → text a (suc n) i ≡ some (x ∷ t)
    → (a i ≡ x) × (a i ≢ 0) × (text a n (suc i) ≡ some t)
text-cons a n i x t h = elim (Bool-cases (a i == 0)) [
  | inl z ↦ ground arith
  | inr nz ↦ elim (Option-cases (text a n (suc i))) [
    | inl e ↦ ground arith
    | inr (u, e) ↦ ground arith
  ]
]

text-names_agree :
    (l r : Name) (n i : ℕ) (t : List ℕ)
    → text l n i ≡ some t
    → text r n i ≡ some t
    → names_agree l r n i ≡ true
unfolding names_agree
text-names_agree l r zero i t p q = cc
text-names_agree l r (suc n) i [] p q = ground (arith, text-nil l n i p, text-nil r n i q)
text-names_agree l r (suc n) i (x ∷ t) p q =
    let (lx, nz, lt) = text-cons l n i x t p in
    let (rx, _, rt) = text-cons r n i x t q in
    ground (arith, text-names_agree l r n (suc i) t lt rt)

-- `names_equal` answers yes exactly when both names have a NUL among their first 32 bytes and
-- spell the same string up to it.
pub names_equal_iff :
    (l r : Name)
    → (names_equal l r ≡ true)
      ↔ ((t : List ℕ) × (text l (suc name_max) 0 ≡ some t) × (text r (suc name_max) 0 ≡ some t))
unfolding names_equal
names_equal_iff l r =
    (names_agree-text l r (suc name_max) 0, λ h. text-names_agree l r (suc name_max) 0 h.0 h.1 h.2)

names_agree_comm : (l r : Name) (n i : ℕ) → names_agree l r n i ≡ names_agree r l n i
unfolding names_agree
names_agree_comm l r zero i = refl
names_agree_comm l r (suc n) i = ground (arith, names_agree_comm l r n (suc i))

names_agree_trans :
    (l r o : Name) (n i : ℕ)
    → names_agree l r n i ≡ true
    → names_agree l o n i ≡ names_agree r o n i
unfolding names_agree
names_agree_trans l r o zero i h = refl
names_agree_trans l r o (suc n) i h = ground (arith, names_agree_trans l r o n (suc i))

pub names_equal_comm : (l r : Name) → names_equal l r ≡ names_equal r l
unfolding names_equal
names_equal_comm l r = names_agree_comm l r (suc name_max) 0

-- Equal names are equal to the same names.
pub names_equal_trans : (l r o : Name) → names_equal l r ≡ true → names_equal l o ≡ names_equal r o
unfolding names_equal
names_equal_trans l r o h = names_agree_trans l r o (suc name_max) 0 h

copy_name-below : (src : Name) (n i j : ℕ) (dst : Name) → j < i → copy_name src n i dst j ≡ dst j
unfolding copy_name
copy_name-below src zero i j dst lt = refl
copy_name-below src (suc n) i j dst lt =
    ground (arith, copy_name-below src n (suc i) j (write dst i (src i)))

copy_name-agrees :
    (src : Name) (n i : ℕ) (dst : Name)
    → check_name src n i ≡ true
    → names_agree (copy_name src n i dst) src n i ≡ true
unfolding copy_name names_agree check_name
copy_name-agrees src zero i dst h = cc
copy_name-agrees src (suc n) i dst h = ground (
  arith,
  copy_name-below src n (suc i) i (write dst i (src i)),
  copy_name-agrees src n (suc i) (write dst i (src i)),
)

-- The copy that `ramfs_create` makes of a valid name is equal to it.
pub copy_name-equal :
    (src dst : Name)
    → name_is_valid (some src) ≡ true
    → names_equal (copy_name src (suc name_max) 0 dst) src ≡ true
unfolding names_equal name_is_valid
copy_name-equal src dst h = copy_name-agrees src (suc name_max) 0 dst h

same_below_suc :
    (l r : Name) (i : ℕ)
    → ((k : ℕ) → k < i → l k ≡ r k)
    → l i ≡ r i
    → (k : ℕ) → k < suc i
    → l k ≡ r k
same_below_suc l r i same at k lt = elim (Bool-cases (k == i)) [
  | inl e ↦ let e' : k ≡ i = ground arith in rw e' at
  | inr ne ↦ same k (ground arith)
]

check_name-agree :
    (l r : Name) (n i : ℕ)
    → ((k : ℕ) → k < i → l k ≡ r k)
    → names_agree l r n i ≡ true
    → check_name l n i ≡ check_name r n i
unfolding names_agree check_name
check_name-agree l r zero i same h = refl
check_name-agree l r (suc n) i same h = elim (Bool-cases (l i == 0)) [
  | inl z ↦ ground (arith, same 0, same 1)
  | inr nz ↦ ground (
    arith,
    check_name-agree l r n (suc i) (same_below_suc l r i same (ground arith)) (ground arith),
  )
]

-- Validity is a property of the string.
pub name_is_valid-congr :
    (l r : Name) → names_equal l r ≡ true → name_is_valid (some l) ≡ name_is_valid (some r)
unfolding names_equal name_is_valid
name_is_valid-congr l r h = check_name-agree l r (suc name_max) 0 (λ k lt. absurd (omega arith)) h

check_name_self :
    (name : Name) (n i : ℕ) → check_name name n i ≡ true → names_agree name name n i ≡ true
unfolding names_agree check_name
check_name_self name zero i h = h
check_name_self name (suc n) i h = ground (arith, check_name_self name n (suc i))

pub names_equal_self :
    (name : Name) → name_is_valid (some name) ≡ true → names_equal name name ≡ true
unfolding names_equal name_is_valid
names_equal_self name h = check_name_self name (suc name_max) 0 h
