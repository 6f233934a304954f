-- ===== src/Ramfs/Listing.antt =====
-- `ramfs_get_info` of kernel/fs/ramfs.c numbers the live slots in order.
use tinyshell_os.Base.{
  ℕ, zero, suc, ◌+◌, ◌≡◌, refl, ◌∙◌, ap, sym, inl, inr, Bool-cases, Bool, true, false, Option, none,
  some, arith, Array, ◌<◌, each_lem, subst, List, [], ◌∷◌, ◌==◌, each, length, get_elem?,
}
use tinyshell_os.Ramfs.{Slot, Ramfs, FileInfo, max_files, init}
use tinyshell_os.Ramfs.Names.{name_max}
use tinyshell_os.Ramfs.Invariant.{alive_below}
use tinyshell_os.Ramfs.Calls.{Call, after}
use tinyshell_os.Ramfs.Run.{after-init-IsValid}

-- What is written into the caller's structure.
pub filled_info : Slot → FileInfo → FileInfo
filled_info slot info = record {
  name = each (suc name_max) (λ i _. slot.name i) info.name;
  size = slot.length;
}

-- `n` rounds of the loop over the slots, from `slot_index` on
info_from : Ramfs → ℕ → FileInfo → ℕ → ℕ → ℕ → Bool × FileInfo
info_from fs index info zero slot_index live_index = (false, info)
info_from fs index info (suc n) slot_index live_index = elim (fs.slots slot_index).alive [
  | false ↦ info_from fs index info n (suc slot_index) live_index
  | true ↦ elim (live_index == index) [
    | false ↦ info_from fs index info n (suc slot_index) (live_index + 1)
    | true ↦ (true, filled_info (fs.slots slot_index) info)
  ]
]

pub get_info : ℕ → Option FileInfo → Ramfs → Bool × Option FileInfo
get_info index none fs = (false, none)
get_info index (some info) fs =
    let (found, out) = info_from fs index info max_files 0 0 in (found, some out)

-- The live slots among `n` from index `i` on.
abbrev pub live_from : Array Slot → ℕ → ℕ → List Slot
live_from slots zero i = []
live_from slots (suc n) i = elim (slots i).alive [
  | false ↦ live_from slots n (suc i)
  | true ↦ slots i ∷ live_from slots n (suc i)
]

abbrev pub live_slots : Ramfs → List Slot
live_slots fs = live_from fs.slots max_files 0

abbrev info_or : FileInfo → Option Slot → Bool × FileInfo
info_or info none = (false, info)
info_or info (some slot) = (true, filled_info slot info)

live_from-dead :
    (slots : Array Slot) (n i : ℕ)
    → (slots i).alive ≡ false
    → live_from slots (suc n) i ≡ live_from slots n (suc i)
live_from-dead slots n i h = ground arith

live_from-alive :
    (slots : Array Slot) (n i : ℕ)
    → (slots i).alive ≡ true
    → live_from slots (suc n) i ≡ slots i ∷ live_from slots n (suc i)
live_from-alive slots n i h = ground arith

info_from-found :
    (fs : Ramfs) (index : ℕ) (info : FileInfo) (n i live : ℕ)
    → (fs.slots i).alive ≡ true
    → (live == index) ≡ true
    → info_from fs index info (suc n) i live ≡ (true, filled_info (fs.slots i) info)
unfolding info_from
info_from-found fs index info n i live a e = ground arith

info_from-passed :
    (fs : Ramfs) (index : ℕ) (info : FileInfo) (n i live : ℕ)
    → (fs.slots i).alive ≡ true
    → (live == index) ≡ false
    → info_from fs index info (suc n) i live ≡ info_from fs index info n (suc i) (live + 1)
unfolding info_from
info_from-passed fs index info n i live a e = ground arith

info_from-get_elem? :
    (fs : Ramfs) (k : ℕ) (info : FileInfo) (n i live : ℕ)
    → info_from fs (live + k) info n i live ≡ info_or info (get_elem? (live_from fs.slots n i) k)
unfolding info_from
info_from-get_elem? fs k info zero i live = refl
info_from-get_elem? fs zero info (suc n) i live =
    let here : (live == live + 0) ≡ true = ground arith in
    elim (Bool-cases (fs.slots i).alive) [
      | inr dead ↦
          rw (live_from-dead fs.slots n i dead, info_from, dead)
            (info_from-get_elem? fs zero info n (suc i) live)
      | inl alive ↦
          info_from-found fs (live + 0) info n i live alive here
          ∙ ap (λ l. info_or info (get_elem? l 0)) (sym (live_from-alive fs.slots n i alive))
    ]
info_from-get_elem? fs (suc k) info (suc n) i live =
    let there : (live == live + suc k) ≡ false = ground arith in
    let next : live + suc k ≡ live + 1 + k = omega arith in
    elim (Bool-cases (fs.slots i).alive) [
      | inr dead ↦
          rw (live_from-dead fs.slots n i dead, info_from, dead)
            (info_from-get_elem? fs (suc k) info n (suc i) live)
      | inl alive ↦
          info_from-passed fs (live + suc k) info n i live alive there
          ∙ ap (λ k. info_from fs k info n (suc i) (live + 1)) next
          ∙ info_from-get_elem? fs k info n (suc i) (live + 1)
          ∙ ap (λ l. info_or info (get_elem? l (suc k))) (sym (live_from-alive fs.slots n i alive))
    ]

length-live_from :
    (slots : Array Slot) (n i : ℕ)
    → alive_below slots i + length (live_from slots n i) ≡ alive_below slots (i + n)
unfolding alive_below
length-live_from slots zero i =
    let e : i ≡ i + 0 = omega arith in ground (arith, ap (alive_below slots) e)
length-live_from slots (suc n) i =
    let e : i + suc n ≡ suc i + n = omega arith in
    rw e (ground (arith, length-live_from slots n (suc i)))

length-live : (fs : Ramfs) → length (live_slots fs) ≡ alive_below fs.slots max_files
unfolding alive_below
length-live fs = omega (arith, length-live_from fs.slots max_files 0)

-- A caller's structure that tells of a slot: the 32 bytes of its name, and its size
pub record IsInfo (slot : Slot) (info : FileInfo) : Type 0 where
  pub same_name : (i : ℕ) → i < 32 → info.name i ≡ slot.name i
  pub same_size : info.size ≡ slot.length

-- The reply for the slot of a number, if there is one, into a structure that held `info`
abbrev pub Tells : FileInfo → Option Slot → Bool × Option FileInfo → Type 0
Tells info none reply = reply ≡ (false, some info)
Tells info (some slot) reply = (out : FileInfo) × (reply ≡ (true, some out)) × IsInfo slot out

filled_info-IsInfo : (slot : Slot) (info : FileInfo) → IsInfo slot (filled_info slot info)
unfolding filled_info
filled_info-IsInfo slot info = record {
  same_name = λ i lt. each_lem (suc name_max) (λ i _. slot.name i) info.name i ∙ ground arith;
  same_size = refl;
}

info_or-Tells :
    (info : FileInfo) (o : Option Slot) → Tells info o ((info_or info o).0, some (info_or info o).1)
info_or-Tells info none = refl
info_or-Tells info (some slot) = (filled_info slot info, refl, filled_info-IsInfo slot info)

-- After `ramfs_init` and any calls, `ramfs_get_info` with a buffer returns, at every index, true
-- with the name and size of the live slot of that number in slot order, and false with the buffer
-- unchanged behind the last; and `ramfs_count` is the number of the live slots. So the indices below
-- `ramfs_count`, and no others, succeed.
pub get_info-live_slots :
    (fs : Ramfs) (cs : List Call) (index : ℕ) (info : FileInfo)
    → let now = after (init fs) cs in
      Tells info (get_elem? (live_slots now) index) (get_info index (some info) now)
      × (length (live_slots now) ≡ now.live_file_count)
unfolding get_info
get_info-live_slots fs cs index info =
    let now = after (init fs) cs in
    let slot = get_elem? (live_slots now) index in
    let e : index ≡ 0 + index = omega arith in
    let reply : get_info index (some info) now
        ≡ ((info_or info slot).0, some (info_or info slot).1) =
      ap (λ r. (r.0, some r.1))
        ((ap (λ k. info_from now k info max_files 0 0) e)
          ∙ info_from-get_elem? now index info max_files 0 0) in
    (
      subst (Tells info slot) (sym reply) (info_or-Tells info slot),
      (length-live now ∙ sym (after-init-IsValid fs cs).counted),
    )
