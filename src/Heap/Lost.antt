-- ===== src/Heap/Lost.antt =====
-- Which bytes a release gives back.
use mathlib.Core.Option as Opt
use tinyshell_os.Base.{
  ℕ, ◌+◌, ◌≤◌, ◌≡◌, refl, sym, subst, ◌∙◌, ◌⊎◌, inl, inr, Bool, true, false, Option, none, some, [],
  ◌∷◌, arith, Bool-cases, ◌==◌,
}
use tinyshell_os.Heap.{arena_size, header_size, Heap, kfree}
use tinyshell_os.Heap.Bytes.{Memory}
use tinyshell_os.Heap.Layout.{Piece, Layout, Chain, IsArena, IsHeap}
use tinyshell_os.Heap.Chains.{live, live-le}
use tinyshell_os.Heap.Release.{join_both, join_first, join_used, join_none}
use tinyshell_os.Heap.Model.{free_piece, join, release, free}
use tinyshell_os.Heap.Frees.{kfree-free, free-told, told_of}

-- Joining free blocks changes no payload.
live-join-eq : (p : ℕ) (b : Piece) (ls : Layout) (x : ℕ) → live p (join b ls) x ≡ live p (b ∷ ls) x
unfolding live
live-join-eq p b [] x = rw (join_none b) refl
live-join-eq p b (c ∷ cs) x = elim (Bool-cases b.free) [
  | inr used ↦ rw (join_used b (c ∷ cs) used) refl
  | inl f ↦ elim (Bool-cases c.free) [
    | inr one ↦ rw (join_first b c cs one) refl
    | inl both ↦
        let e : p + header_size + (b.size + header_size + c.size)
            ≡ p + header_size + b.size + header_size + c.size =
          omega arith in
        rw (join_both b c cs f both) (simp (f, both, e))
  ]
]

-- The payload at `a` was allocated, is not any more, and none is new.
pub record IsLost (p a : ℕ) (ls ls' : Layout) : Type 0 where
  pub from : p + header_size ≤ a
  pub was_live : live p ls a ≡ true
  pub dead_now : live p ls' a ≡ false
  pub none_new : (x : ℕ) → live p ls' x ≡ true → live p ls x ≡ true

abbrev pub Lost : ℕ → ℕ → Layout → Option Layout → Type 0
Lost p a ls none = Unit {0}
Lost p a ls (some ls') = IsLost p a ls ls'

Lost-join :
    (p a : ℕ) (b : Piece) (bs : Layout) (o : Option Layout)
    → Lost (p + header_size + b.size) a bs o
    → Lost p a (b ∷ bs) (Opt.map (join b) o)
unfolding live
Lost-join p a b bs none l = tt
Lost-join p a b bs (some ls') l = record {
  from = omega (arith, l.from);
  was_live = ground (arith, l.was_live);
  dead_now = live-join-eq p b ls' a ∙ ground (arith, l.dead_now, l.from);
  none_new = λ x h. let h' = sym (live-join-eq p b ls' x) ∙ h in ground (arith, l.none_new x, h');
}

Lost-here :
    (m : Memory) (end prev p : ℕ) (b : Piece) (bs : Layout)
    → Chain m end prev p (b ∷ bs)
    → b.free ≡ false
    → IsLost p (p + header_size) (b ∷ bs) (join (free_piece b.size) bs)
unfolding live
Lost-here m end prev p b bs (is, c) used = record {
  from = omega arith;
  was_live = ground (arith, is.enough);
  dead_now =
      live-join-eq p (free_piece b.size) bs (p + header_size)
      ∙ ground (arith, live-le (p + header_size + b.size) bs (p + header_size));
  none_new =
      λ x h. let h' = sym (live-join-eq p (free_piece b.size) bs x) ∙ h in ground (arith, h');
}

pub release-Lost :
    (a end : ℕ) (m : Memory) (prev p : ℕ) (ls : Layout)
    → Chain m end prev p ls
    → Lost p a ls (release a p ls)
unfolding release
release-Lost a end m prev p [] c = tt
release-Lost a end m prev p (b ∷ bs) (is, c) = elim (Bool-cases (p + header_size == a)) [
  | inl hit ↦
      let e : p + header_size ≡ a = ground arith in
      elim (Bool-cases b.free) [
        | inl f ↦ simp (hit, f) tt
        | inr f ↦
            simp (hit, f)
              (subst (λ y. IsLost p y (b ∷ bs) (join (free_piece b.size) bs)) e
                (Lost-here m end prev p b bs (is, c) f))
      ]
  | inr miss ↦
      rw miss (Lost-join p a b bs _ (release-Lost a end m p (p + header_size + b.size) bs c))
]

-- The outcome of a release: the blocks that are left, and the payload that is given back
pub record GivesBack (arena a : ℕ) (freed : Bool) (s s' : Heap) (ls ls' : Layout) : Type 0 where
  pub heap : IsHeap arena s' ls'
  pub same_or_lost : ((freed ≡ false) × (ls' ≡ ls)) ⊎ ((freed ≡ true) × IsLost arena a ls ls')
  pub payloads_kept : (x : ℕ) → live arena ls' x ≡ true → s'.memory x ≡ s.memory x

told_cases :
    (arena a : ℕ) (ls : Layout) (o : Option Layout)
    → Lost arena a ls o
    → (((told_of o ls).0 ≡ false) × ((told_of o ls).1 ≡ ls))
      ⊎ (((told_of o ls).0 ≡ true) × IsLost arena a ls (told_of o ls).1)
told_cases arena a ls none l = inl (refl, refl)
told_cases arena a ls (some ls') l = inr (refl, l)

-- In a heap of the blocks `ls`, in an aligned arena that is not at address 0 and ends below 2^32, a
-- call of `kfree` ends and leaves a heap of blocks. It returns false with the same blocks, or true:
-- then the byte at the address lay in an allocated payload and does not any more, and no byte has
-- come into one. No byte of a payload that is still allocated is changed.
pub kfree-GivesBack :
    (arena a : ℕ) (s : Heap) (ls : Layout)
    → IsArena arena
    → IsHeap arena s ls
    → (b : Bool) × (s' : Heap) × (ls' : Layout) × (kfree arena a s ≡ some (b, s'))
      × GivesBack arena a b s s' ls ls'
kfree-GivesBack arena a s ls r h =
    let (s', e, f) = kfree-free arena a s ls r h in
    (
      (free arena a ls).0,
      s',
      (free arena a ls).1,
      e,
      record {
        heap = f.heap;
        same_or_lost = rw (free-told arena a ls) (
            told_cases arena a ls (release a arena ls)
              (release-Lost a (arena + arena_size) s.memory 0 arena ls h.chain));
        payloads_kept = f.kept;
      },
    )
