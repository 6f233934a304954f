-- ===== src/Vmm/Run.antt =====
-- No client of kernel/mm/vmm.c, and no access of the processor, can tell it from the partial map.
use tinyshell_os.Base.{ℕ, ◌≡◌, refl, ap, ap₂, Bool, true, false, Option, List, [], ◌∷◌, arith}
use tinyshell_os.Vmm.{Places, Vmm, init, is_enabled}
use tinyshell_os.Vmm.Calls.{
  Call, inits, asks_enabled, maps, unmaps, translates, accesses, told, address, reached, word32,
  step, run, after,
}
use tinyshell_os.Vmm.Model
use tinyshell_os.Vmm.Model.{Space, identity}
use tinyshell_os.Vmm.Spaces.{IsPlaced, IsSpace}
use tinyshell_os.Vmm.Mapped.{Agree}
use tinyshell_os.Vmm.Attempts.{map_page-Agree}
use tinyshell_os.Vmm.Unmapped.{unmap_page-Agree}
use tinyshell_os.Vmm.Walks.{translate-Model}
use tinyshell_os.Vmm.Started.{init-IsSpace, init_again, access-IsSpace}

step-Agree :
    (places : Places) (s : Vmm) (m : Space) (c : Call)
    → IsPlaced places
    → IsSpace places s m
    → Agree places (step places s c) (Model.step m c)
unfolding step Model.step is_enabled
step-Agree places s m inits r h = rw (init_again places s h.tabled.on) (refl, h)
step-Agree places s m asks_enabled r h = (ap told h.tabled.on, h)
step-Agree places s m (maps v p flags) r h =
    let (b, h') =
      map_page-Agree places s m (word32 v) (word32 p) (word32 flags) r h (omega arith) in
    (ap told b, h')
step-Agree places s m (unmaps v out) r h =
    let (b, h') = unmap_page-Agree places s m (word32 v) out h (omega arith) in
    (ap (λ (x : Bool × Option ℕ). address x.0 x.1) b, h')
step-Agree places s m (translates v out) r h = (
  ap (λ (x : Bool × Option ℕ). address x.0 x.1)
      (translate-Model places s m (word32 v) out r h (omega arith)),
  h,
)
step-Agree places s m (accesses v writes by_user) r h =
    let (b, h') = access-IsSpace places s m (word32 v) writes by_user r h (omega arith) in
    (ap reached b, h')

run_agrees :
    (places : Places) (s : Vmm) (m : Space) (cs : List Call)
    → IsPlaced places
    → IsSpace places s m
    → run places s cs ≡ Model.run m cs
unfolding run Model.run
run_agrees places s m [] r h = refl
run_agrees places s m (c ∷ cs) r h =
    let (b, h') = step-Agree places s m c r h in
    ap₂ ◌∷◌ b (run_agrees places (step places s c).1 (Model.step m c).1 cs r h')

-- For a directory and tables that are aligned to pages and do not overlap: `vmm_init`, if paging was
-- off, whatever the tables and the processor's registers held before, returns true, and then any
-- calls of the file's functions and any accesses of the processor get the answers of a partial map of
-- pages, which is the identity on the pages 1 to 32767 at first. A page between 1 GiB and 3.75 GiB
-- that is not mapped is mapped to a page-aligned address, if another page of its 4 MiB is mapped or
-- less than 64 such stretches have one; such a page that is mapped is unmapped; all else is refused. A
-- translation is the address in the mapped page. An access of a byte, by a translation that the
-- processor holds or by its walk through the tables, reaches the byte of the mapped page if the map
-- permits it, and faults otherwise: a user needs a page for users, and a write, of the kernel too, a
-- writable page.
pub run-init-identity :
    (places : Places) (s : Vmm) (cs : List Call)
    → IsPlaced places
    → s.enabled ≡ false
    → ((init places s).0 ≡ true) × (run places (init places s).1 cs ≡ Model.run identity cs)
run-init-identity places s cs r off =
    let (made, h) = init-IsSpace places s r off in
    (made, run_agrees places (init places s).1 identity cs r h)

after_agrees :
    (places : Places) (s : Vmm) (m : Space) (cs : List Call)
    → IsPlaced places
    → IsSpace places s m
    → IsSpace places (after places s cs) (Model.after m cs)
unfolding after Model.after
after_agrees places s m [] r h = h
after_agrees places s m (c ∷ cs) r h =
    after_agrees places (step places s c).1 (Model.step m c).1 cs r (step-Agree places s m c r h).1

-- For a directory and tables that are aligned to pages and do not overlap: after `vmm_init`, if
-- paging was off, whatever the tables held before, and any calls and accesses, the tables hold the
-- partial map that is left: the entries of the directory lead to distinct tables of the pool, which
-- are in use and as many as the tables in use, or are 0; a directory entry has a table exactly if one
-- of its pages is mapped; a translation that the processor holds is one of the map; and CR0 has paging
-- and write protection on.
pub after-init-IsSpace :
    (places : Places) (s : Vmm) (cs : List Call)
    → IsPlaced places
    → s.enabled ≡ false
    → IsSpace places (after places (init places s).1 cs) (Model.after identity cs)
after-init-IsSpace places s cs r off =
    after_agrees places (init places s).1 identity cs r (init-IsSpace places s r off).1
