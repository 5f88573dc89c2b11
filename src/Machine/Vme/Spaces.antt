-- ===== src/Machine/Vme/Spaces.antt =====
-- The address spaces of abstract-machine/am/src/x86/qemu/vme.c: `ptwalk` from `as->ptr` and a write to
-- the slot that it finds.
use nju_os_workbench.Base.{
  ℕ, ◌+◌, ◌*◌, ◌/◌, ◌%◌, ◌^◌, ◌≤◌, ◌<◌, ◌≡◌, ◌≢◌, refl, sym, ap, ◌∙◌, subst, true, Option, none,
  some, List, [], ◌∷◌, arith, length, get_or,
}
use nju_os_workbench.Machine.Vme.{
  PtInfo, Machine, ok, put, write, baseof, is_present, uvm_start, uvm_end,
}
unfoldable use nju_os_workbench.Machine.Vme.{walk, ptwalk}
unfoldable use nju_os_workbench.Machine.Vme.Entries.{entry_at}
use nju_os_workbench.Machine.Vme.Entries.{Nine}
use nju_os_workbench.Machine.Vme.Owners.{Along, Owned}
use nju_os_workbench.Machine.Vme.Walks.{Free, Reaches, walk-there}
use nju_os_workbench.Machine.Vme.Ptwalk.{walk-Walked, put-other}
use nju_os_workbench.Machine.Vme.Leaves.{
  present-Reaches, path_of, Reaches-walk, Reaches-IsLeaf, write-Owned, write-other, write_self,
}

-- the four levels of tables behind `as->ptr`
abbrev pub levels : List PtInfo
levels =
    record { shift = 39; bits = 9 }
    ∷ record { shift = 30; bits = 9 }
    ∷ record { shift = 21; bits = 9 }
    ∷ record { shift = 12; bits = 9 }
    ∷ []

-- An address space: `as->ptr` is the level-1 table, each table for the user area has one place in the
-- tree, and the pages to come are in no use. The kernel's entries, which `protect` copies, may be anything.
pub record IsSpace (space : ℕ) (own : ℕ → Option (List ℕ)) (m : Machine) : Type 0 where
  pub on : is_present (m.words space) ≡ true
  pub root : own (baseof (m.words space)) ≡ some []
  pub apart : own (baseof space) ≡ none
  pub owned : Owned own m.words
  pub free : Free space own m.pages

-- what the hardware finds for an address
abbrev pub entry_of : (space addr : ℕ) → Machine → ℕ
entry_of space addr m = entry_at levels (baseof (m.words space)) addr m.words

-- the number of the page that the four indices tell
abbrev pub page_of : ℕ → ℕ
page_of addr = addr / 4096 % 2 ^ 36

-- an address of the user area
abbrev pub InUser : ℕ → Type 0
InUser addr = (uvm_start ≤ addr) × (addr < uvm_end)

user-Along : (addr : ℕ) → InUser addr → Along levels [] addr
user-Along addr (low, high) = (omega arith, (tt, (tt, (tt, tt))))

levels-Nine : Nine levels
levels-Nine = (refl, (refl, (refl, (refl, tt))))

page_of-path_of : (a b : ℕ) → path_of levels [] a ≡ path_of levels [] b → page_of a ≡ page_of b
page_of-path_of a b e =
    let i1 = ap (λ (l : List ℕ). get_or l 0 0) e in
    let i2 = ap (λ (l : List ℕ). get_or l 1 0) e in
    let i3 = ap (λ (l : List ℕ). get_or l 2 0) e in
    let i4 = ap (λ (l : List ℕ). get_or l 3 0) e in omega arith

module _ (space : ℕ) where
  -- the first step of `ptwalk` goes through `as->ptr`
  ptwalk-there :
      (addr : ℕ) (m : Machine)
      → is_present (m.words space) ≡ true
      → ptwalk space addr 6 m ≡ walk levels (baseof (m.words space)) addr 6 m
  unfolding ptwalk walk
  ptwalk-there addr m on =
      let s : space + 8 * (addr / 1 % 1) ≡ space = omega arith in
      walk-there (record { shift = 0; bits = 0 }) (record { shift = 39; bits = 9 })
        (record { shift = 30; bits = 9 }
          ∷ record { shift = 21; bits = 9 }
          ∷ record { shift = 12; bits = 9 }
          ∷ [])
        space addr m (subst (λ a. is_present (m.words a) ≡ true) (sym s) on)
      ∙ ap (λ a. walk levels (baseof (m.words a)) addr 6 m) s

  abbrev pub Found : ℕ → (ℕ → Option (List ℕ)) → Machine → Type 0
  Found addr own m =
      (slot : ℕ) × (m' : Machine) × (own' : ℕ → Option (List ℕ)) × (ptwalk space addr 6 m
        ≡ ok slot m')
      × IsSpace space own' m'
      × Reaches levels (baseof (m'.words space)) addr m'.words slot
      × ((addr' : ℕ) → InUser addr' → entry_of space addr' m' ≡ entry_of space addr' m)

  pub ptwalk-Found :
      (addr : ℕ) (own : ℕ → Option (List ℕ)) (m : Machine)
      → IsSpace space own m
      → InUser addr
      → 3 ≤ length m.pages
      → Found addr own m
  ptwalk-Found addr own m is inside enough =
      let (slot, m', own', run, grown, owned, free, reaches) =
        walk-Walked space levels (baseof (m.words space)) addr m own [] is.root (omega arith)
          (omega arith) levels-Nine (user-Along addr inside) is.owned is.free (omega arith) in
      let far = grown.far is.apart in
      (
        slot,
        m',
        own',
        ptwalk-there addr m is.on ∙ run,
        record {
          on = subst (λ v. is_present v ≡ true) (sym far) is.on;
          root = subst (λ v. own' (baseof v) ≡ some []) (sym far) (grown.kept _ [] is.root);
          apart = grown.unowned is.apart;
          owned = owned;
          free = free;
        },
        subst (λ v. Reaches levels (baseof v) addr m'.words slot) (sym far) reaches,
        λ addr' inside'.
            subst (λ v. entry_at levels (baseof v) addr' m'.words ≡ entry_of space addr' m)
              (sym far)
              (grown.same levels _ [] addr' is.root (omega arith) levels-Nine
                (user-Along addr' inside')),
      )

  -- where an address has an entry nothing is allocated
  pub present-Found :
      (addr : ℕ) (own : ℕ → Option (List ℕ)) (m : Machine)
      → IsSpace space own m
      → is_present (entry_of space addr m) ≡ true
      → Found addr own m
  present-Found addr own m is present =
      let (slot, reaches) = present-Reaches levels (baseof (m.words space)) addr m.words present in
      (
        slot,
        m,
        own,
        ptwalk-there addr m is.on
            ∙ Reaches-walk levels (baseof (m.words space)) addr slot m reaches,
        is,
        reaches,
        λ addr' inside'. refl,
      )

  abbrev pub Written : (addr v slot : ℕ) → (ℕ → Option (List ℕ)) → Machine → Type 0
  Written addr v slot own m =
      IsSpace space own (write slot v m)
      × (ptwalk space addr 6 (write slot v m) ≡ ok slot (write slot v m))
      × (entry_of space addr (write slot v m) ≡ v)
      × ((addr' : ℕ)
          → InUser addr'
          → page_of addr' ≢ page_of addr
          → entry_of space addr' (write slot v m) ≡ entry_of space addr' m)

  write-leaf :
      (addr v c i : ℕ) (q : List ℕ) (own : ℕ → Option (List ℕ)) (m : Machine)
      → IsSpace space own m
      → InUser addr
      → own c ≡ some q
      → length q ≡ 3
      → i < 512
      → i ∷ q ≡ path_of levels [] addr
      → Reaches levels (baseof (m.words space)) addr m.words (c + 8 * i)
      → Written addr v (c + 8 * i) own m
  write-leaf addr v c i q own m is inside table last small way reaches =
      let far : put (c + 8 * i) v m.words space ≡ m.words space =
        put-other space (c + 8 * i) v m.words (λ e.
          (let at = is.owned.aligned c q table in
            let same : baseof space ≡ c = omega arith in
            let there = ap own same in let none_there = is.apart in cc)) in
      let (found, reaches') =
        write_self own m.words is.owned c i v q table last small levels (baseof (m.words space))
          addr [] is.root (omega arith) levels-Nine (user-Along addr inside) reaches in
      let on = subst (λ x. is_present x ≡ true) (sym far) is.on in
      (
        record {
          on = on;
          root = subst (λ x. own (baseof x) ≡ some []) (sym far) is.root;
          apart = is.apart;
          owned = write-Owned own m.words is.owned c i v q table last small;
          free = is.free;
        },
        ptwalk-there addr (write (c + 8 * i) v m) on
            ∙ Reaches-walk levels (baseof (put (c + 8 * i) v m.words space)) addr (c + 8 * i)
                (write (c + 8 * i) v m)
                (subst (λ x. Reaches levels (baseof x) addr (put (c + 8 * i) v m.words) (c + 8 * i))
                  (sym far) reaches'),
        subst (λ x. entry_at levels (baseof x) addr (put (c + 8 * i) v m.words) ≡ v) (sym far)
            found,
        λ addr' inside' ne.
            subst
              (λ x.
                entry_at levels (baseof x) addr' (put (c + 8 * i) v m.words)
                ≡ entry_of space addr' m)
              (sym far)
              (write-other own m.words is.owned c i v q table last small levels
                (baseof (m.words space)) addr' [] is.root (omega arith) levels-Nine
                (user-Along addr' inside') (λ e. ne (page_of-path_of addr' addr (e ∙ way)))),
      )

  -- a write to the slot that `ptwalk` has found
  pub write-Found :
      (addr v slot : ℕ) (own : ℕ → Option (List ℕ)) (m : Machine)
      → IsSpace space own m
      → InUser addr
      → Reaches levels (baseof (m.words space)) addr m.words slot
      → Written addr v slot own m
  write-Found addr v slot own m is inside reaches =
      let (c, q, i, table, last, small, at, way) =
        Reaches-IsLeaf own m.words is.owned levels (baseof (m.words space)) addr slot [] is.root
          (omega arith) levels-Nine (user-Along addr inside) reaches in
      subst (λ a. Written addr v a own m) (sym at)
        (write-leaf addr v c i q own m is inside table last small way
          (subst (λ a. Reaches levels (baseof (m.words space)) addr m.words a) at reaches))
