-- ===== src/Fsrecov/Waiting.antt =====
-- The entries that `search_cluster` of M6-fsrecov/fsrecov.c leaves waiting, and the end of its loop.
use nju_os_workbench.Base.{
  inl, inr, Bool-cases, ℕ, ◌+◌, ◌≤◌, ◌≡◌, ◌≢◌, ◌⊎◌, true, ◌||◌, List, [], ◌∷◌, ◌++◌, arith, ltb,
  length, length-append,
}
use nju_os_workbench.Fsrecov.Entry.{is_dirent_basic, is_dirent_long}
use nju_os_workbench.Fsrecov.Disk.{Disk}
use nju_os_workbench.Fsrecov.Scan.{
  recovered, push_head, push_tail, OutputFile, EntryPart, State, Run, ok, abort, fault, out_of_fuel,
  Cmd, and_then, handle,
}
use nju_os_workbench.Base.Memory.{Mem}

-- The run ends or faults, and no `assert` fails; where it ends, `P` holds of the state.
abbrev pub Ends : (State → Type 0) → Run → Type 0
Ends P (ok s) = P s
Ends P abort = ⊥
Ends P fault = Unit
Ends P out_of_fuel = ⊥

pub Ends-bind :
    (P Q : State → Type 0) (r : Run) (k : Cmd)
    → Ends P r
    → ((s : State) → P s → Ends Q (k s))
    → Ends Q (and_then r k)
Ends-bind P Q (ok s) k h next = next s h
Ends-bind P Q abort k h next = h
Ends-bind P Q fault k h next = h
Ends-bind P Q out_of_fuel k h next = h

pub Ends-mono : (P Q : State → Type 0) (r : Run) → Ends P r → ((s : State) → P s → Q s) → Ends Q r
Ends-mono P Q (ok s) h weaken = weaken s h
Ends-mono P Q abort h weaken = h
Ends-mono P Q fault h weaken = h
Ends-mono P Q out_of_fuel h weaken = h

-- a place for an entry in the image
abbrev pub IsPlace : Disk → ℕ → Type 0
IsPlace disk p = (disk.base ≤ p) × (p + 32 ≤ disk.last + 1)

-- Every head starts with a long entry in the image.
abbrev pub LongHeads : Disk → Mem → List EntryPart → Type 0
LongHeads disk m [] = Unit
LongHeads disk m (part ∷ parts) =
    (IsPlace disk part.entry × (is_dirent_long m part.entry ≡ true)) × LongHeads disk m parts

-- an entry in the image, long or short
abbrev pub IsEntry : Disk → Mem → ℕ → Type 0
IsEntry disk m p =
    IsPlace disk p × ((is_dirent_long m p || is_dirent_basic disk.total_clusters m p) ≡ true)

-- Every tail starts with an entry, or is cleared.
abbrev pub EntryTails : Disk → Mem → List EntryPart → Type 0
EntryTails disk m [] = Unit
EntryTails disk m (part ∷ parts) =
    (part.entry ≢ 0 → IsEntry disk m part.entry) × EntryTails disk m parts

LongHeads-append :
    (disk : Disk) (m : Mem) (parts : List EntryPart) (part : EntryPart)
    → LongHeads disk m parts
    → IsPlace disk part.entry
    → is_dirent_long m part.entry ≡ true
    → LongHeads disk m (parts ++ part ∷ [])
LongHeads-append disk m [] part h p e = ((p, e), tt)
LongHeads-append disk m (x ∷ xs) part h p e = (h.0, LongHeads-append disk m xs part h.1 p e)

EntryTails-append :
    (disk : Disk) (m : Mem) (parts : List EntryPart) (part : EntryPart)
    → EntryTails disk m parts
    → IsEntry disk m part.entry
    → EntryTails disk m (parts ++ part ∷ [])
EntryTails-append disk m [] part h e = ((λ ne. e), tt)
EntryTails-append disk m (x ∷ xs) part h e = (h.0, EntryTails-append disk m xs part h.1 e)

-- The memory is `m`, the waiting entries are what they should be, and both arrays are within bounds.
pub record Waits (disk : Disk) (m : Mem) (s : State) : Type 0 where
  pub memory : s.mem ≡ m
  pub heads_long : LongHeads disk m s.heads
  pub tails_entries : EntryTails disk m s.tails
  pub heads_bound : length s.heads ≤ 10
  pub tails_bound : length s.tails ≤ 10

pub Waits-output :
    (disk : Disk) (m : Mem) (s : State) (files : List OutputFile)
    → Waits disk m s
    → Waits disk m (record s { output = files })
Waits-output disk m s files w = record {
  memory = w.memory;
  heads_long = w.heads_long;
  tails_entries = w.tails_entries;
  heads_bound = w.heads_bound;
  tails_bound = w.tails_bound;
}

pub handle-cases :
    (disk : Disk) (entry len : ℕ) (s : State)
    → (handle disk entry len s ≡ fault)
      ⊎ ((handle disk entry len s ≡ ok s)
          ⊎ (handle disk entry len s
              ≡ ok (record s { output = s.output ++ recovered disk s.mem entry len ∷ [] })))
unfolding handle
handle-cases disk entry len s = ground arith

pub handle-Waits :
    (disk : Disk) (m : Mem) (entry len : ℕ) (s : State)
    → Waits disk m s
    → Ends (Waits disk m) (handle disk entry len s)
handle-Waits disk m entry len s w = elim (handle-cases disk entry len s) [
  | inl e ↦ rw e tt
  | inr (inl e) ↦ rw e w
  | inr (inr e) ↦ rw e (Waits-output disk m s _ w)
]

pub push_head-Waits :
    (disk : Disk) (m : Mem) (part : EntryPart) (s : State)
    → Waits disk m s
    → IsPlace disk part.entry
    → is_dirent_long m part.entry ≡ true
    → Ends (Waits disk m) (push_head part s)
unfolding push_head
push_head-Waits disk m part s w place long = elim (Bool-cases (ltb (length s.heads) 10)) [
  | inl e ↦ rw e (record {
    memory = w.memory;
    heads_long = LongHeads-append disk m s.heads part w.heads_long place long;
    tails_entries = w.tails_entries;
    heads_bound = ground (arith, length-append s.heads (part ∷ []));
    tails_bound = w.tails_bound;
  })
  | inr e ↦ rw e tt
]

pub push_tail-Waits :
    (disk : Disk) (m : Mem) (part : EntryPart) (s : State)
    → Waits disk m s
    → IsEntry disk m part.entry
    → Ends (Waits disk m) (push_tail part s)
unfolding push_tail
push_tail-Waits disk m part s w entry = elim (Bool-cases (ltb (length s.tails) 10)) [
  | inl e ↦ rw e (record {
    memory = w.memory;
    heads_long = w.heads_long;
    tails_entries = EntryTails-append disk m s.tails part w.tails_entries entry;
    heads_bound = w.heads_bound;
    tails_bound = ground (arith, length-append s.tails (part ∷ []));
  })
  | inr e ↦ rw e tt
]
