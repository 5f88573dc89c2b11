-- ===== src/Fsrecov/Match.antt =====
-- `matched`, `match_entries` and `full_scan` of M6-fsrecov/fsrecov.c: entries that a cluster boundary
-- cuts in two. `malloc i j size` is the address of the block for head `i` and tail `j`; `free` leaves
-- its bytes.
use nju_os_workbench.Base.{
  ℕ, zero, suc, ◌+◌, ◌*◌, ◌^◌, Bool, true, false, not, ◌&&◌, Option, none, some, List, [], ◌∷◌,
  ◌==◌, ltb, if◌then◌else◌, length, get_or, set,
}
use nju_os_workbench.Base.Memory.{Mem}
use nju_os_workbench.Klib.Strings.{memcpy}
use nju_os_workbench.Fsrecov.Entry.{
  entry_size, ldir_chksum, is_dirent_basic, is_dirent_long, calc_checksum,
}
use nju_os_workbench.Fsrecov.Disk.{Disk}
use nju_os_workbench.Fsrecov.Scan.{
  EntryPart, State, ok, abort, Cmd, and_then, handle, is_mapped, fault, scan_clusters,
}

-- A failed `assert` is `none`.
unfoldable pub matched : Disk → Mem → (head tail : ℕ) → Option Bool
unfolding is_dirent_long is_dirent_basic calc_checksum
matched disk m head tail =
    if not (is_dirent_long m head)
    then none
    else if is_dirent_long m tail
    then some (ldir_chksum m head == ldir_chksum m tail)
    else if is_dirent_basic disk.total_clusters m tail
    then some (ldir_chksum m head == calc_checksum m tail)
    else none

-- `head_len * entry_size + tail_len * entry_size`
abbrev pub block_size : (head tail : EntryPart) → ℕ
block_size head tail = head.len * entry_size + tail.len * entry_size

-- `memcpy` of a head and of its tail into one block
abbrev pub combine : Mem → (combined : ℕ) → (head tail : EntryPart) → Mem
combine m combined head tail =
    memcpy (memcpy m combined head.entry (head.len * entry_size)) (combined + head.len * entry_size)
      tail.entry (tail.len * entry_size)

-- `waiting.tails[j]`
abbrev pub tail_at : State → ℕ → EntryPart
tail_at s j = get_or s.tails j (record { entry = 0; len = 0 })

-- `waiting.tails[j].entry = NULL`
abbrev pub clear_tail : ℕ → State → State
clear_tail j s = record s { tails = set s.tails j (record (tail_at s j) { entry = 0 }) }

-- head `i` with `n` tails, from tail `j` on; the last cluster may end before the tail that its first entry
-- announces
unfoldable pub match_tails : ℕ → (malloc : ℕ → ℕ → ℕ → ℕ) → Disk → EntryPart → (i j : ℕ) → Cmd
unfolding matched handle memcpy is_mapped
match_tails zero malloc disk head i j s = ok s
match_tails (suc n) malloc disk head i j s = elim ((tail_at s j).entry == 0) [
  | true ↦ match_tails n malloc disk head i (j + 1) s
  | false ↦ elim (matched disk s.mem head.entry (tail_at s j).entry) [
    | none ↦ abort
    | some same ↦ elim same [
      | true ↦ elim (is_mapped disk (tail_at s j).entry ((tail_at s j).len * entry_size)) [
        | false ↦ fault
        | true ↦
            and_then
              (handle disk (malloc i j (block_size head (tail_at s j)))
                (head.len + (tail_at s j).len)
                (record s {
                  mem =
                      combine s.mem (malloc i j (block_size head (tail_at s j))) head (tail_at s j);
                }))
              (λ s'. match_tails n malloc disk head i (j + 1) (clear_tail j s'))
      ]
      | false ↦ match_tails n malloc disk head i (j + 1) s
    ]
  ]
]

-- the heads from head `i` on
unfoldable pub match_heads : List EntryPart → (malloc : ℕ → ℕ → ℕ → ℕ) → Disk → (i : ℕ) → Cmd
unfolding match_tails
match_heads [] malloc disk i s = ok s
match_heads (head ∷ heads) malloc disk i s =
    and_then (match_tails (length s.tails) malloc disk head i 0 s)
      (match_heads heads malloc disk (i + 1))

-- the tails that no head has matched
unfoldable pub handle_rest : List EntryPart → Disk → Cmd
unfolding handle
handle_rest [] disk s = ok s
handle_rest (tail ∷ tails) disk s =
    and_then
      (if not (tail.entry == 0) && (tail.len == 1) then handle disk tail.entry tail.len s else ok s)
      (handle_rest tails disk)

unfoldable pub match_entries : (malloc : ℕ → ℕ → ℕ → ℕ) → Disk → Cmd
unfolding match_heads handle_rest
match_entries malloc disk s =
    and_then (match_heads s.heads malloc disk 0 s) (λ s'. handle_rest s'.tails disk s')

-- A negative `total_clusters` is no round of the loop.
unfoldable pub full_scan : (malloc : ℕ → ℕ → ℕ → ℕ) → Disk → Cmd
unfolding scan_clusters match_entries
full_scan malloc disk s =
    and_then
      (scan_clusters (if ltb disk.total_clusters (2 ^ 31) then disk.total_clusters else 0) disk 2 s)
      (match_entries malloc disk)
