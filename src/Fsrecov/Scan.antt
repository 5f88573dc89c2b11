-- ===== src/Fsrecov/Scan.antt =====
-- The scan of M6-fsrecov/fsrecov.c: `handle`, `search_cluster`, `match_entries` and `full_scan`. The
-- files that `outprint` is given are collected in a list; the addresses that `malloc` returns are a
-- parameter. A write outside of an array and a read outside of the image are faults, a failed `assert`
-- an abort.
use nju_os_workbench.Base.{
  ℕ, zero, suc, ◌+◌, ◌-◌, ◌*◌, ◌/◌, ◌%◌, ◌^◌, true, false, not, ◌&&◌, ◌||◌, List, [], ◌∷◌, ◌++◌,
  ◌==◌, leb, ltb, if◌then◌else◌, length, Bool,
}
use nju_os_workbench.Base.Memory.{Mem}
use nju_os_workbench.Fsrecov.Entry.{
  u16, int_ltb, entry_size, dir_name, dir_attr, clus_num, dir_file_size, ldir_ord, is_dirent_basic,
  is_last_long, is_dirent_long, is_dirent_cluster_possibly, extract_name_from_lfn,
}
use nju_os_workbench.Fsrecov.Disk.{Disk, offset, first_byte_ptr_of_cluster}

-- `struct output_file`
pub record OutputFile : Type 0 where
  pub name : List ℕ
  pub start : ℕ
  pub size : ℕ

-- `struct entry_part`
pub record EntryPart : Type 0 where
  pub entry : ℕ
  pub len : ℕ

-- the arrays of `struct waiting_entries`, up to their counts, the memory, and the files put out
pub record State : Type 0 where
  pub mem : Mem
  pub heads : List EntryPart
  pub tails : List EntryPart
  pub output : List OutputFile

pub data Run : Type 0 where
  ok : State → Run
  abort : Run
  fault : Run
  out_of_fuel : Run

abbrev pub Cmd : Type 0
Cmd = State → Run

abbrev pub and_then : Run → Cmd → Run
and_then (ok s) k = k s
and_then abort k = abort
and_then fault k = fault
and_then out_of_fuel k = out_of_fuel

-- the bytes of a string in front of its NUL, at most `n` of them
unfoldable pub string_at : ℕ → Mem → ℕ → List ℕ
string_at zero m p = []
string_at (suc n) m p = if m p == 0 then [] else m p ∷ string_at n m (p + 1)

-- what `strncat` appends of a part of a name
unfoldable pub until_nul : List ℕ → List ℕ
until_nul [] = []
until_nul (c ∷ cs) = if c == 0 then [] else c ∷ until_nul cs

-- `for (int i = len - 2; i >= 0; i--)` of `handle`, for the `n` long entries from `entry` on
unfoldable pub long_name : ℕ → Mem → (entry : ℕ) → List ℕ → List ℕ
unfolding until_nul
long_name zero m entry name = name
long_name (suc i) m entry name =
    long_name i m entry (name ++ until_nul (extract_name_from_lfn m (entry + i * entry_size)))

-- the two names, where `strncpy` reads on behind the 11 bytes of the short one
abbrev pub file_name : Mem → (entry_start len : ℕ) → List ℕ
file_name m entry_start len =
    let name = long_name (len - 1) m entry_start [] in
    if length name == 0 then string_at 13 m (entry_start + (len - 1) * entry_size) else name

-- the size of the file, cut off at the end of the disk
abbrev pub recovered_size : Disk → (bmp_start file_size : ℕ) → ℕ
recovered_size disk bmp_start file_size =
    if ltb disk.last ((bmp_start + offset file_size) % 2 ^ 64)
    then (disk.last + 2 ^ 64 - bmp_start + 1) % 2 ^ 32
    else file_size

-- the file that `handle` puts out
unfoldable pub recovered : Disk → Mem → (entry_start len : ℕ) → OutputFile
unfolding long_name string_at first_byte_ptr_of_cluster
recovered disk m entry_start len =
    let basic = entry_start + (len - 1) * entry_size in
    let bmp_start = first_byte_ptr_of_cluster disk (clus_num m basic) in
    record {
      name = file_name m entry_start len;
      start = bmp_start;
      size = recovered_size disk bmp_start (dir_file_size m basic);
    }

-- no bitmap to recover: no cluster, a directory, a deleted entry
unfoldable pub is_skipped : Disk → Mem → (basic : ℕ) → Bool
is_skipped disk m basic =
    (clus_num m basic == 0)
    || (int_ltb ((disk.total_clusters + 1) % 2 ^ 32) (clus_num m basic)
        || ((dir_attr m basic / 16 % 2 == 1) || (dir_name m basic 0 == 229)))

-- whether `n` bytes at `p` lie in the image; a read outside of it is a fault
unfoldable pub is_mapped : Disk → (p n : ℕ) → Bool
is_mapped disk p n = leb disk.base p && leb (p + n) (disk.last + 1)

unfoldable pub handle : Disk → (entry_start len : ℕ) → Cmd
unfolding recovered is_skipped is_mapped first_byte_ptr_of_cluster
handle disk entry_start len s =
    let m = s.mem in
    let basic = entry_start + (len - 1) * entry_size in
    let file = recovered disk m entry_start len in
    if is_skipped disk m basic
    then ok s
    else if not (is_mapped disk (first_byte_ptr_of_cluster disk (clus_num m basic)) 2)
    then fault
    else if not (u16 m (first_byte_ptr_of_cluster disk (clus_num m basic)) == 19778)
    then ok s
    else if ltb 255 (length file.name)
    then fault
    else ok (record s { output = s.output ++ file ∷ [] })

-- `waiting.tails[waiting.tail_count++] = ...` and the same for the heads: the arrays have 10 elements
unfoldable pub push_tail : EntryPart → Cmd
push_tail part s =
    if ltb (length s.tails) 10 then ok (record s { tails = s.tails ++ part ∷ [] }) else fault

unfoldable pub push_head : EntryPart → Cmd
push_head part s =
    if ltb (length s.heads) 10 then ok (record s { heads = s.heads ++ part ∷ [] }) else fault

-- the loop of `search_cluster`, from `p` on, with the head that is left over pushed at its end
unfoldable pub search_loop : (fuel : ℕ) → Disk → (cluster_end curr curr_entries p : ℕ) → Cmd
unfolding handle push_head
search_loop zero disk cluster_end curr curr_entries p s = out_of_fuel
search_loop (suc fuel) disk cluster_end curr curr_entries p s =
    elim (ltb p cluster_end && is_dirent_basic disk.total_clusters s.mem p) [
      | true ↦
          and_then (handle disk curr (curr_entries + 1) s)
            (search_loop fuel disk cluster_end (p + entry_size) 0 (p + entry_size))
      | false ↦ elim (ltb p cluster_end && is_dirent_long s.mem p) [
        | true ↦ search_loop fuel disk cluster_end curr (curr_entries + 1) (p + entry_size) s
        | false ↦
            if curr == p then ok s else push_head (record { entry = curr; len = curr_entries }) s
      ]
    ]

abbrev pub cluster_bytes : Disk → ℕ
cluster_bytes disk = disk.byts_per_sec * disk.sec_per_clus

-- the loop takes 32 bytes per round
unfoldable pub search_from : Disk → (cluster_start p : ℕ) → Cmd
unfolding search_loop
search_from disk cluster_start p =
    search_loop (cluster_bytes disk / 32 + 2) disk (cluster_start + cluster_bytes disk) p 0 p

unfoldable pub search_cluster : Disk → (cluster_start : ℕ) → Cmd
unfolding push_tail search_from
search_cluster disk p s =
    let ord = ldir_ord s.mem p in
    if is_dirent_long s.mem p && not (is_last_long ord)
    then and_then (push_tail (record { entry = p; len = ord + 1 }) s)
        (search_from disk p (p + entry_size * (ord + 1)))
    else if is_dirent_basic disk.total_clusters s.mem p
    then and_then (push_tail (record { entry = p; len = 1 }) s)
        (search_from disk p (p + entry_size))
    else search_from disk p p s

-- `n` clusters, from `clus` on
unfoldable pub scan_clusters : ℕ → Disk → (clus : ℕ) → Cmd
unfolding search_cluster first_byte_ptr_of_cluster is_dirent_cluster_possibly
scan_clusters zero disk clus s = ok s
scan_clusters (suc n) disk clus s =
    let start = first_byte_ptr_of_cluster disk clus in
    and_then
      (if is_dirent_cluster_possibly disk.total_clusters s.mem start
        then search_cluster disk start s
        else ok s)
      (scan_clusters n disk (clus + 1))
