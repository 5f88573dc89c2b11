-- ===== src/Fsrecov/Tests.antt =====
-- An image of three sectors at address 4096: cluster 2 is a directory with one entry, whose file is
-- the bitmap in cluster 3.
use nju_os_workbench.Fsrecov.Scan.{
  and_then, search_from, OutputFile, State, ok, fault, handle, file_name,
}
use nju_os_workbench.Fsrecov.Groups.{handle_groups, wait_for_short, search_from-groups}
use nju_os_workbench.Base.{
  ◌-◌, ◌*◌, ◌/◌, ℕ, ◌+◌, ◌≤◌, ◌≡◌, ◌≢◌, ◌⊎◌, inr, refl, false, [], ◌∷◌, ◌++◌, arith, ◌==◌,
  if◌then◌else◌, length, ◌<◌,
}
use nju_os_workbench.Fsrecov.Entry.{
  u16, u32, is_dirent_basic, is_dirent_long, calc_checksum, dir_file_size,
}
use nju_os_workbench.Fsrecov.Disk.{open_disk, Disk}
use nju_os_workbench.Fsrecov.Header.{IsHeader, open_disk-WellFormed}
use nju_os_workbench.Base.Memory.{Mem}
use nju_os_workbench.Fsrecov.Match.{full_scan}
use nju_os_workbench.Fsrecov.Predicates.{IsMemory, is_dirent_long-basic, calc_checksum-differs}
use nju_os_workbench.Fsrecov.Bounds.{WellFormed, Inside, handle-Inside}
use nju_os_workbench.Fsrecov.Waiting.{Ends, Waits}
use nju_os_workbench.Fsrecov.Image.{Agrees}
use nju_os_workbench.Fsrecov.Matching.{full_scan-Ends}

abbrev small_disk : Disk
small_disk = record {
  base = 4096;
  last = 5631;
  first_data_sector = 1;
  total_clusters = 2;
  byts_per_sec = 512;
  sec_per_clus = 1;
}

small_disk-WellFormed : WellFormed small_disk
small_disk-WellFormed = record {
  sectors = omega arith;
  clusters = omega arith;
  entries = omega arith;
  inside = omega arith;
  small = omega arith;
  low = omega arith;
}

-- the entry `A`, of 600 bytes from cluster 3 on
abbrev image : Mem
image q =
    if q == 4608
    then 65
    else if q == 4619
    then 32
    else if q == 4634
    then 3
    else if q == 4636
    then 88
    else if q == 4637
    then 2
    else if q == 5120
    then 66
    else if q == 5121
    then 77
    else 0

image-IsMemory : IsMemory image
image-IsMemory p = ground arith

abbrev start : State
start = record { mem = image; heads = []; tails = []; output = [] }

start-Waits : Waits small_disk image start
start-Waits = record {
  memory = refl;
  heads_long = tt;
  tails_entries = tt;
  heads_bound = omega arith;
  tails_bound = omega arith;
}

abbrev malloc_high : ℕ → ℕ → ℕ → ℕ
malloc_high i j size = 10000

full_scan-Ends_example :
    Ends (λ s'. Agrees small_disk image s'.mem) (full_scan malloc_high small_disk start)
full_scan-Ends_example =
    full_scan-Ends malloc_high small_disk start small_disk-WellFormed
      (λ i j size. inr (omega arith)) refl refl

handle-Inside_example :
    ((handle small_disk 4608 1 start ≡ fault) × (255 < length (file_name image 4608 1)))
    ⊎ ((handle small_disk 4608 1 start ≡ ok start)
        ⊎ ((file : OutputFile) × (handle small_disk 4608 1 start
              ≡ ok (record start { output = [] ++ file ∷ [] }))
            × (length file.name ≤ 255)
            × Inside small_disk (dir_file_size image (4608 + 0 * 32)) file))
unfolding is_dirent_basic
handle-Inside_example =
    handle-Inside small_disk 4608 1 start small_disk-WellFormed image-IsMemory refl
      (λ e. omega (arith, e))

-- a long entry at address 64
abbrev long_entry : Mem
long_entry q = if q == 64 then 65 else if q == 75 then 15 else if q == 84 then 66 else 0

is_dirent_long-basic_example : is_dirent_basic 2 long_entry 64 ≡ false
unfolding is_dirent_long
is_dirent_long-basic_example =
    is_dirent_long-basic 2 long_entry 64 (λ p. ground arith) (omega arith) (λ e. omega (arith, e))
      refl

-- the same image with another name
abbrev renamed : Mem
renamed q = if q == 4608 then 66 else image q

calc_checksum-differs_example : calc_checksum image 4608 ≢ calc_checksum renamed 4608
calc_checksum-differs_example =
    calc_checksum-differs image renamed 4608 4608 0 image-IsMemory (λ p. ground arith) (omega arith)
      (λ j lt ne. ground arith) (λ e. omega (arith, e))

-- The scan finds the file, cut off at the end of the image.
recovers :
    (s' : State) × (full_scan malloc_high small_disk start ≡ ok s')
    × (s'.output ≡ record { name = 65 ∷ []; start = 5120; size = 512 } ∷ [])
unfolding full_scan
recovers = (_, refl, refl)

-- the header of the image
abbrev header : Mem
header q =
    if q == 4108
    then 2
    else if q == 4109
    then 1
    else if q == 4110
    then 1
    else if q == 4128
    then 3
    else if q == 4606
    then 85
    else if q == 4607
    then 170
    else 0

header-IsHeader : IsHeader header 4096
header-IsHeader = record {
  sector = omega arith;
  whole = refl;
  small = omega arith;
  sectors = omega arith;
  data_area = omega arith;
}

open_disk-WellFormed_example :
    WellFormed small_disk
    × (small_disk.last + 1 ≡ 4096 + 1536)
    × (small_disk.total_clusters
        ≡ (u32 header (4096 + 32)
            - (u16 header (4096 + 14) + header (4096 + 16) * u32 header (4096 + 36)))
          / header (4096 + 13))
unfolding open_disk
open_disk-WellFormed_example =
    open_disk-WellFormed header 4096 1536 (omega arith) (omega arith) header-IsHeader refl

search_from-groups_example :
    search_from small_disk 4608 4608 start
    ≡ and_then (handle_groups small_disk 4608 (0 ∷ []) start) (wait_for_short 4640 0)
unfolding is_dirent_basic is_dirent_long
search_from-groups_example =
    search_from-groups small_disk 4608 4608 (0 ∷ []) 0 start (omega arith) (tt, refl, tt) tt
      (omega arith) (inr (refl, refl))
