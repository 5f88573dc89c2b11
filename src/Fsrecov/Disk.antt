-- ===== src/Fsrecov/Disk.antt =====
-- The geometry of the image: `main` and `first_byte_ptr_of_cluster` of M6-fsrecov/fsrecov.c. Numbers
-- of type `int` and `u32` are 32-bit patterns, addresses have 64 bits.
use nju_os_workbench.Base.{
  ℕ, ◌+◌, ◌-◌, ◌*◌, ◌/◌, ◌%◌, ◌^◌, Option, none, some, not, ◌||◌, ◌==◌, ltb, if◌then◌else◌,
}
use nju_os_workbench.Base.Memory.{Mem}
use nju_os_workbench.Fsrecov.Entry.{u16, u32}

-- the globals that `main` sets, and the fields of the header that are read later
pub record Disk : Type 0 where
  pub base : ℕ
  pub last : ℕ
  pub first_data_sector : ℕ
  pub total_clusters : ℕ
  pub byts_per_sec : ℕ
  pub sec_per_clus : ℕ

-- an `int` as an offset of a pointer
abbrev pub offset : ℕ → ℕ
offset n = if ltb n (2 ^ 31) then n else n + (2 ^ 64 - 2 ^ 32)

-- `main` and `mmap_disk` on a file of `size` bytes that is mapped at `base`. A failed `assert` and a
-- division by zero are `none`.
unfoldable pub open_disk : Mem → (base size : ℕ) → Option Disk
open_disk m base size =
    let byts_per_sec = u16 m (base + 11) in
    let sec_per_clus = m (base + 13) in
    let tot_sec = u32 m (base + 32) in
    let bytes = tot_sec * byts_per_sec % 2 ^ 32 in
    let first_data_sector = (u16 m (base + 14) + m (base + 16) * u32 m (base + 36)) % 2 ^ 32 in
    if not (u16 m (base + 510) == 43605) || (not (bytes == size) || (sec_per_clus == 0))
    then none
    else some (record {
      base = base;
      last = base + bytes - 1;
      first_data_sector = first_data_sector;
      total_clusters = (tot_sec + 2 ^ 32 - first_data_sector) % 2 ^ 32 / sec_per_clus;
      byts_per_sec = byts_per_sec;
      sec_per_clus = sec_per_clus;
    })

unfoldable pub first_byte_ptr_of_cluster : Disk → ℕ → ℕ
first_byte_ptr_of_cluster disk clus =
    let sector =
      (disk.first_data_sector + (clus + 2 ^ 32 - 2) % 2 ^ 32 * disk.sec_per_clus) % 2 ^ 32 in
    (disk.base + offset (sector * disk.byts_per_sec % 2 ^ 32)) % 2 ^ 64
