-- ===== src/Fsrecov/Header.antt =====
-- The header that `main` and `mmap_disk` of M6-fsrecov/fsrecov.c accept.
use native.Mathlib.Nat.{div-add-mod'}
use nju_os_workbench.Base.{
  ap, ◌∙◌, ◌≢◌, ℕ, ◌+◌, ◌-◌, ◌*◌, ◌/◌, ◌%◌, ◌^◌, ◌≤◌, ◌<◌, ◌≡◌, some, arith,
}
use nju_os_workbench.Base.Memory.{Mem}
use nju_os_workbench.Fsrecov.Entry.{u16, u32}
use nju_os_workbench.Fsrecov.Disk.{Disk, open_disk}
use nju_os_workbench.Fsrecov.Bounds.{WellFormed, mul_mono}

-- What the header of a FAT-32 file system of less than 2^31 - 1 bytes says: sectors of whole entries,
-- clusters, and a data area that starts inside of the volume.
pub record IsHeader (m : Mem) (base : ℕ) : Type 0 where
  pub sector : 1 ≤ u16 m (base + 11)
  pub whole : u16 m (base + 11) % 32 ≡ 0
  pub small : u32 m (base + 32) * u16 m (base + 11) + 1 < 2 ^ 31
  pub sectors : u32 m (base + 32) < 2 ^ 32
  pub data_area : u16 m (base + 14) + m (base + 16) * u32 m (base + 36) ≤ u32 m (base + 32)

-- The clusters behind the first data sector end with the volume.
clusters_fit :
    (total first spc bps : ℕ)
    → first ≤ total
    → 1 ≤ spc
    → (first + (total - first) / spc * spc) * bps ≤ total * bps
clusters_fit total first spc bps le pos =
    mul_mono (first + (total - first) / spc * spc) total bps
      (omega (arith, div-add-mod' (total - first) spc))

-- what `open_disk` has found out
record Opened (m : Mem) (base size : ℕ) (disk : Disk) : Type 0 where
  spc_ne : m (base + 13) ≢ 0
  bytes_is : u32 m (base + 32) * u16 m (base + 11) % 2 ^ 32 ≡ size
  base_is : disk.base ≡ base
  last_is : disk.last ≡ base + size - 1
  bps_is : disk.byts_per_sec ≡ u16 m (base + 11)
  spc_is : disk.sec_per_clus ≡ m (base + 13)
  first_is :
      disk.first_data_sector ≡ (u16 m (base + 14) + m (base + 16) * u32 m (base + 36)) % 2 ^ 32
  total_is :
      disk.total_clusters
      ≡ (u32 m (base + 32) + 2 ^ 32 - disk.first_data_sector) % 2 ^ 32 / m (base + 13)

opened :
    (m : Mem) (base size : ℕ) (disk : Disk)
    → open_disk m base size ≡ some disk
    → Opened m base size disk
unfolding open_disk
opened m base size disk e = record {
  spc_ne = ground arith;
  bytes_is = ground arith;
  base_is = ground arith;
  last_is = ground arith;
  bps_is = ground arith;
  spc_is = ground arith;
  first_is = ground arith;
  total_is = ground arith;
}

-- The program takes the geometry of the image from such a header as it means to: what it sets is
-- well-formed, it ends with the file, and there are as many clusters as fit behind the first data
-- sector.
pub open_disk-WellFormed :
    (m : Mem) (base size : ℕ) {disk : Disk}
    → base < 2 ^ 62
    → 1 ≤ size
    → IsHeader m base
    → open_disk m base size ≡ some disk
    → WellFormed disk
      × (disk.last + 1 ≡ base + size)
      × (disk.total_clusters
          ≡ (u32 m (base + 32) - (u16 m (base + 14) + m (base + 16) * u32 m (base + 36)))
            / m (base + 13))
open_disk-WellFormed m base size {disk} low some_bytes h e =
    let tot = u32 m (base + 32) in
    let bps = u16 m (base + 11) in
    let first = u16 m (base + 14) + m (base + 16) * u32 m (base + 36) in
    let spc = m (base + 13) in
    let fit = clusters_fit tot first spc bps h.data_area in
    let o = opened m base size disk e in
    let first_is : disk.first_data_sector ≡ first =
      o.first_is ∙ omega (arith, h.data_area, h.sectors) in
    let left : (tot + 2 ^ 32 - disk.first_data_sector) % 2 ^ 32 ≡ tot - first =
      omega (arith, first_is, h.data_area, h.sectors) in
    let total_is : disk.total_clusters ≡ (tot - first) / spc =
      o.total_is ∙ ap (λ (n : ℕ). n / spc) left in
    let bytes_is : tot * bps ≡ size = omega (arith, o.bytes_is, h.small) in
    let spc_pos : 1 ≤ spc = ground (arith, o.spc_ne) in
    (
      record {
        sectors = rw o.bps_is h.sector;
        clusters = rw o.spc_is spc_pos;
        entries = rw o.bps_is h.whole;
        inside =
            rw (o.base_is, first_is, total_is, o.spc_is, o.bps_is, o.last_is)
              (omega (arith, fit spc_pos, bytes_is));
        small = rw (o.base_is, o.last_is) (omega (arith, h.small, bytes_is));
        low = rw o.base_is low;
      },
      rw o.last_is (omega arith),
      total_is,
    )
