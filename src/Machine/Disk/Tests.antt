-- ===== src/Machine/Disk/Tests.antt =====
-- A block written from address 0 and read back to address 1024.
use nju_os_workbench.Base.{
  ℕ, ◌+◌, ◌-◌, ◌*◌, ◌%◌, ◌≡◌, refl, true, false, ◌&&◌, some, arith, ltb, leb, if◌then◌else◌,
}
use nju_os_workbench.Base.Memory.{Mem}
use nju_os_workbench.Machine.Ports.{Drive}
use nju_os_workbench.Machine.Ports.Ata.{ata, ata-IsDrive, numbered}
use nju_os_workbench.Machine.Disk.{disk_blkio}
use nju_os_workbench.Machine.Disk.Rounds.{disk_blkio-round}

abbrev counting : Mem
counting q = q % 256

disk_blkio-round_example :
    (m' : Mem) × (s1 : Drive) × (s2 : Drive) × (disk_blkio ata 2 true 0 5 1 counting numbered
      ≡ some (counting, s1))
    × (disk_blkio ata 2 false 1024 5 1 counting s1 ≡ some (m', s2))
    × ((q : ℕ)
        → m' q ≡ (
            if leb 1024 q && ltb q (1024 + 512 * 1) then counting (0 + (q - 1024)) else counting q))
disk_blkio-round_example =
    disk_blkio-round ata (λ d. d) 1 ata-IsDrive 2 (omega arith) 1 0 1024 5 counting numbered
      (refl, omega arith) (omega arith) (λ q. omega arith)
