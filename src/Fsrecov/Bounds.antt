-- ===== src/Fsrecov/Bounds.antt =====
-- Where the clusters and the recovered files of M6-fsrecov/fsrecov.c lie.
use nju_os_workbench.Fsrecov.Predicates.{IsMemory}
use nju_os_workbench.Base.{
  not, false, ◌==◌, ltb, Bool-cases, inl, inr, ◌⊎◌, ◌≢◌, min, length, ◌++◌, ◌∷◌, [], refl, suc, ℕ,
  ◌+◌, ◌-◌, ◌*◌, ◌%◌, ◌^◌, ◌≤◌, ◌<◌, ◌≡◌, arith, true,
}
use nju_os_workbench.Base.Memory.{Mem}
use nju_os_workbench.Fsrecov.Entry.{is_dirent_basic, u16, clus_num, entry_size, dir_file_size}
use nju_os_workbench.Fsrecov.Disk.{Disk, first_byte_ptr_of_cluster}
use nju_os_workbench.Fsrecov.Scan.{
  State, ok, fault, handle, is_skipped, OutputFile, cluster_bytes, recovered, is_mapped, file_name,
}

-- A sector holds whole entries, and the clusters end inside the image, which has less than 2^31 - 1 bytes, in the lower half of the
-- address space.
pub record WellFormed (disk : Disk) : Type 0 where
  pub sectors : 1 ≤ disk.byts_per_sec
  pub clusters : 1 ≤ disk.sec_per_clus
  pub entries : disk.byts_per_sec % 32 ≡ 0
  pub inside :
      disk.base
        + (disk.first_data_sector + disk.total_clusters * disk.sec_per_clus) * disk.byts_per_sec
      ≤ disk.last + 1
  pub small : disk.last + 2 < disk.base + 2 ^ 31
  pub low : disk.base < 2 ^ 62

pub mul_pos : (a b : ℕ) → 1 ≤ a → 1 ≤ b → 1 ≤ a * b
mul_pos a b ha hb = grind arith

mul_two : (a b : ℕ) → 2 ≤ a → 1 ≤ b → 2 * 1 ≤ a * b
mul_two a b ha hb = grind arith

pub mul_mono : (a b n : ℕ) → a ≤ b → a * n ≤ b * n
mul_mono a b n le = let e : b ≡ a + (b - a) = omega arith in rw e (omega arith)

-- the sector of the cluster with the index `i`, counted from 0, and the cluster's place
cluster-place :
    (first i total spc bps : ℕ)
    → i < total
    → (first + i * spc) * bps + bps * spc ≤ (first + total * spc) * bps
cluster-place first i total spc bps lt = grind (arith, mul_mono (suc i) total (spc * bps) lt)

small_factors : (a b n : ℕ) → 1 ≤ b → a * b < n → a < n
small_factors a b n le lt = grind arith

-- Cluster 2 and the following ones, as many as `total_clusters`, lie in the image, one behind the
-- other, from the first data sector on.
pub first_byte_ptr_of_cluster-inside :
    (disk : Disk) (clus : ℕ)
    → WellFormed disk
    → 2 ≤ clus
    → clus < disk.total_clusters + 2
    → (first_byte_ptr_of_cluster disk clus
        ≡ disk.base + (disk.first_data_sector + (clus - 2) * disk.sec_per_clus) * disk.byts_per_sec)
      × (first_byte_ptr_of_cluster disk clus + cluster_bytes disk ≤ disk.last + 1)
unfolding first_byte_ptr_of_cluster
first_byte_ptr_of_cluster-inside disk clus wf ge lt =
    let i = clus - 2 in
    let place =
      cluster-place disk.first_data_sector i disk.total_clusters disk.sec_per_clus disk.byts_per_sec
        (omega arith) in
    let bytes = mul_pos disk.byts_per_sec disk.sec_per_clus wf.sectors wf.clusters in
    let size = (disk.first_data_sector + i * disk.sec_per_clus) * disk.byts_per_sec in
    let size-small : size < 2 ^ 31 = omega (arith, wf.inside, wf.small, place, bytes) in
    let sector-small : disk.first_data_sector + i * disk.sec_per_clus < 2 ^ 31 =
      small_factors (disk.first_data_sector + i * disk.sec_per_clus) disk.byts_per_sec (2 ^ 31)
        wf.sectors size-small in
    let index-small : i < 2 ^ 31 =
      small_factors i disk.sec_per_clus (2 ^ 31) wf.clusters (omega arith) in
    let index : (clus + 2 ^ 32 - 2) % 2 ^ 32 ≡ clus - 2 = omega arith in
    let sector : (disk.first_data_sector + (clus - 2) * disk.sec_per_clus) % 2 ^ 32
        ≡ disk.first_data_sector + (clus - 2) * disk.sec_per_clus =
      omega arith in
    rw (index, sector) (ground arith, ground (arith, place, wf.inside))

pub total_clusters-small : (disk : Disk) → WellFormed disk → disk.total_clusters + 1 < 2 ^ 31
total_clusters-small disk wf =
    let a =
      small_factors (disk.first_data_sector + disk.total_clusters * disk.sec_per_clus)
        disk.byts_per_sec (2 ^ 31 - 1) wf.sectors (omega (arith, wf.inside, wf.small)) in
    let b =
      small_factors disk.total_clusters disk.sec_per_clus (2 ^ 31 - 1) wf.clusters (omega arith) in
    omega arith

-- the file lies in the image: as many bytes as its entry says, or up to the end of the image
pub record Inside (disk : Disk) (file_size : ℕ) (file : OutputFile) : Type 0 where
  pub from_base : disk.base ≤ file.start
  pub to_last : file.start + file.size ≤ disk.last + 1
  pub size_is : file.size ≡ min file_size (disk.last + 1 - file.start)

recovered-Inside :
    (disk : Disk) (m : Mem) (entry len : ℕ)
    → WellFormed disk
    → 2 ≤ clus_num m (entry + (len - 1) * entry_size)
    → clus_num m (entry + (len - 1) * entry_size) < disk.total_clusters + 2
    → dir_file_size m (entry + (len - 1) * entry_size) < 2 ^ 31
    → Inside disk (dir_file_size m (entry + (len - 1) * entry_size)) (recovered disk m entry len)
unfolding recovered
recovered-Inside disk m entry len wf ge lt small =
    let basic = entry + (len - 1) * entry_size in
    let (place, fits) = first_byte_ptr_of_cluster-inside disk (clus_num m basic) wf ge lt in
    let start-ge : disk.base ≤ first_byte_ptr_of_cluster disk (clus_num m basic) = omega arith in
    let bytes = mul_pos disk.byts_per_sec disk.sec_per_clus wf.sectors wf.clusters in
    let place-le : first_byte_ptr_of_cluster disk (clus_num m basic) ≤ disk.last = omega arith in
    record {
      from_base = start-ge;
      to_last = ground (arith, wf.small, wf.low);
      size_is = ground (arith, wf.small, wf.low);
    }

recovered_name :
    (disk : Disk) (m : Mem) (entry len : ℕ)
    → (recovered disk m entry len).name ≡ file_name m entry len
unfolding recovered
recovered_name disk m entry len = refl

-- the entries that `handle` goes on with
kept_range :
    (disk : Disk) (m : Mem) (p : ℕ)
    → IsMemory m
    → disk.total_clusters + 1 < 2 ^ 31
    → is_dirent_basic disk.total_clusters m p ≡ true
    → m p ≢ b'.'
    → is_skipped disk m p ≡ false
    → (2 ≤ clus_num m p) × (clus_num m p < disk.total_clusters + 2) × (dir_file_size m p < 2 ^ 31)
unfolding is_dirent_basic is_skipped
kept_range disk m p bytes small is_basic no_dot kept =
    ground (arith, bytes (p + 20), bytes (p + 20 + 1), bytes (p + 26), bytes (p + 26 + 1))

-- the first two bytes of a cluster lie in the image
cluster-is_mapped :
    (disk : Disk) (clus : ℕ)
    → WellFormed disk
    → 2 ≤ clus
    → clus < disk.total_clusters + 2
    → is_mapped disk (first_byte_ptr_of_cluster disk clus) 2 ≡ true
unfolding is_mapped
cluster-is_mapped disk clus wf ge lt =
    let (place, fits) = first_byte_ptr_of_cluster-inside disk clus wf ge lt in
    let two : 2 ≤ disk.byts_per_sec = omega (arith, wf.sectors, wf.entries) in
    let bytes : 2 * 1 ≤ disk.byts_per_sec * disk.sec_per_clus =
      mul_two disk.byts_per_sec disk.sec_per_clus two wf.clusters in
    ground arith

-- For a short entry whose name does not start with a dot, in a well-formed image, `handle` puts out no
-- file, or it writes behind its buffer for the name, which has then more than 255 bytes, or it puts
-- out one that lies inside the image: as many bytes as the entry says, or up to the end of the image.
-- It reads nothing outside of the image on the way.
pub handle-Inside :
    (disk : Disk) (entry len : ℕ) (s : State)
    → WellFormed disk
    → IsMemory s.mem
    → is_dirent_basic disk.total_clusters s.mem (entry + (len - 1) * entry_size) ≡ true
    → s.mem (entry + (len - 1) * entry_size) ≢ b'.'
    → ((handle disk entry len s ≡ fault) × (255 < length (file_name s.mem entry len)))
      ⊎ ((handle disk entry len s ≡ ok s)
          ⊎ ((file : OutputFile) × (handle disk entry len s
                ≡ ok (record s { output = s.output ++ file ∷ [] }))
              × (length file.name ≤ 255)
              × Inside disk (dir_file_size s.mem (entry + (len - 1) * entry_size)) file))
unfolding handle
handle-Inside disk entry len s wf bytes is_basic no_dot =
    elim (Bool-cases (is_skipped disk s.mem (entry + (len - 1) * entry_size))) [
      | inl skip ↦ rw skip (inr (inl refl))
      | inr kept ↦
          let (ge, lt, small) =
            kept_range disk s.mem (entry + (len - 1) * entry_size) bytes
              (total_clusters-small disk wf) is_basic no_dot kept in
          let mapped =
            cluster-is_mapped disk (clus_num s.mem (entry + (len - 1) * entry_size)) wf ge lt in
          let file = recovered-Inside disk s.mem entry len wf ge lt small in
          elim (Bool-cases (
            not (
              u16 s.mem
                (first_byte_ptr_of_cluster disk (clus_num s.mem (entry + (len - 1) * entry_size)))
              == 19778))) [
                | inl other ↦ rw (kept, mapped, other) (inr (inl refl))
                | inr bitmap ↦
                    elim (Bool-cases (ltb 255 (length (recovered disk s.mem entry len).name))) [
                      | inl long ↦
                          rw (kept, mapped, bitmap, long)
                            (inl (refl, ground (arith, long, recovered_name disk s.mem entry len)))
                      | inr fits ↦
                          rw (kept, mapped, bitmap, fits)
                            (inr (inr (recovered disk s.mem entry len, refl, ground arith, file)))
                    ]
              ]
    ]
