-- ===== src/Fsrecov/Entry.antt =====
-- The directory entries of M6-fsrecov/fat32.h and fsrecov.c: 32 bytes of memory from an address on.
use nju_os_workbench.Base.{
  ℕ, zero, suc, ◌+◌, ◌-◌, ◌*◌, ◌/◌, ◌%◌, ◌^◌, Bool, true, false, not, ◌||◌, List, [], ◌∷◌, ◌++◌,
  ◌==◌, ltb, if◌then◌else◌,
}
use nju_os_workbench.Base.Memory.{Mem}

-- `u16` and `u32` in memory, the low byte first
abbrev pub u16 : Mem → ℕ → ℕ
u16 m p = m p + 256 * m (p + 1)

abbrev pub u32 : Mem → ℕ → ℕ
u32 m p = m p + 256 * m (p + 1) + 65536 * m (p + 2) + 16777216 * m (p + 3)

-- An `int` is its 32-bit pattern; this compares two as signed numbers.
abbrev pub int_ltb : ℕ → ℕ → Bool
int_ltb a b = ltb ((a + 2 ^ 31) % 2 ^ 32) ((b + 2 ^ 31) % 2 ^ 32)

-- `sizeof(struct fat32dent)`
abbrev pub entry_size : ℕ
entry_size = 32

-- `struct fat32dent`
abbrev pub dir_name : Mem → ℕ → ℕ → ℕ
dir_name m dent i = m (dent + i)

abbrev pub dir_attr : Mem → ℕ → ℕ
dir_attr m dent = m (dent + 11)

abbrev pub dir_nt_res : Mem → ℕ → ℕ
dir_nt_res m dent = m (dent + 12)

-- `DIR_FstClusHI << 16 | DIR_FstClusLO`
abbrev pub clus_num : Mem → ℕ → ℕ
clus_num m dent = u16 m (dent + 20) * 65536 + u16 m (dent + 26)

abbrev pub dir_file_size : Mem → ℕ → ℕ
dir_file_size m dent = u32 m (dent + 28)

-- `struct fat32lfn`
abbrev pub ldir_ord : Mem → ℕ → ℕ
ldir_ord m lfn = m lfn

abbrev pub ldir_attr : Mem → ℕ → ℕ
ldir_attr m lfn = m (lfn + 11)

abbrev pub ldir_type : Mem → ℕ → ℕ
ldir_type m lfn = m (lfn + 12)

abbrev pub ldir_chksum : Mem → ℕ → ℕ
ldir_chksum m lfn = m (lfn + 13)

abbrev pub ldir_fst_clus_lo : Mem → ℕ → ℕ
ldir_fst_clus_lo m lfn = u16 m (lfn + 26)

-- `total_clusters` is an `int`
unfoldable pub is_dirent_basic : (total_clusters : ℕ) → Mem → ℕ → Bool
is_dirent_basic total_clusters m dent =
    if dir_name m dent 0 == 0
    then false
    else if not (dir_attr m dent / 64 == 0)
    then false
    else if not (dir_nt_res m dent == 0)
    then false
    else if (dir_name m dent 0 == b'.') || (dir_name m dent 0 == 229)
    then true
    else if int_ltb (clus_num m dent) 2 || int_ltb ((total_clusters + 1) % 2 ^ 32) (clus_num m dent)
    then false
    else if ltb (64 * 1024 * 1024) (dir_file_size m dent)
    then false
    else true

-- `LDIR_Ord & LAST_LONG_ENTRY`
abbrev pub is_last_long : ℕ → Bool
is_last_long ord = ord / 64 % 2 == 1

-- `LDIR_Ord & ~LAST_LONG_ENTRY`
abbrev pub order_number : ℕ → ℕ
order_number ord = if is_last_long ord then ord - 64 else ord

unfoldable pub is_dirent_long : Mem → ℕ → Bool
is_dirent_long m lfn =
    let ord = order_number (ldir_ord m lfn) in
    if (ord == 0) || ltb 20 ord
    then false
    else if not (ldir_attr m lfn == 15)
    then false
    else if not (ldir_type m lfn == 0)
    then false
    else if not (ldir_fst_clus_lo m lfn == 0)
    then false
    else true

unfoldable pub is_dirent_cluster_possibly : (total_clusters : ℕ) → Mem → ℕ → Bool
unfolding is_dirent_basic is_dirent_long
is_dirent_cluster_possibly total_clusters m p =
    is_dirent_basic total_clusters m p || is_dirent_long m p

-- one round of `calc_checksum`, on a byte
abbrev pub checksum_step : (sum c : ℕ) → ℕ
checksum_step sum c = ((if sum % 2 == 1 then 128 else 0) + sum / 2 + c) % 256

unfoldable pub checksum_loop : ℕ → Mem → (name sum : ℕ) → ℕ
checksum_loop zero m name sum = sum
checksum_loop (suc i) m name sum = checksum_loop i m (name + 1) (checksum_step sum (m name))

unfoldable pub calc_checksum : Mem → ℕ → ℕ
unfolding checksum_loop
calc_checksum m name = checksum_loop 11 m name 0

-- one loop of `extract_name_from_lfn`: the low bytes of `n` characters
unfoldable pub low_bytes : ℕ → Mem → ℕ → List ℕ
low_bytes zero m p = []
low_bytes (suc n) m p = (u16 m p % 256) ∷ low_bytes n m (p + 2)

-- the 13 bytes before the final NUL
unfoldable pub extract_name_from_lfn : Mem → ℕ → List ℕ
unfolding low_bytes
extract_name_from_lfn m lfn =
    low_bytes 5 m (lfn + 1) ++ low_bytes 6 m (lfn + 14) ++ low_bytes 2 m (lfn + 28)
