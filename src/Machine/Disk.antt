-- ===== src/Machine/Disk.antt =====
-- The disk in abstract-machine/am/src/x86/qemu/ioe.c: blocks of 512 bytes between the drive and a
-- buffer in memory.
mod Tests
pub mod Waiting
pub mod Words
pub mod Spans
pub mod Blocks
pub mod Rounds
use nju_os_workbench.Base.{
  ℕ, zero, suc, ◌+◌, ◌-◌, ◌*◌, ◌/◌, ◌%◌, ◌^◌, Bool, ◌&&◌, Option, none, some, ltb, leb, ◌==◌,
  if◌then◌else◌, bit_and, bit_or,
}
use nju_os_workbench.Base.Memory.{Mem}
use nju_os_workbench.Machine.Ports.{Ports}

abbrev pub blksz : ℕ
blksz = 512

-- byte `j` of a word, the lowest first
abbrev pub byte_of : ℕ → ℕ → ℕ
byte_of v j =
    if j == 0
    then v % 256
    else if j == 1
    then v / 256 % 256
    else if j == 2
    then v / 65536 % 256
    else v / 16777216 % 256

-- `*(uint32_t *)p`
unfoldable pub load32 : Mem → ℕ → ℕ
load32 m p = m p + m (p + 1) * 256 + m (p + 2) * 65536 + m (p + 3) * 16777216

unfoldable pub store32 : Mem → ℕ → ℕ → Mem
store32 m p v q = if leb p q && ltb q (p + 4) then byte_of v (q - p) else m q

module _ (P : Ports) where
  open P use {State, inb, outb, inl, outl}

  -- `none` means that the fuel ran out.
  unfoldable pub wait_disk : ℕ → State → Option State
  wait_disk zero s = none
  wait_disk (suc fuel) s =
      let (status, s') = inb s 0x1f7 in
      let rest = wait_disk fuel s' in if bit_and status 0xc0 == 0x40 then some s' else rest

  -- `outb` takes a byte.
  unfoldable pub command : ℕ → ℕ → State → State
  command blkno cmd s =
      let s1 = outb s 0x1f2 1 in
      let s2 = outb s1 0x1f3 (blkno % 2 ^ 8) in
      let s3 = outb s2 0x1f4 (blkno / 2 ^ 8 % 2 ^ 8) in
      let s4 = outb s3 0x1f5 (blkno / 2 ^ 16 % 2 ^ 8) in
      let s5 = outb s4 0x1f6 (bit_or (blkno / 2 ^ 24) 0xe0 % 2 ^ 8) in outb s5 0x1f7 cmd

  unfoldable pub read_words : (rounds : ℕ) → ℕ → Mem → State → Mem × State
  read_words zero ptr m s = (m, s)
  read_words (suc rounds) ptr m s =
      let (v, s') = inl s 0x1f0 in read_words rounds (ptr + 4) (store32 m ptr v) s'

  unfoldable pub write_words : (rounds : ℕ) → ℕ → Mem → State → State
  write_words zero ptr m s = s
  write_words (suc rounds) ptr m s = write_words rounds (ptr + 4) m (outl s 0x1f0 (load32 m ptr))

  -- one round of the loop over the blocks
  unfoldable pub one_block : ℕ → Bool → ℕ → ℕ → Mem → State → Option (Mem × State)
  one_block fuel is_write blkno ptr m s = elim (wait_disk fuel s) [
    | none ↦ none
    | some s1 ↦ elim (wait_disk fuel (command blkno (if is_write then 0x30 else 0x20) s1)) [
      | none ↦ none
      | some s2 ↦
          if is_write
          then some (m, write_words (blksz / 4) ptr m s2)
          else some (read_words (blksz / 4) ptr m s2)
    ]
  ]

  unfoldable pub disk_blkio : ℕ → Bool → (ptr blkno remain : ℕ) → Mem → State → Option (Mem × State)
  disk_blkio fuel is_write ptr blkno zero m s = some (m, s)
  disk_blkio fuel is_write ptr blkno (suc remain) m s =
      elim (one_block fuel is_write blkno ptr m s) [
        | none ↦ none
        | some (m', s') ↦ disk_blkio fuel is_write (ptr + blksz) ((blkno + 1) % 2 ^ 32) remain m' s'
      ]
