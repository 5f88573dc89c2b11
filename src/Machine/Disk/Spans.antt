-- ===== src/Machine/Disk/Spans.antt =====
-- Bytes and words of whole blocks, for the loops of `disk_blkio` of
-- abstract-machine/am/src/x86/qemu/ioe.c.
use nju_os_workbench.Base.{
  ℕ, suc, ◌+◌, ◌-◌, ◌*◌, ◌/◌, ◌%◌, ◌≡◌, ◌&&◌, arith, ltb, leb, ◌==◌, if◌then◌else◌,
}
unfoldable use nju_os_workbench.Base.{dec_lt}
use nju_os_workbench.Base.Memory.{Mem}
use nju_os_workbench.Machine.Disk.{byte_of}
use nju_os_workbench.Machine.Disk.Words.{disk_byte}
unfoldable use nju_os_workbench.Machine.Disk.{load32}

-- the `n` bytes at `ptr` replaced by those of the disk from byte `from` on
abbrev pub from_disk : (ℕ → ℕ → ℕ) → (ptr n from : ℕ) → Mem → Mem
from_disk word ptr n from m q =
    if leb ptr q && ltb q (ptr + n) then disk_byte word (from + (q - ptr)) else m q

-- the `n` blocks from `b` on replaced by the memory at `ptr`
abbrev pub to_disk : (ℕ → ℕ → ℕ) → (b n ptr : ℕ) → Mem → ℕ → ℕ → ℕ
to_disk word b n ptr m b' i' =
    if leb b b' && ltb b' (b + n) && ltb i' 128
    then load32 m (ptr + (512 * (b' - b) + 4 * i'))
    else word b' i'

pub in_block :
    (word : ℕ → ℕ → ℕ) (b ptr q : ℕ) (m : Mem)
    → (if leb ptr q && ltb q (ptr + 4 * 128)
        then byte_of (word b (0 + (q - ptr) / 4)) ((q - ptr) % 4)
        else m q)
      ≡ from_disk word ptr 512 (b * 512) m q
in_block word b ptr q m = elim (dec_lt q (ptr + 512)) [
  | yes below ↦
      let block : (b * 512 + (q - ptr)) / 512 ≡ b = omega arith in
      let place : (b * 512 + (q - ptr)) % 512 / 4 ≡ 0 + (q - ptr) / 4 = omega arith in
      let digit : (b * 512 + (q - ptr)) % 4 ≡ (q - ptr) % 4 = omega arith in
      rw (block, place, digit) (ground arith)
  | no above ↦ ground arith
]

pub one_taken :
    (word : ℕ → ℕ → ℕ) (b ptr b' i' : ℕ) (m : Mem)
    → (if (b' == b) && leb 0 i' && ltb i' 128 then load32 m (ptr + 4 * (i' - 0)) else word b' i')
      ≡ to_disk word b 1 ptr m b' i'
one_taken word b ptr b' i' m = elim (dec_lt b b') [
  | yes past ↦ ground arith
  | no before ↦
      let place : ptr + 4 * (i' - 0) ≡ ptr + (512 * (b' - b) + 4 * i') = omega arith in
      rw place (ground arith)
]

pub split_blocks :
    (word : ℕ → ℕ → ℕ) (ptr rounds b q : ℕ) (m : Mem)
    → from_disk word
        (ptr + 512)
        (512 * rounds)
        ((b + 1) * 512)
        (from_disk word ptr 512 (b * 512) m)
        q
      ≡ from_disk word ptr (512 * suc rounds) (b * 512) m q
split_blocks word ptr rounds b q m = elim (dec_lt q (ptr + 512)) [
  | yes below ↦ ground arith
  | no above ↦
      let place : (b + 1) * 512 + (q - (ptr + 512)) ≡ b * 512 + (q - ptr) = omega arith in
      rw place (ground arith)
]

pub split_taken :
    (word : ℕ → ℕ → ℕ) (ptr rounds b b' i' : ℕ) (m : Mem)
    → to_disk (to_disk word b 1 ptr m) (b + 1) rounds (ptr + 512) m b' i'
      ≡ to_disk word b (suc rounds) ptr m b' i'
split_taken word ptr rounds b b' i' m = elim (dec_lt b b') [
  | yes past ↦
      let place : ptr + 512 + (512 * (b' - (b + 1)) + 4 * i') ≡ ptr + (512 * (b' - b) + 4 * i') =
        omega arith in
      rw place (ground arith)
  | no before ↦ ground arith
]
