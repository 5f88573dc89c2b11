-- ===== src/Machine/Disk/Rounds.antt =====
-- A write and a read of the same blocks by `disk_blkio` of abstract-machine/am/src/x86/qemu/ioe.c.
use nju_os_workbench.Base.{
  ℕ, zero, suc, ◌+◌, ◌-◌, ◌*◌, ◌/◌, ◌%◌, ◌^◌, ◌≤◌, ◌<◌, ◌≡◌, refl, ap, ◌∙◌, fun_ext, inl, inr, true,
  false, ◌&&◌, some, arith, ltb, leb, if◌then◌else◌, Bool-cases,
}
use nju_os_workbench.Base.Memory.{Mem}
use nju_os_workbench.Machine.Ports.{Ports, Drive, IsDrive}
use nju_os_workbench.Machine.Disk.{byte_of, disk_blkio}
use nju_os_workbench.Machine.Disk.Words.{disk_byte}
use nju_os_workbench.Machine.Disk.Blocks.{IsReady, disk_blkio-reads, disk_blkio-writes}
use nju_os_workbench.Machine.Disk.Spans.{from_disk, to_disk}
unfoldable use nju_os_workbench.Machine.Disk.{load32}

zero_right : (p : ℕ) → p + 0 ≡ p
zero_right p = omega arith

byte_of-load32 :
    (m : Mem) (p j : ℕ) → ((q : ℕ) → m q < 256) → j < 4 → byte_of (load32 m p) j ≡ m (p + j)
unfolding load32
byte_of-load32 m p zero small lt =
    omega (arith, small p, small (p + 1), small (p + 2), small (p + 3), ap m (zero_right p))
byte_of-load32 m p (suc zero) small lt =
    omega (arith, small p, small (p + 1), small (p + 2), small (p + 3))
byte_of-load32 m p (suc (suc zero)) small lt =
    omega (arith, small p, small (p + 1), small (p + 2), small (p + 3))
byte_of-load32 m p (suc (suc (suc zero))) small lt =
    omega (arith, small p, small (p + 1), small (p + 2), small (p + 3))
byte_of-load32 m p (suc (suc (suc (suc j)))) small lt = absurd (omega arith)

stored_byte :
    (word : ℕ → ℕ → ℕ) (b n ptr k : ℕ) (m : Mem)
    → ((q : ℕ) → m q < 256)
    → k < 512 * n
    → disk_byte (to_disk word b n ptr m) (b * 512 + k) ≡ m (ptr + k)
stored_byte word b n ptr k m small lt =
    let block : (b * 512 + k) / 512 ≡ b + k / 512 = omega arith in
    let place : (b * 512 + k) % 512 / 4 ≡ k % 512 / 4 = omega arith in
    let digit : (b * 512 + k) % 4 ≡ k % 4 = omega arith in
    let taken : to_disk word b n ptr m (b + k / 512) (k % 512 / 4)
        ≡ load32 m (ptr + (512 * (k / 512) + 4 * (k % 512 / 4))) =
      let from : b + k / 512 - b ≡ k / 512 = omega arith in rw from (ground arith) in
    let at : ptr + (512 * (k / 512) + 4 * (k % 512 / 4)) + k % 4 ≡ ptr + k = omega arith in
    rw (block, place, digit)
      (rw taken (
        byte_of-load32 m (ptr + (512 * (k / 512) + 4 * (k % 512 / 4))) (k % 4) small (omega arith)
        ∙ ap m at))

brought :
    (word : ℕ → ℕ → ℕ) (b n src dst q : ℕ) (m : Mem)
    → ((q : ℕ) → m q < 256)
    → from_disk (to_disk word b n src m) dst (512 * n) (b * 512) m q
      ≡ (if leb dst q && ltb q (dst + 512 * n) then m (src + (q - dst)) else m q)
brought word b n src dst q m small = elim (Bool-cases (leb dst q && ltb q (dst + 512 * n))) [
  | inl there ↦ rw there (stored_byte word b n src (q - dst) m small (ground arith))
  | inr away ↦ rw away refl
]

-- On a drive between commands whose status is busy `patience` times at most, less than there is
-- fuel, with block numbers up to 2^28 and a memory of bytes, blocks that are written from one
-- buffer and then read into another bring over the bytes of the first, and change no other byte;
-- both calls return.
pub disk_blkio-round :
    (P : Ports) (drive : P.State → Drive) (patience : ℕ)
    → IsDrive P drive patience
    → (fuel : ℕ) → patience < fuel
    → (n src dst b : ℕ) (m : Mem) (s : P.State) → IsReady P drive patience s
    → b + n ≤ 2 ^ 28
    → ((q : ℕ) → m q < 256)
    → (m' : Mem) × (s1 : P.State) × (s2 : P.State) × (disk_blkio P fuel true src b n m s
        ≡ some (m, s1))
      × (disk_blkio P fuel false dst b n m s1 ≡ some (m', s2))
      × ((q : ℕ) → m' q ≡ (if leb dst q && ltb q (dst + 512 * n) then m (src + (q - dst)) else m q))
disk_blkio-round P drive patience law fuel patient n src dst b m s ready le small =
    let (s1, runs1, ready1, wrote) =
      disk_blkio-writes P drive patience law fuel patient n src b m s ready le in
    let (m', s2, runs2, ready2, same, read) =
      disk_blkio-reads P drive patience law fuel patient n dst b m s1 ready1 le in
    (
      m',
      s1,
      s2,
      runs1,
      runs2,
      λ q.
          read q
          ∙ ap (λ (w : ℕ → ℕ → ℕ). from_disk w dst (512 * n) (b * 512) m q)
              (fun_ext (λ b'. fun_ext (wrote b')))
          ∙ brought (drive s).word b n src dst q m small,
    )
