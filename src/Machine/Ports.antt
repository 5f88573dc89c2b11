-- ===== src/Machine/Ports.antt =====
-- The I/O ports that abstract-machine/am/src/x86/qemu reads and writes (`inb`, `outb`, `inl` and `outl`
-- are instructions of the processor), and the disk drive behind ports 0x1f0 to 0x1f7 as the ATA
-- standard describes it: a parameter of the model.
pub mod Ata
use nju_os_workbench.Base.{
  ℕ, ◌+◌, ◌-◌, ◌*◌, ◌/◌, ◌%◌, ◌^◌, ◌≤◌, ◌<◌, ◌≡◌, ◌≢◌, ◌&&◌, ◌==◌, if◌then◌else◌, bit_and,
}

pub record Ports : Type 1 where
  pub State : Type 0
  pub inb : State → ℕ → ℕ × State
  pub outb : State → ℕ → ℕ → State
  pub inl : State → ℕ → ℕ × State
  pub outl : State → ℕ → ℕ → State

-- Between commands, or in the transfer of a block: which one, and how many words have passed.
pub data Phase : Type 0 where
  waiting : Phase
  giving : (block words : ℕ) → Phase
  taking : (block words : ℕ) → Phase

-- What can be said of a drive from outside: `busy` is the number of times that its status still says
-- so, and `word b i` the i-th word of 32 bits of block b.
pub record Drive : Type 0 where
  pub count : ℕ
  pub lba0 : ℕ
  pub lba1 : ℕ
  pub lba2 : ℕ
  pub device : ℕ
  pub phase : Phase
  pub busy : ℕ
  pub word : ℕ → ℕ → ℕ

abbrev pub set_register : ℕ → ℕ → Drive → Drive
set_register port v d =
    if port == 0x1f2
    then record d { count = v }
    else if port == 0x1f3
    then record d { lba0 = v }
    else if port == 0x1f4
    then record d { lba1 = v }
    else if port == 0x1f5
    then record d { lba2 = v }
    else record d { device = v }

-- the block that the registers name
abbrev pub lba : Drive → ℕ
lba d = d.lba0 + d.lba1 * 2 ^ 8 + d.lba2 * 2 ^ 16 + d.device % 16 * 2 ^ 24

abbrev pub IsIdle : Drive → Type 0
IsIdle d = (d.phase ≡ waiting) × (d.busy ≡ 0)

-- one block, of drive 0, by its number
abbrev pub IsAddressed : Drive → Type 0
IsAddressed d = (d.count ≡ 1) × (d.device / 16 ≡ 14)

abbrev pub write_word : (ℕ → ℕ → ℕ) → ℕ → ℕ → ℕ → ℕ → ℕ → ℕ
write_word word b i v b' i' = if (b == b') && (i == i') then v else word b' i'

-- What the standard says of a drive whose status is busy `patience` times at most.
pub record IsDrive (P : Ports) (drive : P.State → Drive) (patience : ℕ) : Type 0 where
  pub delay : P.State → ℕ
  pub delay-le : (s : P.State) → delay s ≤ patience
  pub ready :
      (s : P.State)
      → (drive s).busy ≡ 0
      → (bit_and (P.inb s 0x1f7).0 0xc0 ≡ 0x40) × (drive (P.inb s 0x1f7).1 ≡ drive s)
  pub not_ready :
      (s : P.State)
      → 0 < (drive s).busy
      → (bit_and (P.inb s 0x1f7).0 0xc0 ≢ 0x40)
        × (drive (P.inb s 0x1f7).1 ≡ record (drive s) { busy = (drive s).busy - 1 })
  pub registers :
      (s : P.State) (port v : ℕ)
      → IsIdle (drive s)
      → 0x1f2 ≤ port
      → port ≤ 0x1f6
      → drive (P.outb s port v) ≡ set_register port v (drive s)
  pub read_command :
      (s : P.State)
      → IsIdle (drive s)
      → IsAddressed (drive s)
      → drive (P.outb s 0x1f7 0x20)
        ≡ record (drive s) { phase = giving (lba (drive s)) 0; busy = delay s }
  pub write_command :
      (s : P.State)
      → IsIdle (drive s)
      → IsAddressed (drive s)
      → drive (P.outb s 0x1f7 0x30)
        ≡ record (drive s) { phase = taking (lba (drive s)) 0; busy = delay s }
  pub gives :
      (s : P.State) (b i : ℕ)
      → (drive s).phase ≡ giving b i
      → (drive s).busy ≡ 0
      → ((P.inl s 0x1f0).0 ≡ (drive s).word b i)
        × (drive (P.inl s 0x1f0).1
            ≡ record (drive s) { phase = if i == 127 then waiting else giving b (i + 1) })
  pub takes :
      (s : P.State) (b i v : ℕ)
      → (drive s).phase ≡ taking b i
      → (drive s).busy ≡ 0
      → drive (P.outl s 0x1f0 v) ≡ record (drive s) {
        phase = if i == 127 then waiting else taking b (i + 1);
        busy = if i == 127 then delay s else 0;
        word = write_word (drive s).word b i v;
      }
