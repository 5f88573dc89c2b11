-- ===== src/Machine/Trm.antt =====
-- The start and the end of a run, abstract-machine/am/src/x86/qemu/trm.c: the size of the heap, the table of
-- the processors in the memory, and what `halt` prints.
mod Tests
pub mod Counting
use nju_os_workbench.Base.{
  ℕ, zero, suc, ◌+◌, ◌-◌, ◌*◌, ◌/◌, ◌%◌, ◌^◌, ◌≤◌, ◌<◌, min, ◌≡◌, ◌≢◌, refl, sym, ap, ap₂, ◌∙◌,
  subst, fun_ext, ◌≡⟨◌⟩◌, ◌∎, ◌↔◌, ◌⊎◌, inl, inr, Bool, true, false, not, ◌&&◌, ◌||◌, Option, none,
  some, List, [], ◌∷◌, ◌++◌, map, append-nil, append_assoc, arith, ltb, leb, ◌==◌, if◌then◌else◌,
  tests, Bool-cases, Option-cases, ==_iff, length, length-append, get_elem?, bit_or,
}
unfoldable use nju_os_workbench.Base.{dec_lt, dec_le, ℕ_discrete}
use nju_os_workbench.Base.Memory.{Mem}
use nju_os_workbench.Klib.Stdlib.{Area}
use nju_os_workbench.Machine.Disk.{load32}
use nju_os_workbench.Machine.Ports.{Ports}

abbrev pub max_cpu : ℕ
max_cpu = 8

abbrev pub mp_magic : ℕ
mp_magic = 0x5f504d5f

-- `MPDesc.conf`, `MPConf.length` and `MPConf.lapicaddr`, in structures that are packed as they stand
abbrev pub desc_conf : Mem → ℕ → ℕ
desc_conf m st = load32 m (st + 4)

abbrev pub conf_length : Mem → ℕ → ℕ
conf_length m conf = m (conf + 4) + m (conf + 5) * 256

abbrev pub conf_lapicaddr : Mem → ℕ → ℕ
conf_lapicaddr m conf = load32 m (conf + 36)

abbrev pub conf_size : ℕ
conf_size = 44

-- `__am_lapic` and `__am_ncpu`; or one of the two panics, too many processors and `bug()`
pub data Processors : Type 0 where
  processors : (lapic ncpu : ℕ) → Processors
  too_many : Processors
  no_table : Processors

-- The loop over the entries; the increments are those of its body and of its head.
unfoldable pub count_loop : (fuel lapic ptr stop ncpu : ℕ) → Mem → Option Processors
count_loop zero lapic ptr stop ncpu m = none
count_loop (suc fuel) lapic ptr stop ncpu m = elim (ltb ptr stop) [
  | false ↦ some (processors lapic ncpu)
  | true ↦ elim (m ptr == 0) [
    | true ↦ elim (ltb max_cpu (ncpu + 1)) [
      | true ↦ some too_many
      | false ↦ count_loop fuel lapic (ptr + 12 + 8) stop (ncpu + 1) m
    ]
    | false ↦ count_loop fuel lapic (ptr + 8) stop ncpu m
  ]
]

-- from the descriptor at `st` on; each round takes 8 bytes at least
unfoldable pub count_processors : ℕ → Mem → Option Processors
count_processors st m =
    let conf = desc_conf m st in
    count_loop (conf_length m conf / 8 + 1) (conf_lapicaddr m conf) (conf + conf_size)
      (conf + conf_length m conf) 0 m

-- the search for the descriptor
unfoldable pub search_table : (rounds st : ℕ) → Mem → Option Processors
search_table zero st m = some no_table
search_table (suc rounds) st m = elim (load32 m st == mp_magic) [
  | true ↦ count_processors st m
  | false ↦ search_table rounds (st + 1) m
]

abbrev pub bios_start : ℕ
bios_start = 0xf0000

abbrev pub bios_stop : ℕ
bios_stop = 0xffffff

unfoldable pub lapic_init : Mem → Option Processors
lapic_init m = search_table (bios_stop - bios_start) bios_start m

-- `kernel_end` is the address of the linker's symbol `end`.
unfoldable pub heap_init : (P : Ports) → (kernel_end : ℕ) → P.State → Area × P.State
heap_init P kernel_end s =
    let (lo, s1) = P.inb (P.outb s 0x70 0x34) 0x71 in
    let (hi, s2) = P.inb (P.outb s1 0x70 0x35) 0x71 in
    (
      record {
        start = (kernel_end + 2 ^ 20 - 1) / 2 ^ 20 * 2 ^ 20;
        stop = bit_or lo ((hi + 1) * 2 ^ 8) * 2 ^ 16 % 2 ^ 32;
      },
      s2,
    )

-- a character of "0123456789abcdef"
abbrev pub hex : ℕ → ℕ
hex d = if ltb d 10 then b'0' + d else b'a' + (d - 10)

-- what `halt` prints; `code` is the bit pattern of the int
unfoldable pub halt_text : (cpu code : ℕ) → List ℕ → List ℕ
halt_text cpu code [] = []
halt_text cpu code (ch ∷ fmt) =
    (if ch == b'$'
      then hex cpu
      else if (ch == b'0') || (ch == b'4')
      then hex (code / 2 ^ (ch - b'0') % 16)
      else ch)
    ∷ halt_text cpu code fmt
