-- ===== src/Machine/Boot.antt =====
-- The boot loader, abstract-machine/am/src/x86/qemu/boot/main.c: it reads the argument and the ELF header
-- from the disk, loads the segments and jumps to the entry.
mod Tests
pub mod Copying
pub mod Loading
pub mod Segments
use nju_os_workbench.Base.{
  ℕ, zero, suc, ◌+◌, ◌-◌, ◌*◌, ◌/◌, ◌%◌, ◌^◌, ◌≤◌, ◌<◌, min, ◌≡◌, ◌≢◌, refl, sym, ap, ap₂, ◌∙◌,
  subst, fun_ext, ◌≡⟨◌⟩◌, ◌∎, ◌↔◌, ◌⊎◌, inl, inr, Bool, true, false, not, ◌&&◌, ◌||◌, Option, none,
  some, List, [], ◌∷◌, ◌++◌, map, append-nil, append_assoc, arith, ltb, leb, ◌==◌, if◌then◌else◌,
  tests, Bool-cases, Option-cases, ==_iff, length, length-append, get_elem?,
}
unfoldable use nju_os_workbench.Base.{dec_lt, dec_le, ℕ_discrete}
use nju_os_workbench.Base.Int.{ℤ, pos, negsuc}
use nju_os_workbench.Base.Memory.{Mem, store}
use nju_os_workbench.Machine.Ports.{Ports}
use nju_os_workbench.Machine.Disk.{wait_disk, command, read_words}

abbrev pub sectsize : ℕ
sectsize = 512

abbrev pub argsize : ℕ
argsize = 1024

abbrev pub mainarg_addr : ℕ
mainarg_addr = 0x10000

-- Where elf.h, which is not part of the repository, puts the fields of a header and of a program
-- header in memory, for one of the two widths.
pub record ElfLayout : Type 0 where
  pub e_entry : Mem → ℕ → ℕ
  pub e_phoff : Mem → ℕ → ℕ
  pub e_phnum : Mem → ℕ → ℕ
  pub phdr_size : ℕ
  pub p_filesz : Mem → ℕ → ℕ
  pub p_memsz : Mem → ℕ → ℕ
  pub p_paddr : Mem → ℕ → ℕ
  pub p_offset : Mem → ℕ → ℕ

-- `(disk_offset / SECTSIZE) + (ARGSIZE / SECTSIZE) + 1` in uint32_t; the division is that of int.
unfoldable pub first_sector : ℤ → ℕ
first_sector (pos n) = (n / sectsize + argsize / sectsize + 1) % 2 ^ 32
first_sector (negsuc n) = (2 ^ 32 + argsize / sectsize + 1 - suc n / sectsize) % 2 ^ 32

-- `*bss++ = 0`
unfoldable pub zero_bytes : ℕ → ℕ → Mem → Mem
zero_bytes zero p m = m
zero_bytes (suc n) p m = zero_bytes n (p + 1) (store m p 0)

-- `polls` bounds the rounds of `wait_disk`.
module _ (P : Ports) (polls : ℕ) where
  open P use {State}

  unfoldable pub read_disk : ℕ → ℕ → Mem → State → Option (Mem × State)
  read_disk buf sect m s = elim (wait_disk P polls s) [
    | none ↦ none
    | some s1 ↦ elim (wait_disk P polls (command P sect 0x20 s1)) [
      | none ↦ none
      | some s2 ↦ some (read_words P (sectsize / 4) buf m s2)
    ]
  ]

  unfoldable pub copy_loop : (rounds cur stop sect : ℕ) → Mem → State → Option (Mem × State)
  copy_loop zero cur stop sect m s = none
  copy_loop (suc rounds) cur stop sect m s = elim (ltb cur stop) [
    | false ↦ some (m, s)
    | true ↦ elim (read_disk cur sect m s) [
      | none ↦ none
      | some (m', s') ↦
          copy_loop rounds ((cur + sectsize) % 2 ^ 32) stop ((sect + 1) % 2 ^ 32) m' s'
    ]
  ]

  -- A round for each sector that the bytes touch, and one for the last test.
  unfoldable pub copy_from_disk : (buf nbytes : ℕ) → ℤ → Mem → State → Option (Mem × State)
  copy_from_disk buf nbytes disk_offset m s =
      copy_loop (nbytes / sectsize + 3) (buf / sectsize * sectsize) ((buf + nbytes) % 2 ^ 32)
        (first_sector disk_offset) m s

  unfoldable pub load_program : (filesz memsz paddr offset : ℕ) → Mem → State → Option (Mem × State)
  load_program filesz memsz paddr offset m s = elim (copy_from_disk paddr filesz (pos offset) m s) [
    | none ↦ none
    | some (m', s') ↦ some (zero_bytes ((memsz + 2 ^ 32 - filesz) % 2 ^ 32) (paddr + filesz) m', s')
  ]

  -- The loop of `load_elf64` and of `load_elf32`, over the headers as the memory holds them when they
  -- are read.
  unfoldable pub load_loop :
      (rounds : ℕ) → ElfLayout → (elf i ph : ℕ) → Mem → State → Option (Mem × State)
  load_loop zero layout elf i ph m s = none
  load_loop (suc rounds) layout elf i ph m s = elim (ltb i (layout.e_phnum m elf)) [
    | false ↦ some (m, s)
    | true ↦
        elim (load_program (layout.p_filesz m ph % 2 ^ 32) (layout.p_memsz m ph % 2 ^ 32)
          (layout.p_paddr m ph % 2 ^ 32) (layout.p_offset m ph % 2 ^ 32) m s) [
            | none ↦ none
            | some (m', s') ↦ load_loop rounds layout elf (i + 1) (ph + layout.phdr_size) m' s'
          ]
  ]

  unfoldable pub load_elf : (rounds : ℕ) → ElfLayout → ℕ → Mem → State → Option (Mem × State)
  load_elf rounds layout elf m s = load_loop rounds layout elf 0 (elf + layout.e_phoff m elf) m s

  -- The address that the loader jumps to; `e_machine` reads the field, which is at the same place in
  -- the headers of both widths.
  unfoldable pub load_kernel :
      (rounds : ℕ)
      → (e_machine : Mem → ℕ) → (em_x86_64 : ℕ) → (elf64 elf32 : ElfLayout) → (is_ap : Bool) → Mem
      → State
      → Option (ℕ × Mem × State)
  load_kernel rounds e_machine em_x86_64 elf64 elf32 is_ap m s =
      let loaded =
        if is_ap then some (m, s) else elim (copy_from_disk mainarg_addr 1024 (negsuc 1023) m s) [
          | none ↦ none
          | some (m1, s1) ↦ elim (copy_from_disk 0x8000 4096 (pos 0) m1 s1) [
            | none ↦ none
            | some (m2, s2) ↦
                load_elf rounds (if e_machine m2 == em_x86_64 then elf64 else elf32) 0x8000 m2 s2
          ]
        ] in
      elim loaded [
        | none ↦ none
        | some (m3, s3) ↦ some (
          (if e_machine m3 == em_x86_64 then elf64.e_entry m3 0x8000 else elf32.e_entry m3 0x8000)
              % 2 ^ 32,
          m3,
          s3,
        )
      ]
