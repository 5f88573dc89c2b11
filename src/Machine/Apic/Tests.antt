-- ===== src/Machine/Apic/Tests.antt =====
-- An I/O APIC of 24 entries.
use nju_os_workbench.Base.{
  ℕ, ◌+◌, ◌*◌, ◌%◌, ◌^◌, ◌≤◌, ◌≡◌, ◌≢◌, refl, arith, ◌==◌, if◌then◌else◌, ==_iff,
}
use nju_os_workbench.Machine.Apic.{Registers, ioapic_enable, ioapic_init}
use nju_os_workbench.Machine.Apic.Routing.{IsIoapic, ioapic_enable-routes}

record Chip : Type 0 where
  index : ℕ
  file : ℕ → ℕ

abbrev chip : Registers
chip = record {
  State = Chip;
  load = λ s i. (if s.index == 1 then 23 * 2 ^ 16 else s.file s.index, s);
  write = λ s i v.
      if i == 0
      then record s { index = v }
      else record s { file = λ reg. if s.index == reg then v else s.file reg };
}

chip-IsIoapic : IsIoapic chip 23
chip-IsIoapic = record {
  selected = λ s. s.index;
  register = λ s. s.file;
  selects = λ s reg. (refl, refl);
  keeps = λ s v reg le. refl;
  shows = λ s. refl;
  version = λ s e. rw ((==_iff s.index 1).1 e) refl;
}

abbrev blank : Chip
blank = record { index = 0; file = λ reg. 0 }

abbrev table : ℕ → ℕ
table = (ioapic_enable chip 4 2 (ioapic_init chip blank)).file

ioapic_enable-routes_example :
    (table (0x10 + 2 * 4) ≡ 32 + 4)
    × (table (0x10 + 2 * 4 + 1) ≡ 2 * 2 ^ 24 % 2 ^ 32)
    × ((k : ℕ)
        → k ≤ 23
        → k ≢ 4
        → (table (0x10 + 2 * k) ≡ 0x10020 + k) × (table (0x10 + 2 * k + 1) ≡ 0))
unfolding chip-IsIoapic ioapic_enable
ioapic_enable-routes_example =
    ioapic_enable-routes chip 23 chip-IsIoapic 4 2 blank (omega arith) (omega arith)
