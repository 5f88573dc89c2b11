-- ===== src/Machine/Apic.antt =====
-- The interrupt controllers in abstract-machine/am/src/x86/qemu/ioe.c: the local APIC of a processor and
-- the I/O APIC, both mapped into the memory as registers of 32 bits.
mod Tests
pub mod Routing
use nju_os_workbench.Base.{
  ℕ, zero, suc, ◌+◌, ◌-◌, ◌*◌, ◌/◌, ◌%◌, ◌^◌, ◌≤◌, ◌<◌, min, ◌≡◌, ◌≢◌, refl, sym, ap, ap₂, ◌∙◌,
  subst, fun_ext, ◌≡⟨◌⟩◌, ◌∎, ◌↔◌, ◌⊎◌, inl, inr, Bool, true, false, not, ◌&&◌, ◌||◌, Option, none,
  some, List, [], ◌∷◌, ◌++◌, map, append-nil, append_assoc, arith, ltb, leb, ◌==◌, if◌then◌else◌,
  tests, Bool-cases, Option-cases, ==_iff, length, length-append, get_elem?, bit_or,
}
unfoldable use nju_os_workbench.Base.{dec_lt, dec_le, ℕ_discrete}
use nju_os_workbench.Base.Memory.{Mem, store}
use nju_os_workbench.Machine.Ports.{Ports}

-- Memory-mapped registers, by their index in an array of words: a parameter.
pub record Registers : Type 1 where
  pub State : Type 0
  pub load : State → ℕ → ℕ × State
  pub write : State → ℕ → ℕ → State

abbrev pub t_irq0 : ℕ
t_irq0 = 32

abbrev pub int_disabled : ℕ
int_disabled = 0x10000

abbrev pub reg_ver : ℕ
reg_ver = 1

abbrev pub reg_table : ℕ
reg_table = 0x10

abbrev pub lapic_ver : ℕ
lapic_ver = 0x30 / 4

abbrev pub lapic_id : ℕ
lapic_id = 0x20 / 4

abbrev pub eoi : ℕ
eoi = 0xb0 / 4

abbrev pub icrlo : ℕ
icrlo = 0x300 / 4

abbrev pub icrhi : ℕ
icrhi = 0x310 / 4

module _ (R : Registers) where
  open R use {State, load, write}

  -- The read that follows waits for the write.
  unfoldable pub lapicw : ℕ → ℕ → State → State
  lapicw index value s = (load (write s index value) lapic_id).1

  -- `while(__am_lapic[ICRLO] & DELIVS)`; `none` means that the fuel ran out.
  unfoldable pub await_delivery : ℕ → State → Option State
  await_delivery zero s = none
  await_delivery (suc fuel) s =
      let (v, s') = load s icrlo in
      let rest = await_delivery fuel s' in if v / 2 ^ 12 % 2 == 0 then some s' else rest

  unfoldable pub percpu_initlapic : ℕ → State → Option State
  percpu_initlapic fuel s =
      let s1 = lapicw (0xf0 / 4) (bit_or 0x100 (t_irq0 + 31)) s in
      let s2 = lapicw (0x3e0 / 4) 0xb s1 in
      let s3 = lapicw (0x320 / 4) (bit_or 0x20000 (t_irq0 + 0)) s2 in
      let s4 = lapicw (0x380 / 4) 10000000 s3 in
      let s5 = lapicw (0x350 / 4) 0x10000 s4 in
      let s6 = lapicw (0x360 / 4) 0x10000 s5 in
      let (version, s7) = load s6 lapic_ver in
      let s8 = if leb 4 (version / 2 ^ 16 % 2 ^ 8) then lapicw (0x340 / 4) 0x10000 s7 else s7 in
      let s9 = lapicw (0x370 / 4) (t_irq0 + 19) s8 in
      let s10 = lapicw (0x280 / 4) 0 (lapicw (0x280 / 4) 0 s9) in
      let s11 = lapicw icrhi 0 (lapicw eoi 0 s10) in
      let s12 = lapicw icrlo (bit_or 0x80000 (bit_or 0x500 0x8000)) s11 in
      elim (await_delivery fuel s12) [ none ↦ none | some s13 ↦ some (lapicw (0x80 / 4) 0 s13) ]

  -- `present` says that `__am_lapic` is not NULL.
  unfoldable pub lapic_eoi : (present : Bool) → State → State
  lapic_eoi present s = if present then lapicw eoi 0 s else s

  -- one of the two start-up messages
  unfoldable pub send_startup : (apicid addr : ℕ) → State → State
  send_startup apicid addr s =
      lapicw icrlo (bit_or 0x600 (addr / 2 ^ 12) % 2 ^ 32)
        (lapicw icrhi (apicid * 2 ^ 24 % 2 ^ 32) s)

  -- The warm reset vector at 0x467 is what processor `apicid` starts from.
  unfoldable pub lapic_bootap :
      (P : Ports) → (apicid addr : ℕ) → Mem → P.State → State → Mem × P.State × State
  lapic_bootap P apicid addr m ports s =
      let ports' = P.outb (P.outb ports 0x70 0xf) 0x71 0xa in
      let m' =
        store (store (store (store m 0x467 0) 0x468 0) 0x469 (addr / 2 ^ 4 % 2 ^ 8)) 0x46a
          (addr / 2 ^ 12 % 2 ^ 8) in
      let s1 = lapicw icrhi (apicid * 2 ^ 24 % 2 ^ 32) s in
      let s2 = lapicw icrlo (bit_or 0x500 (bit_or 0x8000 0x4000)) s1 in
      let s3 = lapicw icrlo (bit_or 0x500 0x8000) s2 in
      (m', ports', send_startup apicid addr (send_startup apicid addr s3))

  -- `reg` is word 0 and `data` word 4 of `struct IOAPIC`.
  unfoldable pub ioapicread : ℕ → State → ℕ × State
  ioapicread reg s = load (write s 0 reg) 4

  unfoldable pub ioapicwrite : (reg v : ℕ) → State → State
  ioapicwrite reg v s = write (write s 0 reg) 4 v

  unfoldable pub mask_loop : (rounds i : ℕ) → State → State
  mask_loop zero i s = s
  mask_loop (suc rounds) i s = mask_loop rounds (i + 1) (
      ioapicwrite (reg_table + 2 * i + 1) 0
        (ioapicwrite (reg_table + 2 * i) (bit_or int_disabled (t_irq0 + i)) s))

  unfoldable pub ioapic_init : State → State
  ioapic_init s =
      let (version, s') = ioapicread reg_ver s in mask_loop (version / 2 ^ 16 % 2 ^ 8 + 1) 0 s'

  unfoldable pub ioapic_enable : (irq cpunum : ℕ) → State → State
  ioapic_enable irq cpunum s =
      ioapicwrite (reg_table + 2 * irq + 1) (cpunum * 2 ^ 24 % 2 ^ 32)
        (ioapicwrite (reg_table + 2 * irq) (t_irq0 + irq) s)
