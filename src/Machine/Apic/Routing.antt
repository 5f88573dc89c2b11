-- ===== src/Machine/Apic/Routing.antt =====
-- The redirection table that `__am_ioapic_init` and `__am_ioapic_enable` of
-- abstract-machine/am/src/x86/qemu/ioe.c set up.
use nju_os_workbench.Base.{
  ℕ, zero, suc, ◌+◌, ◌*◌, ◌/◌, ◌%◌, ◌^◌, ◌≤◌, ◌<◌, ◌≡◌, ◌≢◌, refl, ap, ◌∙◌, true, arith, ◌==◌,
  if◌then◌else◌, ==_iff, bit_or,
}
unfoldable use nju_os_workbench.Base.{dec_lt}
use nju_os_workbench.Base.Ranges.{all_below_sound}
unfoldable use nju_os_workbench.Base.Ranges.{all_below}
use nju_os_workbench.Machine.Apic.{Registers}
unfoldable use nju_os_workbench.Machine.Apic.{
  ioapicread, ioapicwrite, mask_loop, ioapic_init, ioapic_enable,
}

-- What the manual of the 82093AA says: word 0 selects the register that word 4 shows. A register of
-- the table keeps what is written (the bits that it does not keep are never set here); `entries` is
-- the number of the last entry, which the version register shows.
pub record IsIoapic (R : Registers) (entries : ℕ) : Type 0 where
  pub selected : R.State → ℕ
  pub register : R.State → ℕ → ℕ
  pub selects :
      (s : R.State) (reg : ℕ)
      → (selected (R.write s 0 reg) ≡ reg) × (register (R.write s 0 reg) ≡ register s)
  pub keeps :
      (s : R.State) (v reg : ℕ)
      → 0x10 ≤ selected s
      → register (R.write s 4 v) reg ≡ (if selected s == reg then v else register s reg)
  pub shows : (s : R.State) → register (R.load s 4).1 ≡ register s
  pub version : (s : R.State) → selected s ≡ 1 → (R.load s 4).0 / 2 ^ 16 % 2 ^ 8 ≡ entries

masked_table : all_below 256 (λ i. bit_or 0x10000 (32 + i) == 0x10020 + i) ≡ true
unfolding all_below
masked_table = refl

masked_sum : (i : ℕ) → i < 256 → bit_or 0x10000 (32 + i) ≡ 0x10020 + i
masked_sum i h = (==_iff _ _).0 (all_below_sound 256 _ i masked_table h)

module _ (R : Registers) (entries : ℕ) (law : IsIoapic R entries) where
  open law use {register, selects, keeps, shows, version}

  ioapicwrite_lem :
      (reg v : ℕ) (s : R.State) (reg' : ℕ)
      → 0x10 ≤ reg
      → register (ioapicwrite R reg v s) reg' ≡ (if reg == reg' then v else register s reg')
  unfolding ioapicwrite
  ioapicwrite_lem reg v s reg' le =
      let (chosen, same) = selects s reg in
      keeps (R.write s 0 reg) v reg' (rw chosen le) ∙ rw (chosen, same) refl

  -- one entry of the table
  pair :
      (i low high : ℕ) (s : R.State) (reg' : ℕ)
      → register (ioapicwrite R (0x10 + 2 * i + 1) high (ioapicwrite R (0x10 + 2 * i) low s)) reg'
        ≡ (if 0x10 + 2 * i + 1 == reg'
            then high
            else if 0x10 + 2 * i == reg'
            then low
            else register s reg')
  pair i low high s reg' =
      ioapicwrite_lem (0x10 + 2 * i + 1) high (ioapicwrite R (0x10 + 2 * i) low s) reg'
        (omega arith)
      ∙ ap (λ (v : ℕ). if 0x10 + 2 * i + 1 == reg' then high else v)
          (ioapicwrite_lem (0x10 + 2 * i) low s reg' (omega arith))

  mask_loop_lem :
      (rounds i : ℕ) (s : R.State)
      → i + rounds ≤ 256
      → ((k : ℕ)
          → i ≤ k
          → k < i + rounds
          → (register (mask_loop R rounds i s) (0x10 + 2 * k) ≡ 0x10020 + k)
            × (register (mask_loop R rounds i s) (0x10 + 2 * k + 1) ≡ 0))
        × ((reg : ℕ) → reg < 0x10 + 2 * i → register (mask_loop R rounds i s) reg ≡ register s reg)
  unfolding mask_loop
  mask_loop_lem zero i s le = (λ k lo hi. absurd (omega arith), λ reg lt. refl)
  mask_loop_lem (suc rounds) i s le =
      let s' =
        ioapicwrite R (0x10 + 2 * i + 1) 0
          (ioapicwrite R (0x10 + 2 * i) (bit_or 0x10000 (32 + i)) s) in
      let (masked, same) = mask_loop_lem rounds (i + 1) s' (omega arith) in
      (
        λ k lo hi. elim (dec_lt i k) [
          | yes later ↦ masked k (omega arith) (omega arith)
          | no now ↦
              let e : k ≡ i = omega arith in
              rw e (
                same (0x10 + 2 * i) (omega arith)
                    ∙ pair i (bit_or 0x10000 (32 + i)) 0 s (0x10 + 2 * i)
                    ∙ ground arith
                    ∙ masked_sum i (omega arith),
                same (0x10 + 2 * i + 1) (omega arith)
                    ∙ pair i (bit_or 0x10000 (32 + i)) 0 s (0x10 + 2 * i + 1)
                    ∙ ground arith,
              )
        ],
        λ reg lt. same reg (omega arith) ∙ pair i (bit_or 0x10000 (32 + i)) 0 s reg ∙ ground arith,
      )

  -- For an interrupt that the I/O APIC has: after the initialisation and `ioapic_enable`, this
  -- interrupt is unmasked, with its vector and the processor; every other interrupt is masked,
  -- with its vector in place.
  pub ioapic_enable-routes :
      (irq cpunum : ℕ) (s : R.State)
      → irq ≤ entries
      → entries < 256
      → let s' = ioapic_enable R irq cpunum (ioapic_init R s) in
        (register s' (0x10 + 2 * irq) ≡ 32 + irq)
        × (register s' (0x10 + 2 * irq + 1) ≡ cpunum * 2 ^ 24 % 2 ^ 32)
        × ((k : ℕ)
            → k ≤ entries
            → k ≢ irq
            → (register s' (0x10 + 2 * k) ≡ 0x10020 + k) × (register s' (0x10 + 2 * k + 1) ≡ 0))
  unfolding ioapic_init ioapic_enable ioapicread
  ioapic_enable-routes irq cpunum s le small =
      let s1 = R.write s 0 1 in
      let s2 = (R.load s1 4).1 in
      let rounds : (R.load s1 4).0 / 2 ^ 16 % 2 ^ 8 ≡ entries = version s1 (selects s 1).0 in
      let masked = (mask_loop_lem (entries + 1) 0 s2 (omega arith)).0 in
      rw rounds (
        pair irq (32 + irq) (cpunum * 2 ^ 24 % 2 ^ 32) (mask_loop R (entries + 1) 0 s2)
              (0x10 + 2 * irq)
            ∙ ground arith,
        pair irq (32 + irq) (cpunum * 2 ^ 24 % 2 ^ 32) (mask_loop R (entries + 1) 0 s2)
              (0x10 + 2 * irq + 1)
            ∙ ground arith,
        λ k lo ne. (
          pair irq (32 + irq) (cpunum * 2 ^ 24 % 2 ^ 32) (mask_loop R (entries + 1) 0 s2)
                (0x10 + 2 * k)
              ∙ ground arith
              ∙ (masked k (omega arith) (omega arith)).0,
          pair irq (32 + irq) (cpunum * 2 ^ 24 % 2 ^ 32) (mask_loop R (entries + 1) 0 s2)
                (0x10 + 2 * k + 1)
              ∙ ground arith
              ∙ (masked k (omega arith) (omega arith)).1,
        ),
      )
