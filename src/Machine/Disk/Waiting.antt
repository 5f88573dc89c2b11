-- ===== src/Machine/Disk/Waiting.antt =====
-- The polls and commands of the disk in abstract-machine/am/src/x86/qemu/ioe.c, as the drive sees them.
use nju_os_workbench.Base.Ranges.{all_below_sound}
unfoldable use nju_os_workbench.Base.Ranges.{all_below}
use nju_os_workbench.Base.{
  ℕ, zero, suc, ◌+◌, ◌/◌, ◌%◌, ◌^◌, ◌≤◌, ◌<◌, ◌≡◌, refl, sym, ap, ◌∙◌, subst, inl, inr, true, some,
  arith, ◌==◌, Bool-cases, ==_iff, bit_or,
}
use nju_os_workbench.Machine.Ports.{
  Ports, Drive, IsDrive, IsIdle, IsAddressed, lba, set_register, giving, taking,
}
unfoldable use nju_os_workbench.Machine.Disk.{wait_disk, command}

device_table : all_below 16 (λ x. bit_or x 0xe0 == x + 224) ≡ true
unfolding all_below
device_table = refl

device_sum : (x : ℕ) → x < 16 → bit_or x 0xe0 ≡ x + 224
device_sum x h = (==_iff _ _).0 (all_below_sound 16 _ x device_table h)

-- the drive after the registers are written
abbrev pub addressed : ℕ → Drive → Drive
addressed blkno d = record d {
  count = 1;
  lba0 = blkno % 2 ^ 8;
  lba1 = blkno / 2 ^ 8 % 2 ^ 8;
  lba2 = blkno / 2 ^ 16 % 2 ^ 8;
  device = bit_or (blkno / 2 ^ 24) 0xe0 % 2 ^ 8;
}

addressed-lba : (blkno : ℕ) (d : Drive) → blkno < 2 ^ 28 → lba (addressed blkno d) ≡ blkno
addressed-lba blkno d h = omega (arith, device_sum (blkno / 2 ^ 24) (omega arith))

addressed-IsAddressed : (blkno : ℕ) (d : Drive) → blkno < 2 ^ 28 → IsAddressed (addressed blkno d)
addressed-IsAddressed blkno d h = (refl, omega (arith, device_sum (blkno / 2 ^ 24) (omega arith)))

module _ (P : Ports) (drive : P.State → Drive) (patience : ℕ) (law : IsDrive P drive patience) where
  -- With a round for each time that the status is busy, the loop ends, and the drive is ready.
  pub wait_disk-ends :
      (fuel : ℕ) (s : P.State)
      → (drive s).busy < fuel
      → (s' : P.State) × (wait_disk P fuel s ≡ some s') × (drive s' ≡ record (drive s) { busy = 0 })
  unfolding wait_disk
  wait_disk-ends zero s h = elim h [ ]
  wait_disk-ends (suc fuel) s h = elim (Bool-cases ((drive s).busy == 0)) [
    | inl e ↦
        let idle : (drive s).busy ≡ 0 = (==_iff _ _).0 e in
        let (status, same) = law.ready s idle in
        (
          (P.inb s 0x1f7).1,
          rw ((==_iff _ _).1 status),
          same ∙ ap {B = Drive} (λ (n : ℕ). record (drive s) { busy = n }) idle,
        )
    | inr e ↦
        let more : 0 < (drive s).busy = ground arith in
        let (status, next) = law.not_ready s more in
        let (s', ends, after) = wait_disk-ends fuel (P.inb s 0x1f7).1 (rw next (omega arith)) in
        (s', ground arith, after ∙ ap {B = Drive} (λ (d : Drive). record d { busy = 0 }) next)
  ]

  step :
      (s : P.State) (d : Drive) (port v : ℕ)
      → IsIdle d
      → drive s ≡ d
      → 0x1f2 ≤ port
      → port ≤ 0x1f6
      → drive (P.outb s port v) ≡ set_register port v d
  step s d port v idle e lo hi =
      law.registers s port v (subst IsIdle (sym e) idle) lo hi ∙ ap (set_register port v) e

  module _ (blkno : ℕ) (s : P.State) (idle : IsIdle (drive s)) (small : blkno < 2 ^ 28) where
    registers_set :
        (s5 : P.State) × (drive s5 ≡ addressed blkno (drive s))
        × ((cmd : ℕ) → command P blkno cmd s ≡ P.outb s5 0x1f7 cmd)
    unfolding command
    registers_set =
        let d = drive s in
        let e1 = step s d 0x1f2 1 idle refl (omega arith) (omega arith) in
        let e2 =
          step _ (record d { count = 1 }) 0x1f3 (blkno % 2 ^ 8) idle e1 (omega arith)
            (omega arith) in
        let e3 =
          step _ (record d { count = 1; lba0 = blkno % 2 ^ 8 }) 0x1f4 (blkno / 2 ^ 8 % 2 ^ 8) idle
            e2 (omega arith) (omega arith) in
        let e4 =
          step _ (record d { count = 1; lba0 = blkno % 2 ^ 8; lba1 = blkno / 2 ^ 8 % 2 ^ 8 }) 0x1f5
            (blkno / 2 ^ 16 % 2 ^ 8) idle e3 (omega arith) (omega arith) in
        let e5 =
          step _
            (record d {
              count = 1;
              lba0 = blkno % 2 ^ 8;
              lba1 = blkno / 2 ^ 8 % 2 ^ 8;
              lba2 = blkno / 2 ^ 16 % 2 ^ 8;
            })
            0x1f6 (bit_or (blkno / 2 ^ 24) 0xe0 % 2 ^ 8) idle e4 (omega arith) (omega arith) in
        (_, e5, λ cmd. refl)

    -- The command names the block, and the drive goes over to its transfer.
    pub command-reads :
        (n : ℕ) × (n ≤ patience)
        × (drive (command P blkno 0x20 s)
            ≡ record (addressed blkno (drive s)) { phase = giving blkno 0; busy = n })
    command-reads =
        let (s5, e, out) = registers_set in
        let law5 =
          law.read_command s5 (subst IsIdle (sym e) idle)
            (subst IsAddressed (sym e) (addressed-IsAddressed blkno (drive s) small)) in
        (
          law.delay s5,
          law.delay-le s5,
          ap drive (out 0x20)
              ∙ law5
              ∙ ap {B = Drive}
                  (λ (d : Drive). record d { phase = giving (lba d) 0; busy = law.delay s5 }) e
              ∙ ap {B = Drive}
                  (λ (b : ℕ). record (addressed blkno (drive s)) {
                    phase = giving b 0;
                    busy = law.delay s5;
                  })
                  (addressed-lba blkno (drive s) small),
        )

    pub command-writes :
        (n : ℕ) × (n ≤ patience)
        × (drive (command P blkno 0x30 s)
            ≡ record (addressed blkno (drive s)) { phase = taking blkno 0; busy = n })
    command-writes =
        let (s5, e, out) = registers_set in
        let law5 =
          law.write_command s5 (subst IsIdle (sym e) idle)
            (subst IsAddressed (sym e) (addressed-IsAddressed blkno (drive s) small)) in
        (
          law.delay s5,
          law.delay-le s5,
          ap drive (out 0x30)
              ∙ law5
              ∙ ap {B = Drive}
                  (λ (d : Drive). record d { phase = taking (lba d) 0; busy = law.delay s5 }) e
              ∙ ap {B = Drive}
                  (λ (b : ℕ). record (addressed blkno (drive s)) {
                    phase = taking b 0;
                    busy = law.delay s5;
                  })
                  (addressed-lba blkno (drive s) small),
        )
