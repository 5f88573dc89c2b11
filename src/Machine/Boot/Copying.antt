-- ===== src/Machine/Boot/Copying.antt =====
-- `copy_from_disk` of abstract-machine/am/src/x86/qemu/boot/main.c.
use nju_os_workbench.Machine.Boot.{first_sector}
use nju_os_workbench.Base.{
  ℕ, zero, suc, ◌+◌, ◌*◌, ◌/◌, ◌%◌, ◌^◌, ◌≤◌, ◌<◌, ◌≡◌, refl, ap, ◌∙◌, fun_ext, true, false, some,
  arith, ltb,
}
use nju_os_workbench.Base.Int.{ℤ}
use nju_os_workbench.Base.Memory.{Mem}
use nju_os_workbench.Machine.Ports.{Ports, Drive, IsDrive}
use nju_os_workbench.Machine.Disk.Blocks.{IsReady, one_block-reads}
use nju_os_workbench.Machine.Disk.Spans.{from_disk, split_blocks}
unfoldable use nju_os_workbench.Machine.Disk.{one_block}
unfoldable use nju_os_workbench.Machine.Boot.{read_disk, copy_loop, copy_from_disk}

-- the sectors that the bytes from `buf` on touch, if the disk holds them at the same place in a sector
abbrev pub touched : ℕ → ℕ → ℕ
touched buf n = (buf % 512 + n + 511) / 512

module _ (P : Ports) (drive : P.State → Drive) (patience : ℕ) (law : IsDrive P drive patience)
    (polls : ℕ) (patient : patience < polls) where
  read_disk-one_block :
      (buf sect : ℕ) (m : Mem) (s : P.State)
      → read_disk P polls buf sect m s ≡ one_block P polls false sect buf m s
  unfolding read_disk one_block
  read_disk-one_block buf sect m s = refl

  copy_loop_next :
      (rounds cur stop sect : ℕ) (m m' : Mem) (s s' : P.State)
      → cur < stop
      → cur + 512 < 2 ^ 32
      → sect < 2 ^ 28
      → one_block P polls false sect cur m s ≡ some (m', s')
      → copy_loop P polls (suc rounds) cur stop sect m s
        ≡ copy_loop P polls rounds (cur + 512) stop (sect + 1) m' s'
  unfolding copy_loop
  copy_loop_next rounds cur stop sect m m' s s' more fits small e =
      let go : ltb cur stop ≡ true = ground arith in
      let next : (cur + 512) % 2 ^ 32 ≡ cur + 512 = omega arith in
      let next' : (sect + 1) % 2 ^ 32 ≡ sect + 1 = omega arith in
      rw (go, copy_loop)
        (rw (read_disk-one_block cur sect m s ∙ e, copy_loop) (rw (next, next') refl))

  copy_loop_done :
      (rounds cur stop sect : ℕ) (m : Mem) (s : P.State)
      → stop ≤ cur
      → copy_loop P polls (suc rounds) cur stop sect m s ≡ some (m, s)
  unfolding copy_loop
  copy_loop_done rounds cur stop sect m s over =
      let end : ltb cur stop ≡ false = ground arith in rw (end, copy_loop) refl

  copy_loop-copies :
      (k rounds cur stop sect : ℕ) (m : Mem) (s : P.State)
      → k < rounds
      → IsReady P drive patience s
      → cur + 512 * k < 2 ^ 32
      → sect + k ≤ 2 ^ 28
      → stop ≤ cur + 512 * k
      → cur + 512 * k < stop + 512
      → (m' : Mem) × (s' : P.State) × (copy_loop P polls rounds cur stop sect m s ≡ some (m', s'))
        × IsReady P drive patience s'
        × ((drive s').word ≡ (drive s).word)
        × ((q : ℕ) → m' q ≡ from_disk (drive s).word cur (512 * k) (sect * 512) m q)
  copy_loop-copies k zero cur stop sect m s lt ready fits small over short = elim lt [ ]
  copy_loop-copies zero (suc rounds) cur stop sect m s lt ready fits small over short =
      (m, s, copy_loop_done rounds cur stop sect m s (omega arith), ready, refl, λ q. ground arith)
  copy_loop-copies (suc k) (suc rounds) cur stop sect m s lt ready fits small over short =
      let (m1, s1, runs1, ready1, same1, read1) =
        one_block-reads P drive patience law polls patient sect cur m s ready (omega arith) in
      let (m2, s2, runs2, ready2, same2, read2) =
        copy_loop-copies k rounds (cur + 512) stop (sect + 1) m1 s1 (omega arith) ready1
          (omega arith) (omega arith) (omega arith) (omega arith) in
      (
        m2,
        s2,
        copy_loop_next rounds cur stop sect m m1 s s1 (omega arith) (omega arith) (omega arith)
              runs1
            ∙ runs2,
        ready2,
        same2 ∙ same1,
        λ q.
            read2 q
            ∙ ap (λ (w : ℕ → ℕ → ℕ). from_disk w (cur + 512) (512 * k) ((sect + 1) * 512) m1 q)
                same1
            ∙ ap
                (λ (m' : Mem).
                  from_disk (drive s).word (cur + 512) (512 * k) ((sect + 1) * 512) m' q)
                (fun_ext read1)
            ∙ split_blocks (drive s).word cur k sect q m,
      )

  -- The copy returns; the whole sectors that the bytes touch are read, and no other byte is changed.
  pub copy_from_disk-copies :
      (buf n : ℕ) (disk_offset : ℤ) (m : Mem) (s : P.State)
      → IsReady P drive patience s
      → buf + n + 512 < 2 ^ 32
      → first_sector disk_offset + touched buf n ≤ 2 ^ 28
      → (m' : Mem) × (s' : P.State) × (copy_from_disk P polls buf n disk_offset m s ≡ some (m', s'))
        × IsReady P drive patience s'
        × ((drive s').word ≡ (drive s).word)
        × ((q : ℕ)
            → m' q
              ≡ from_disk
                  (drive s).word
                  (buf / 512 * 512)
                  (512 * touched buf n)
                  (first_sector disk_offset * 512)
                  m
                  q)
  unfolding copy_from_disk
  copy_from_disk-copies buf n disk_offset m s ready fits small =
      copy_loop-copies (touched buf n) (n / 512 + 3) (buf / 512 * 512) ((buf + n) % 2 ^ 32)
        (first_sector disk_offset) m s (omega arith) ready (omega arith) small (omega arith)
        (omega arith)
