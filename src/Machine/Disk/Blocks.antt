-- ===== src/Machine/Disk/Blocks.antt =====
-- `disk_blkio` of abstract-machine/am/src/x86/qemu/ioe.c against the drive.
use nju_os_workbench.Machine.Disk.Spans.{
  from_disk, to_disk, in_block, one_taken, split_blocks, split_taken,
}
use nju_os_workbench.Base.{
  ℕ, zero, suc, ◌+◌, ◌*◌, ◌%◌, ◌^◌, ◌≤◌, ◌<◌, ◌≡◌, refl, ap, ◌∙◌, fun_ext, Bool, true, false, some,
  arith, if◌then◌else◌,
}
use nju_os_workbench.Base.Memory.{Mem}
use nju_os_workbench.Machine.Ports.{Ports, Drive, IsDrive, waiting, giving, taking}
use nju_os_workbench.Machine.Disk.{read_words, write_words, command, wait_disk}
use nju_os_workbench.Machine.Disk.Waiting.{wait_disk-ends, command-reads, command-writes}
use nju_os_workbench.Machine.Disk.Words.{read_words-copies, write_words-stores}
unfoldable use nju_os_workbench.Machine.Disk.{one_block, disk_blkio}

-- between commands
module _ (P : Ports) (drive : P.State → Drive) (patience : ℕ) where
  abbrev pub IsReady : P.State → Type 0
  IsReady s = ((drive s).phase ≡ waiting) × ((drive s).busy ≤ patience)

module _ (P : Ports) (drive : P.State → Drive) (patience : ℕ) (law : IsDrive P drive patience)
    (fuel : ℕ) (patient : patience < fuel) where
  waited :
      (is_write : Bool) (b ptr : ℕ) (m : Mem) (s s1 s2 : P.State)
      → wait_disk P fuel s ≡ some s1
      → wait_disk P fuel (command P b (if is_write then 0x30 else 0x20) s1) ≡ some s2
      → one_block P fuel is_write b ptr m s ≡ (
          if is_write
          then some (m, write_words P 128 ptr m s2)
          else some (read_words P 128 ptr m s2))
  unfolding one_block
  waited is_write b ptr m s s1 s2 e1 e2 = rw (e1, one_block) (rw (e2, one_block) refl)

  blkio_next :
      (is_write : Bool) (ptr b remain : ℕ) (m m' : Mem) (s s' : P.State)
      → b < 2 ^ 28
      → one_block P fuel is_write b ptr m s ≡ some (m', s')
      → disk_blkio P fuel is_write ptr b (suc remain) m s
        ≡ disk_blkio P fuel is_write (ptr + 512) (b + 1) remain m' s'
  unfolding disk_blkio
  blkio_next is_write ptr b remain m m' s s' lt e =
      let next : (b + 1) % 2 ^ 32 ≡ b + 1 = omega arith in rw (e, disk_blkio) (rw next refl)

  -- Both waits end, and the drive is at the first word of the block.
  sent :
      (is_write : Bool) (b ptr : ℕ) (m : Mem) (s : P.State)
      → IsReady P drive patience s
      → b < 2 ^ 28
      → (s2 : P.State) × (one_block P fuel is_write b ptr m s ≡ (
          if is_write
          then some (m, write_words P 128 ptr m s2)
          else some (read_words P 128 ptr m s2)))
        × ((drive s2).phase ≡ (if is_write then taking b 0 else giving b 0))
        × ((drive s2).busy ≡ 0)
        × ((drive s2).word ≡ (drive s).word)
  sent true b ptr m s ready small =
      let (s1, ends1, now1) = wait_disk-ends P drive patience law fuel s (omega arith) in
      let (n, le, now2) =
        command-writes P drive patience law b s1
          (ap (λ (d : Drive). d.phase) now1 ∙ ready.0, ap (λ (d : Drive). d.busy) now1) small in
      let (s2, ends2, now3) =
        wait_disk-ends P drive patience law fuel (command P b 0x30 s1) (rw now2 (omega arith)) in
      (
        s2,
        waited true b ptr m s s1 s2 ends1 ends2,
        ap (λ (d : Drive). d.phase) now3 ∙ ap (λ (d : Drive). d.phase) now2,
        ap (λ (d : Drive). d.busy) now3,
        ap (λ (d : Drive). d.word) now3
            ∙ ap (λ (d : Drive). d.word) now2
            ∙ ap (λ (d : Drive). d.word) now1,
      )
  sent false b ptr m s ready small =
      let (s1, ends1, now1) = wait_disk-ends P drive patience law fuel s (omega arith) in
      let (n, le, now2) =
        command-reads P drive patience law b s1
          (ap (λ (d : Drive). d.phase) now1 ∙ ready.0, ap (λ (d : Drive). d.busy) now1) small in
      let (s2, ends2, now3) =
        wait_disk-ends P drive patience law fuel (command P b 0x20 s1) (rw now2 (omega arith)) in
      (
        s2,
        waited false b ptr m s s1 s2 ends1 ends2,
        ap (λ (d : Drive). d.phase) now3 ∙ ap (λ (d : Drive). d.phase) now2,
        ap (λ (d : Drive). d.busy) now3,
        ap (λ (d : Drive). d.word) now3
            ∙ ap (λ (d : Drive). d.word) now2
            ∙ ap (λ (d : Drive). d.word) now1,
      )

  pub one_block-reads :
      (b ptr : ℕ) (m : Mem) (s : P.State)
      → IsReady P drive patience s
      → b < 2 ^ 28
      → (m' : Mem) × (s' : P.State) × (one_block P fuel false b ptr m s ≡ some (m', s'))
        × IsReady P drive patience s'
        × ((drive s').word ≡ (drive s).word)
        × ((q : ℕ) → m' q ≡ from_disk (drive s).word ptr 512 (b * 512) m q)
  one_block-reads b ptr m s ready small =
      let (s2, runs, phase, idle, same) = sent false b ptr m s ready small in
      let (done, free, same', copied) =
        read_words-copies P drive patience law 128 0 b ptr m s2 refl idle phase in
      (
        (read_words P 128 ptr m s2).0,
        (read_words P 128 ptr m s2).1,
        runs,
        (done, rw free (omega arith)),
        same' ∙ same,
        λ q.
            copied q
            ∙ in_block (drive s2).word b ptr q m
            ∙ ap (λ (w : ℕ → ℕ → ℕ). from_disk w ptr 512 (b * 512) m q) same,
      )

  one_block-writes :
      (b ptr : ℕ) (m : Mem) (s : P.State)
      → IsReady P drive patience s
      → b < 2 ^ 28
      → (s' : P.State) × (one_block P fuel true b ptr m s ≡ some (m, s'))
        × IsReady P drive patience s'
        × ((b' i' : ℕ) → (drive s').word b' i' ≡ to_disk (drive s).word b 1 ptr m b' i')
  one_block-writes b ptr m s ready small =
      let (s2, runs, phase, idle, same) = sent true b ptr m s ready small in
      let (done, free, stored) =
        write_words-stores P drive patience law 128 0 b ptr m s2 refl (omega arith) idle phase in
      (
        write_words P 128 ptr m s2,
        runs,
        (done, free),
        λ b' i'.
            stored b' i'
            ∙ one_taken (drive s2).word b ptr b' i' m
            ∙ ap (λ (w : ℕ → ℕ → ℕ). to_disk w b 1 ptr m b' i') same,
      )

  -- Reading `remain` blocks returns, the bytes of those blocks stand at the buffer, and neither the
  -- rest of the memory nor the disk is changed.
  pub disk_blkio-reads :
      (remain ptr b : ℕ) (m : Mem) (s : P.State)
      → IsReady P drive patience s
      → b + remain ≤ 2 ^ 28
      → (m' : Mem) × (s' : P.State) × (disk_blkio P fuel false ptr b remain m s ≡ some (m', s'))
        × IsReady P drive patience s'
        × ((drive s').word ≡ (drive s).word)
        × ((q : ℕ) → m' q ≡ from_disk (drive s).word ptr (512 * remain) (b * 512) m q)
  unfolding disk_blkio
  disk_blkio-reads zero ptr b m s ready small = (m, s, refl, ready, refl, λ q. ground arith)
  disk_blkio-reads (suc remain) ptr b m s ready small =
      let (m1, s1, runs1, ready1, same1, read1) = one_block-reads b ptr m s ready (omega arith) in
      let (m2, s2, runs2, ready2, same2, read2) =
        disk_blkio-reads remain (ptr + 512) (b + 1) m1 s1 ready1 (omega arith) in
      (
        m2,
        s2,
        blkio_next false ptr b remain m m1 s s1 (omega arith) runs1 ∙ runs2,
        ready2,
        same2 ∙ same1,
        λ q.
            read2 q
            ∙ ap (λ (w : ℕ → ℕ → ℕ). from_disk w (ptr + 512) (512 * remain) ((b + 1) * 512) m1 q)
                same1
            ∙ ap
                (λ (m' : Mem).
                  from_disk (drive s).word (ptr + 512) (512 * remain) ((b + 1) * 512) m' q)
                (fun_ext read1)
            ∙ split_blocks (drive s).word ptr remain b q m,
      )

  pub disk_blkio-writes :
      (remain ptr b : ℕ) (m : Mem) (s : P.State)
      → IsReady P drive patience s
      → b + remain ≤ 2 ^ 28
      → (s' : P.State) × (disk_blkio P fuel true ptr b remain m s ≡ some (m, s'))
        × IsReady P drive patience s'
        × ((b' i' : ℕ) → (drive s').word b' i' ≡ to_disk (drive s).word b remain ptr m b' i')
  unfolding disk_blkio
  disk_blkio-writes zero ptr b m s ready small = (s, refl, ready, λ b' i'. ground arith)
  disk_blkio-writes (suc remain) ptr b m s ready small =
      let (s1, runs1, ready1, wrote1) = one_block-writes b ptr m s ready (omega arith) in
      let (s2, runs2, ready2, wrote2) =
        disk_blkio-writes remain (ptr + 512) (b + 1) m s1 ready1 (omega arith) in
      (
        s2,
        blkio_next true ptr b remain m m s s1 (omega arith) runs1 ∙ runs2,
        ready2,
        λ b' i'.
            wrote2 b' i'
            ∙ ap (λ (w : ℕ → ℕ → ℕ). to_disk w (b + 1) remain (ptr + 512) m b' i')
                (fun_ext (λ b''. fun_ext (wrote1 b'')))
            ∙ split_taken (drive s).word ptr remain b b' i' m,
      )
