-- ===== src/Machine/Boot/Loading.antt =====
-- `load_program` of abstract-machine/am/src/x86/qemu/boot/main.c.
use nju_os_workbench.Machine.Boot.{copy_from_disk}
use nju_os_workbench.Base.{
  ℕ, zero, suc, ◌+◌, ◌-◌, ◌*◌, ◌/◌, ◌%◌, ◌^◌, ◌≤◌, ◌<◌, ◌≡◌, refl, ap, ◌∙◌, Bool, false, ◌&&◌, ◌||◌,
  some, arith, ltb, leb, if◌then◌else◌,
}
use nju_os_workbench.Base.Int.{pos}
use nju_os_workbench.Base.Memory.{Mem}
use nju_os_workbench.Machine.Ports.{Ports, Drive, IsDrive}
use nju_os_workbench.Machine.Disk.Blocks.{IsReady}
use nju_os_workbench.Machine.Disk.Spans.{from_disk}
use nju_os_workbench.Machine.Disk.Words.{disk_byte}
use nju_os_workbench.Machine.Boot.Copying.{copy_from_disk-copies, touched}
unfoldable use nju_os_workbench.Base.Memory.{store}
unfoldable use nju_os_workbench.Machine.Boot.{load_program, zero_bytes, first_sector}

pub zero_bytes_lem :
    (n p : ℕ) (m : Mem) (q : ℕ) → zero_bytes n p m q ≡ (if leb p q && ltb q (p + n) then 0 else m q)
unfolding zero_bytes store
zero_bytes_lem zero p m q = ground arith
zero_bytes_lem (suc n) p m q = zero_bytes_lem n (p + 1) (store m p 0) q ∙ ground arith

-- the memory that holds a segment whose file bytes start at byte `from` of the disk
pub record IsLoaded (word : ℕ → ℕ → ℕ) (filesz memsz paddr from : ℕ) (m : Mem) : Type 0 where
  pub from_file : (k : ℕ) → k < filesz → m (paddr + k) ≡ disk_byte word (from + k)
  pub bss : (k : ℕ) → filesz ≤ k → k < memsz → m (paddr + k) ≡ 0

-- the bytes that loading a segment may write
abbrev pub spans : (filesz memsz paddr q : ℕ) → Bool
spans filesz memsz paddr q =
    leb (paddr / 512 * 512) q
    && (ltb q (paddr / 512 * 512 + 512 * touched paddr filesz) || ltb q (paddr + memsz))

file_bytes :
    (word : ℕ → ℕ → ℕ) (m : Mem) (filesz paddr offset sect k : ℕ)
    → sect ≡ offset / 512 + 3
    → paddr % 512 ≡ offset % 512
    → k < filesz
    → from_disk word (paddr / 512 * 512) (512 * touched paddr filesz) (sect * 512) m (paddr + k)
      ≡ disk_byte word (1536 + offset + k)
file_bytes word m filesz paddr offset sect k e aligned lt =
    let place : sect * 512 + (paddr + k - paddr / 512 * 512) ≡ 1536 + offset + k = omega arith in
    rw place (ground arith)

outside :
    (word : ℕ → ℕ → ℕ) (m : Mem) (filesz memsz paddr from q : ℕ)
    → filesz ≤ memsz
    → spans filesz memsz paddr q ≡ false
    → (if leb (paddr + filesz) q && ltb q (paddr + filesz + (memsz - filesz))
        then 0
        else from_disk word (paddr / 512 * 512) (512 * touched paddr filesz) from m q)
      ≡ m q
outside word m filesz memsz paddr from q le out = ground arith

module _ (P : Ports) (drive : P.State → Drive) (patience : ℕ) (law : IsDrive P drive patience)
    (polls : ℕ) (patient : patience < polls) where
  load_program_runs :
      (filesz memsz paddr offset : ℕ) (m m' : Mem) (s s' : P.State)
      → filesz ≤ memsz
      → memsz < 2 ^ 32
      → copy_from_disk P polls paddr filesz (pos offset) m s ≡ some (m', s')
      → load_program P polls filesz memsz paddr offset m s
        ≡ some (zero_bytes (memsz - filesz) (paddr + filesz) m', s')
  unfolding load_program
  load_program_runs filesz memsz paddr offset m m' s s' le lt e =
      let rest : (memsz + 2 ^ 32 - filesz) % 2 ^ 32 ≡ memsz - filesz = omega arith in
      rw (e, load_program) (rw rest refl)

  -- Where file and memory agree modulo the size of a sector, a segment is loaded: the bytes of the
  -- file, which starts at sector 3 of the disk, stand at its address, zeros behind them, and nothing
  -- outside the sectors that the segment touches is changed.
  pub load_program-IsLoaded :
      (filesz memsz paddr offset : ℕ) (m : Mem) (s : P.State)
      → IsReady P drive patience s
      → filesz ≤ memsz
      → paddr + memsz + 512 < 2 ^ 32
      → offset + filesz < 2 ^ 31
      → paddr % 512 ≡ offset % 512
      → (m' : Mem) × (s' : P.State) × (load_program P polls filesz memsz paddr offset m s
          ≡ some (m', s'))
        × IsReady P drive patience s'
        × ((drive s').word ≡ (drive s).word)
        × IsLoaded (drive s).word filesz memsz paddr (1536 + offset) m'
        × ((q : ℕ) → spans filesz memsz paddr q ≡ false → m' q ≡ m q)
  unfolding first_sector
  load_program-IsLoaded filesz memsz paddr offset m s ready le fits small aligned =
      let sector : first_sector (pos offset) ≡ offset / 512 + 3 = omega arith in
      let (m1, s1, runs, ready1, same, copied) =
        copy_from_disk-copies P drive patience law polls patient paddr filesz (pos offset) m s ready
          (omega arith) (omega arith) in
      (
        zero_bytes (memsz - filesz) (paddr + filesz) m1,
        s1,
        load_program_runs filesz memsz paddr offset m m1 s s1 le (omega arith) runs,
        ready1,
        same,
        record {
          from_file = λ k lt.
              zero_bytes_lem (memsz - filesz) (paddr + filesz) m1 (paddr + k)
              ∙ ground arith
              ∙ copied (paddr + k)
              ∙ file_bytes (drive s).word m filesz paddr offset (first_sector (pos offset)) k sector
                  aligned lt;
          bss = λ k lo hi.
              zero_bytes_lem (memsz - filesz) (paddr + filesz) m1 (paddr + k) ∙ ground arith;
        },
        λ q out.
            zero_bytes_lem (memsz - filesz) (paddr + filesz) m1 q
            ∙ ap
                (λ (b : ℕ).
                  if leb (paddr + filesz) q && ltb q (paddr + filesz + (memsz - filesz))
                  then 0
                  else b)
                (copied q)
            ∙ outside (drive s).word m filesz memsz paddr (first_sector (pos offset) * 512) q le
                out,
      )
