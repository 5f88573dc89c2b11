-- ===== src/Machine/Boot/Tests.antt =====
-- A file with two segments and a layout like that of 32 bits; the first has 100 bytes in the file and 200 in
-- memory.
use nju_os_workbench.Base.{
  ℕ, ◌+◌, ◌<◌, ◌≡◌, refl, subst, some, List, [], ◌∷◌, arith, ◌==◌, if◌then◌else◌,
}
use nju_os_workbench.Base.Memory.{Mem}
unfoldable use nju_os_workbench.Machine.Disk.{load32}
use nju_os_workbench.Machine.Ports.{Drive}
use nju_os_workbench.Machine.Ports.Ata.{ata, ata-IsDrive, numbered}
use nju_os_workbench.Machine.Boot.{ElfLayout, load_elf}
use nju_os_workbench.Machine.Boot.Segments.{
  Segment, IsLocal, Outside, AllLoaded, load_elf-AllLoaded,
}

abbrev layout : ElfLayout
layout = record {
  e_entry = λ m elf. load32 m (elf + 24);
  e_phoff = λ m elf. load32 m (elf + 28);
  e_phnum = λ m elf. m (elf + 44);
  phdr_size = 32;
  p_filesz = λ m ph. load32 m (ph + 16);
  p_memsz = λ m ph. load32 m (ph + 20);
  p_paddr = λ m ph. load32 m (ph + 12);
  p_offset = λ m ph. load32 m (ph + 4);
}

load32-same :
    (m m' : Mem) (p : ℕ) → ((j : ℕ) → j < 4 → m (p + j) ≡ m' (p + j)) → load32 m p ≡ load32 m' p
unfolding load32
load32-same m m' p h =
    let start : p + 0 ≡ p = omega arith in
    let first : m p ≡ m' p = subst (λ (q : ℕ). m q ≡ m' q) start (h 0 (omega arith)) in
    omega (arith, first, h 1 (omega arith), h 2 (omega arith), h 3 (omega arith))

layout-IsLocal : IsLocal layout 0x8000
layout-IsLocal = record {
  phnum_local = λ m m' same. same (0x8000 + 44) (omega arith) (omega arith);
  phdr_local = λ m m' ph same lo hi. (
    load32-same m m' (ph + 16) (λ j lt. same (ph + 16 + j) (omega arith) (omega arith)),
    load32-same m m' (ph + 20) (λ j lt. same (ph + 20 + j) (omega arith) (omega arith)),
    load32-same m m' (ph + 12) (λ j lt. same (ph + 12 + j) (omega arith) (omega arith)),
    load32-same m m' (ph + 4) (λ j lt. same (ph + 4 + j) (omega arith) (omega arith)),
  );
}

abbrev header : List (ℕ × ℕ)
header =
    (0x801c, 52)
    ∷ (0x802c, 2)
    ∷ (0x8039, 2)
    ∷ (0x8041, 0x90)
    ∷ (0x8044, 100)
    ∷ (0x8048, 200)
    ∷ (0x8059, 4)
    ∷ (0x8061, 0x92)
    ∷ (0x8065, 2)
    ∷ (0x8069, 2)
    ∷ []

abbrev bytes : List (ℕ × ℕ) → Mem
bytes [] q = 0
bytes ((p, v) ∷ rest) q = if p == q then v else bytes rest q

abbrev first : Segment
first = record { filesz = 100; memsz = 200; paddr = 0x9000; offset = 512 }

abbrev second : Segment
second = record { filesz = 512; memsz = 512; paddr = 0x9200; offset = 1024 }

load_elf-AllLoaded_example :
    (m' : Mem) × (s' : Drive) × (load_elf ata 2 3 layout 0x8000 (bytes header) numbered
      ≡ some (m', s'))
    × AllLoaded numbered.word m' (first ∷ second ∷ [])
    × ((q : ℕ) → Outside (first ∷ second ∷ []) q → m' q ≡ bytes header q)
unfolding load32
load_elf-AllLoaded_example =
    load_elf-AllLoaded layout 0x8000 layout-IsLocal ata (λ d. d) 1 ata-IsDrive 2 (omega arith)
      (first ∷ second ∷ []) 3 (bytes header) numbered (omega arith) refl
      ((refl, refl, refl, refl, (refl, refl, refl, refl, tt))) (omega arith) (refl, omega arith)
      ((
        omega arith,
        omega arith,
        omega arith,
        refl,
        (omega arith, omega arith, omega arith, refl, tt),
      ))
      (λ q lo hi. (ground arith, (ground arith, tt)))
      ((λ k lt. (ground arith, tt), (λ k lt. tt, tt)))
