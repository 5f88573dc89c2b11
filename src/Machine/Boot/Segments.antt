-- ===== src/Machine/Boot/Segments.antt =====
-- `load_elf64` and `load_elf32` of abstract-machine/am/src/x86/qemu/boot/main.c: all segments of a file.
use nju_os_workbench.Base.{
  ℕ, zero, suc, ◌+◌, ◌%◌, ◌^◌, ◌≤◌, ◌<◌, ◌≡◌, refl, sym, ◌∙◌, subst, true, false, some, List, [],
  ◌∷◌, arith, ltb, length,
}
use nju_os_workbench.Base.Memory.{Mem}
use nju_os_workbench.Machine.Ports.{Ports, Drive, IsDrive}
use nju_os_workbench.Machine.Disk.Blocks.{IsReady}
use nju_os_workbench.Machine.Boot.{ElfLayout, load_program}
use nju_os_workbench.Machine.Boot.Loading.{IsLoaded, spans, load_program-IsLoaded}
unfoldable use nju_os_workbench.Machine.Boot.{load_loop, load_elf}

pub record Segment : Type 0 where
  pub filesz : ℕ
  pub memsz : ℕ
  pub paddr : ℕ
  pub offset : ℕ

-- Two memories hold the same 4096 bytes at `elf`, which is what the loader reads of the file first.
abbrev pub SameHeader : ℕ → Mem → Mem → Type 0
SameHeader elf m m' = (q : ℕ) → elf ≤ q → q < elf + 4096 → m q ≡ m' q

-- The fields of a header in these bytes, and those of a program header in them, are read from them.
pub record IsLocal (layout : ElfLayout) (elf : ℕ) : Type 0 where
  pub phnum_local :
      (m m' : Mem) → SameHeader elf m m' → layout.e_phnum m elf ≡ layout.e_phnum m' elf
  pub phdr_local :
      (m m' : Mem) (ph : ℕ)
      → SameHeader elf m m'
      → elf ≤ ph
      → ph + layout.phdr_size ≤ elf + 4096
      → (layout.p_filesz m ph ≡ layout.p_filesz m' ph)
        × (layout.p_memsz m ph ≡ layout.p_memsz m' ph)
        × (layout.p_paddr m ph ≡ layout.p_paddr m' ph)
        × (layout.p_offset m ph ≡ layout.p_offset m' ph)

-- the program headers from `ph` on
abbrev pub Headers : ElfLayout → Mem → ℕ → List Segment → Type 0
Headers layout m ph [] = Unit
Headers layout m ph (x ∷ xs) =
    (layout.p_filesz m ph % 2 ^ 32 ≡ x.filesz)
    × (layout.p_memsz m ph % 2 ^ 32 ≡ x.memsz)
    × (layout.p_paddr m ph % 2 ^ 32 ≡ x.paddr)
    × (layout.p_offset m ph % 2 ^ 32 ≡ x.offset)
    × Headers layout m (ph + layout.phdr_size) xs

abbrev pub total : ElfLayout → List Segment → ℕ
total layout [] = 0
total layout (x ∷ xs) = layout.phdr_size + total layout xs

-- Memory and file agree modulo the size of a sector, and nothing runs over 32 bits.
abbrev pub AllFit : List Segment → Type 0
AllFit [] = Unit
AllFit (x ∷ xs) =
    (x.filesz ≤ x.memsz)
    × (x.paddr + x.memsz + 512 < 2 ^ 32)
    × (x.offset + x.filesz < 2 ^ 31)
    × (x.paddr % 512 ≡ x.offset % 512)
    × AllFit xs

-- No sector that one of the segments touches holds byte `q`.
abbrev pub Outside : List Segment → ℕ → Type 0
Outside [] q = Unit
Outside (x ∷ xs) q = (spans x.filesz x.memsz x.paddr q ≡ false) × Outside xs q

-- No segment touches the bytes of one before it.
abbrev pub Apart : List Segment → Type 0
Apart [] = Unit
Apart (x ∷ xs) = ((k : ℕ) → k < x.memsz → Outside xs (x.paddr + k)) × Apart xs

abbrev pub AllLoaded : (ℕ → ℕ → ℕ) → Mem → List Segment → Type 0
AllLoaded word m [] = Unit
AllLoaded word m (x ∷ xs) =
    IsLoaded word x.filesz x.memsz x.paddr (1536 + x.offset) m × AllLoaded word m xs

IsLoaded-kept :
    (word : ℕ → ℕ → ℕ) (x : Segment) (m m' : Mem)
    → x.filesz ≤ x.memsz
    → IsLoaded word x.filesz x.memsz x.paddr (1536 + x.offset) m
    → ((k : ℕ) → k < x.memsz → m' (x.paddr + k) ≡ m (x.paddr + k))
    → IsLoaded word x.filesz x.memsz x.paddr (1536 + x.offset) m'
IsLoaded-kept word x m m' le loaded kept = record {
  from_file = λ k lt. kept k (omega arith) ∙ loaded.from_file k lt;
  bss = λ k lo hi. kept k hi ∙ loaded.bss k lo hi;
}

module _ (layout : ElfLayout) (elf : ℕ) (locality : IsLocal layout elf) where
  Headers-kept :
      (m m' : Mem) (ph : ℕ) (xs : List Segment)
      → SameHeader elf m m'
      → elf ≤ ph
      → ph + total layout xs ≤ elf + 4096
      → Headers layout m ph xs
      → Headers layout m' ph xs
  Headers-kept m m' ph [] same lo hi headers = tt
  Headers-kept m m' ph (x ∷ xs) same lo hi (a, b, c, d, headers) =
      let (a', b', c', d') = locality.phdr_local m m' ph same lo (omega arith) in
      (
        rw (← a') a,
        rw (← b') b,
        rw (← c') c,
        rw (← d') d,
        Headers-kept m m' (ph + layout.phdr_size) xs same (omega arith) (omega arith) headers,
      )

  module _ (P : Ports) (drive : P.State → Drive) (patience : ℕ) (law : IsDrive P drive patience)
      (polls : ℕ) (patient : patience < polls) where
    load_loop_next :
        (rounds i ph : ℕ) (m m' : Mem) (s s' : P.State) (x : Segment) (xs : List Segment)
        → i < layout.e_phnum m elf
        → Headers layout m ph (x ∷ xs)
        → load_program P polls x.filesz x.memsz x.paddr x.offset m s ≡ some (m', s')
        → load_loop P polls (suc rounds) layout elf i ph m s
          ≡ load_loop P polls rounds layout elf (i + 1) (ph + layout.phdr_size) m' s'
    unfolding load_loop
    load_loop_next rounds i ph m m' s s' x xs lt (a, b, c, d, headers) e =
        let more : ltb i (layout.e_phnum m elf) ≡ true = ground arith in
        let runs : load_program P polls (layout.p_filesz m ph % 2 ^ 32)
              (layout.p_memsz m ph % 2 ^ 32) (layout.p_paddr m ph % 2 ^ 32)
              (layout.p_offset m ph % 2 ^ 32) m s
            ≡ some (m', s') =
          rw (a, b, c, d) e in
        rw (more, load_loop) (rw (runs, load_loop) refl)

    load_loop_end :
        (rounds i ph : ℕ) (m : Mem) (s : P.State)
        → layout.e_phnum m elf ≤ i
        → load_loop P polls (suc rounds) layout elf i ph m s ≡ some (m, s)
    unfolding load_loop
    load_loop_end rounds i ph m s le =
        let over : ltb i (layout.e_phnum m elf) ≡ false = ground arith in rw (over, load_loop) refl

    load_loop-AllLoaded :
        (xs : List Segment) (rounds i ph : ℕ) (m : Mem) (s : P.State)
        → length xs < rounds
        → layout.e_phnum m elf ≡ i + length xs
        → Headers layout m ph xs
        → elf ≤ ph
        → ph + total layout xs ≤ elf + 4096
        → IsReady P drive patience s
        → AllFit xs
        → ((q : ℕ) → elf ≤ q → q < elf + 4096 → Outside xs q)
        → Apart xs
        → (m' : Mem) × (s' : P.State) × (load_loop P polls rounds layout elf i ph m s
            ≡ some (m', s'))
          × IsReady P drive patience s'
          × ((drive s').word ≡ (drive s).word)
          × AllLoaded (drive s).word m' xs
          × ((q : ℕ) → Outside xs q → m' q ≡ m q)
    load_loop-AllLoaded xs zero i ph m s lt count headers lo hi ready fit clear apart = elim lt [ ]
    load_loop-AllLoaded [] (suc rounds) i ph m s lt count headers lo hi ready fit clear apart =
        (m, s, load_loop_end rounds i ph m s (omega arith), ready, refl, tt, λ q out. refl)
    load_loop-AllLoaded (x ∷ xs) (suc rounds) i ph m s lt count headers lo hi ready
          (f1, f2, f3, f4, fit) clear (away, apart) =
        let (m1, s1, runs1, ready1, same1, loaded, kept1) =
          load_program-IsLoaded P drive patience law polls patient x.filesz x.memsz x.paddr x.offset
            m s ready f1 f2 f3 f4 in
        let header : SameHeader elf m m1 = λ q from to. sym (kept1 q (clear q from to).0) in
        let (m2, s2, runs2, ready2, same2, rest, kept2) =
          load_loop-AllLoaded xs rounds (i + 1) (ph + layout.phdr_size) m1 s1 (omega arith)
            (sym (locality.phnum_local m m1 header) ∙ count ∙ omega arith)
            (Headers-kept m m1 ph (x ∷ xs) header lo hi headers).4 (omega arith) (omega arith)
            ready1 fit (λ q from to. (clear q from to).1) apart in
        (
          m2,
          s2,
          load_loop_next rounds i ph m m1 s s1 x xs (omega arith) headers runs1 ∙ runs2,
          ready2,
          same2 ∙ same1,
          (
            IsLoaded-kept (drive s).word x m1 m2 f1 loaded
                (λ k lt. kept2 (x.paddr + k) (away k lt)),
            subst (λ w. AllLoaded w m2 xs) same1 rest,
          ),
          λ q out. kept2 q out.1 ∙ kept1 q out.0,
        )

    -- On a drive between commands, with a round for each program header and one more: where the
    -- program headers stand in the first 4096 bytes of the file, which the memory holds, no
    -- segment touches these bytes or the segments before it, and each is at a place that fits its
    -- sectors and runs over no bound, the loader ends with every segment in place: the bytes of
    -- the file, then zeros; and no byte outside of the sectors that the segments touch is changed.
    pub load_elf-AllLoaded :
        (xs : List Segment) (rounds : ℕ) (m : Mem) (s : P.State)
        → length xs < rounds
        → layout.e_phnum m elf ≡ length xs
        → Headers layout m (elf + layout.e_phoff m elf) xs
        → layout.e_phoff m elf + total layout xs ≤ 4096
        → IsReady P drive patience s
        → AllFit xs
        → ((q : ℕ) → elf ≤ q → q < elf + 4096 → Outside xs q)
        → Apart xs
        → (m' : Mem) × (s' : P.State) × (load_elf P polls rounds layout elf m s ≡ some (m', s'))
          × AllLoaded (drive s).word m' xs
          × ((q : ℕ) → Outside xs q → m' q ≡ m q)
    unfolding load_elf
    load_elf-AllLoaded xs rounds m s lt count headers fits ready fit clear apart =
        let (m', s', runs, ready', same, loaded, kept) =
          load_loop-AllLoaded xs rounds 0 (elf + layout.e_phoff m elf) m s lt (omega arith) headers
            (omega arith) (omega arith) ready fit clear apart in
        (m', s', runs, loaded, kept)
