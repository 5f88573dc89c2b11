-- ===== src/Machine/Vme.antt =====
-- The page tables of abstract-machine/am/src/x86/qemu/vme.c for 64 bits. Memory is a function from
-- addresses to words of 8 bytes; `&as->ptr` is the address of such a word.
pub mod Entries
pub mod Owners
pub mod Walks
pub mod Ptwalk
pub mod Leaves
pub mod Spaces
pub mod Mapping
use nju_os_workbench.Base.{
  ℕ, zero, suc, ◌+◌, ◌-◌, ◌*◌, ◌/◌, ◌%◌, ◌^◌, Bool, true, false, not, ◌&&◌, ◌||◌, List, [], ◌∷◌,
  ltb, leb, ◌==◌, if◌then◌else◌, bit_or,
}

abbrev pub pgsize : ℕ
pgsize = 4096

-- A `mask` of the source has the `bits` bits from `shift` on.
pub record PtInfo : Type 0 where
  pub shift : ℕ
  pub bits : ℕ

-- `mmu.pgtables`: CR3, PML4, PDPT, PD, PT
abbrev pub pgtables : List PtInfo
pgtables =
    record { shift = 0; bits = 0 }
    ∷ record { shift = 39; bits = 9 }
    ∷ record { shift = 30; bits = 9 }
    ∷ record { shift = 21; bits = 9 }
    ∷ record { shift = 12; bits = 9 }
    ∷ []

abbrev pub uvm_start : ℕ
uvm_start = 0x100000000000

abbrev pub uvm_end : ℕ
uvm_end = 0x108000000000

-- `area.start` and `area.end` of the areas in `vm_areas` that are the kernel's
abbrev pub kernel_areas : List (ℕ × ℕ)
kernel_areas = (0, 0x8000000000) ∷ []

-- `pages` is what the next calls of `pgalloc` return, and 0 behind it; `freed` what `pgfree` has been
-- given, the last page first.
pub record Machine : Type 0 where
  pub words : ℕ → ℕ
  pub pages : List ℕ
  pub freed : List ℕ

pub data Result (A : Type 0) : Type 0 where
  ok : A → Machine → Result A
  panic : Result A

abbrev pub and_then : {A B : Type 0} → Result A → (A → Machine → Result B) → Result B
and_then (ok a m) k = k a m
and_then panic k = panic

abbrev pub put : ℕ → ℕ → (ℕ → ℕ) → ℕ → ℕ
put a v words b = if b == a then v else words b

abbrev pub write : ℕ → ℕ → Machine → Machine
write a v m = record m { words = put a v m.words }

-- `base[i] = 0` for the `k` numbers from `i` on
unfoldable pub zero_loop : (k i base : ℕ) → (ℕ → ℕ) → ℕ → ℕ
zero_loop zero i base words = words
zero_loop (suc k) i base words = zero_loop k (i + 1) base (put (base + 8 * i) 0 words)

unfoldable pub pgallocz : Machine → Result ℕ
unfolding zero_loop
pgallocz m = elim m.pages [
  | [] ↦ panic
  | base ∷ pages ↦
      if base == 0
      then panic
      else ok base (record m { words = zero_loop 512 0 base m.words; pages = pages })
]

abbrev pub indexof : ℕ → PtInfo → ℕ
indexof addr info = addr / 2 ^ info.shift % 2 ^ info.bits

-- `addr & ~(mmu.pgsize - 1)`
abbrev pub baseof : ℕ → ℕ
baseof addr = addr / 4096 * 4096

-- `entry & PTE_P` and `entry & PTE_U`
abbrev pub is_present : ℕ → Bool
is_present entry = entry % 2 == 1

abbrev pub is_user : ℕ → Bool
is_user entry = (entry / 4) % 2 == 1

-- `page | flags`, where the flags are below 8
abbrev pub or_flags : ℕ → ℕ → ℕ
or_flags page flags = page / 8 * 8 + bit_or (page % 8) flags

abbrev pub pte_p : ℕ
pte_p = 1

abbrev pub pte_w : ℕ
pte_w = 2

abbrev pub pte_u : ℕ
pte_u = 4

-- the loop of `ptwalk` at the table `cur`; the infos are those of the levels from there on
unfoldable pub walk : List PtInfo → (cur addr flags : ℕ) → Machine → Result ℕ
unfolding pgallocz
walk [] cur addr flags m = panic
walk (info ∷ []) cur addr flags m = ok (cur + 8 * indexof addr info) m
walk (info ∷ next ∷ infos) cur addr flags m =
    let slot = cur + 8 * indexof addr info in
    elim (is_present (m.words slot)) [
      | true ↦ walk (next ∷ infos) (baseof (m.words slot)) addr flags m
      | false ↦ elim (pgallocz m) [
        | panic ↦ panic
        | ok page m' ↦
            walk (next ∷ infos) page addr flags (write slot (or_flags page (bit_or pte_p flags)) m')
      ]
    ]

unfoldable pub ptwalk : (space addr flags : ℕ) → Machine → Result ℕ
unfolding walk
ptwalk space addr flags m = walk pgtables space addr flags m

-- `f` for the `k` numbers from `i` on
unfoldable pub each : (k i : ℕ) → (ℕ → Machine → Machine) → Machine → Machine
each zero i f m = m
each (suc k) i f m = each k (i + 1) f (f i m)

-- `is_root` where `level` is 0
unfoldable pub teardown : List PtInfo → (is_root : Bool) → (pt : ℕ) → Machine → Machine
unfolding each
teardown [] is_root pt m = m
teardown (info ∷ infos) is_root pt m =
    let below =
      each (2 ^ info.bits) 0
        (λ index m.
          let entry = m.words (pt + 8 * index) in
          let torn = teardown infos false (baseof entry) m in
          if is_present entry && is_user entry then torn else m)
        m in
    if is_root then below else record below { freed = pt ∷ below.freed }

unfoldable pub unprotect : (space : ℕ) → Machine → Machine
unfolding teardown
unprotect space m = teardown pgtables true space m

-- the entries of the level-1 table `kpt` for the `k` parts of 512 GiB from `cur` on
unfoldable pub copy_entries : (k cur kpt upt : ℕ) → Machine → Machine
copy_entries zero cur kpt upt m = m
copy_entries (suc k) cur kpt upt m =
    let index = cur / 2 ^ 39 % 512 in
    copy_entries k (cur + 2 ^ 39) kpt upt (write (upt + 8 * index) (m.words (kpt + 8 * index)) m)

unfoldable pub copy_areas : List (ℕ × ℕ) → (kpt upt : ℕ) → Machine → Machine
unfolding copy_entries
copy_areas [] kpt upt m = m
copy_areas ((start, stop) ∷ areas) kpt upt m =
    copy_areas areas kpt upt (copy_entries ((stop - start) / 2 ^ 39) start kpt upt m)

-- `pgsize` and `area` of an address space are always the same; `space` is `&as->ptr`.
unfoldable pub protect : (kpt space : ℕ) → Machine → Result Unit
unfolding pgallocz copy_areas
protect kpt space m = and_then (pgallocz m) λ upt m'.
    ok tt (write space (or_flags upt (bit_or pte_p pte_u)) (copy_areas kernel_areas kpt upt m'))

-- `prot` has the bits of MMAP_READ and MMAP_WRITE, and none for MMAP_NONE.
abbrev pub new_entry : (pa prot : ℕ) → ℕ
new_entry pa prot =
    or_flags pa (bit_or (bit_or pte_p pte_u) (if prot / 2 % 2 == 1 then pte_w else 0))

unfoldable pub map_at : (slot pa prot : ℕ) → Machine → Result Unit
map_at slot pa prot m =
    if prot == 0
    then if is_present (m.words slot) then ok tt (write slot 0 m) else panic
    else if is_present (m.words slot)
    then panic
    else ok tt (write slot (new_entry pa prot) m)

-- `map`
unfoldable pub map_page : (space va pa prot : ℕ) → Machine → Result Unit
map_page space va pa prot m =
    if not (leb uvm_start va && ltb va uvm_end)
    then panic
    else if not (va % pgsize == 0) || not (pa % pgsize == 0)
    then panic
    else and_then (ptwalk space va (bit_or pte_w pte_u) m) λ slot m.
      and_then (map_at slot pa prot m)
        λ done m. and_then (ptwalk space va (bit_or pte_w pte_u) m) λ slot m. ok tt m
