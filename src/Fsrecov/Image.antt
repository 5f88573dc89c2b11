-- ===== src/Fsrecov/Image.antt =====
-- What M6-fsrecov/fsrecov.c does to memory while it matches entries: the image keeps its bytes, and so
-- its entries stay what they were.
use nju_os_workbench.Base.{
  ℕ, zero, suc, ◌+◌, ◌*◌, ◌≤◌, ◌<◌, ◌≡◌, ◌⊎◌, ◌∙◌, inl, inr, refl, true, Bool, some, arith,
  Bool-cases,
}
use nju_os_workbench.Base.Memory.{Mem, store}
use nju_os_workbench.Klib.Strings.{memcpy}
use nju_os_workbench.Fsrecov.Entry.{is_dirent_basic, is_dirent_long}
use nju_os_workbench.Fsrecov.Disk.{Disk}
use nju_os_workbench.Fsrecov.Scan.{EntryPart}
use nju_os_workbench.Fsrecov.Match.{matched, block_size, combine}
use nju_os_workbench.Fsrecov.Waiting.{IsPlace, IsEntry}

-- `malloc` returns blocks outside of the mapped image.
abbrev pub Apart : Disk → (ℕ → ℕ → ℕ → ℕ) → Type 0
Apart disk malloc =
    (i j size : ℕ) → (malloc i j size + size ≤ disk.base) ⊎ (disk.last + 1 ≤ malloc i j size)

-- The image holds the bytes that it has in `m`.
abbrev pub Agrees : Disk → (m g : Mem) → Type 0
Agrees disk m g = (q : ℕ) → disk.base ≤ q → q < disk.last + 1 → g q ≡ m q

memcpy-frame : (m : Mem) (out inp n q : ℕ) → (q < out) ⊎ (out + n ≤ q) → memcpy m out inp n q ≡ m q
unfolding memcpy store
memcpy-frame m out inp zero q apart = refl
memcpy-frame m out inp (suc n) q apart =
    memcpy-frame (store m out (m inp)) (out + 1) (inp + 1) n q (omega arith) ∙ ground arith

pub combine-Agrees :
    (disk : Disk) (m g : Mem) (combined : ℕ) (head tail : EntryPart)
    → (combined + block_size head tail ≤ disk.base) ⊎ (disk.last + 1 ≤ combined)
    → Agrees disk m g
    → Agrees disk m (combine g combined head tail)
combine-Agrees disk m g combined head tail apart same q lo hi =
    memcpy-frame _ (combined + head.len * 32) tail.entry (tail.len * 32) q (omega arith)
    ∙ (memcpy-frame g combined head.entry (head.len * 32) q (omega arith) ∙ same q lo hi)

is_dirent_long-ext :
    (disk : Disk) (m g : Mem) (p : ℕ)
    → IsPlace disk p
    → Agrees disk m g
    → is_dirent_long g p ≡ is_dirent_long m p
unfolding is_dirent_long
is_dirent_long-ext disk m g p place same =
    rw
      (
        same p (omega arith) (omega arith),
        same (p + 11) (omega arith) (omega arith),
        same (p + 12) (omega arith) (omega arith),
        same (p + 26) (omega arith) (omega arith),
        same (p + 26 + 1) (omega arith) (omega arith),
      )
      refl

is_dirent_basic-ext :
    (disk : Disk) (m g : Mem) (p : ℕ)
    → IsPlace disk p
    → Agrees disk m g
    → is_dirent_basic disk.total_clusters g p ≡ is_dirent_basic disk.total_clusters m p
unfolding is_dirent_basic
is_dirent_basic-ext disk m g p place same =
    let zero_offset : p + 0 ≡ p = omega arith in
    rw
      (
        zero_offset,
        same p (omega arith) (omega arith),
        same (p + 11) (omega arith) (omega arith),
        same (p + 12) (omega arith) (omega arith),
        same (p + 20) (omega arith) (omega arith),
        same (p + 20 + 1) (omega arith) (omega arith),
        same (p + 26) (omega arith) (omega arith),
        same (p + 26 + 1) (omega arith) (omega arith),
        same (p + 28) (omega arith) (omega arith),
        same (p + 28 + 1) (omega arith) (omega arith),
        same (p + 28 + 2) (omega arith) (omega arith),
        same (p + 28 + 3) (omega arith) (omega arith),
      )
      refl

-- Of a head and a tail that wait, `matched` asserts nothing false.
pub matched-some :
    (disk : Disk) (m g : Mem) (head tail : ℕ)
    → Agrees disk m g
    → IsPlace disk head
    → is_dirent_long m head ≡ true
    → IsEntry disk m tail
    → (same : Bool) × (matched disk g head tail ≡ some same)
unfolding matched
matched-some disk m g head tail agrees place long entry =
    let head_long = is_dirent_long-ext disk m g head place agrees ∙ long in
    let tail_long = is_dirent_long-ext disk m g tail entry.0 agrees in
    let tail_basic = is_dirent_basic-ext disk m g tail entry.0 agrees in
    elim (Bool-cases (is_dirent_long g tail)) [
      | inl l ↦ rw (head_long, l) (_, refl)
      | inr n ↦
          let b : is_dirent_basic disk.total_clusters g tail ≡ true = ground (arith, entry.1) in
          rw (head_long, n, b) (_, refl)
    ]
