-- ===== src/Machine/Vme/Entries.antt =====
-- What the page tables of abstract-machine/am/src/x86/qemu/vme.c say of an address, and pages of zeros.
use nju_os_workbench.Machine.Vme.{PtInfo, put, indexof, baseof, is_present}
unfoldable use nju_os_workbench.Machine.Vme.{zero_loop}
use nju_os_workbench.Base.{
  ℕ, zero, suc, ◌+◌, ◌*◌, ◌≤◌, ◌<◌, ◌≡◌, ◌≢◌, refl, ◌∙◌, true, false, List, [], ◌∷◌, arith, ◌==◌,
  if◌then◌else◌,
}
unfoldable use nju_os_workbench.Base.{ℕ_discrete}

-- the entry of an address in the tables from the table `cur` on, 0 where a table is missing
unfoldable pub entry_at : List PtInfo → (cur addr : ℕ) → (ℕ → ℕ) → ℕ
entry_at [] cur addr words = 0
entry_at (info ∷ []) cur addr words = words (cur + 8 * indexof addr info)
entry_at (info ∷ next ∷ infos) cur addr words =
    let entry = words (cur + 8 * indexof addr info) in
    let rest = entry_at (next ∷ infos) (baseof entry) addr words in
    if is_present entry then rest else 0

-- The tables have 512 entries.
abbrev pub Nine : List PtInfo → Type 0
Nine [] = Unit
Nine (info ∷ infos) = (info.bits ≡ 9) × Nine infos

pub indexof-small : (addr : ℕ) (info : PtInfo) → info.bits ≡ 9 → indexof addr info < 512
indexof-small addr info e = rw e (omega arith)

pub zero_loop-outside :
    (k i base : ℕ) (words : ℕ → ℕ) (a : ℕ)
    → ((j : ℕ) → i ≤ j → j < i + k → a ≢ base + 8 * j)
    → zero_loop k i base words a ≡ words a
unfolding zero_loop
zero_loop-outside zero i base words a h = refl
zero_loop-outside (suc k) i base words a h =
    let here = h i (omega arith) (omega arith) in
    let away : (a == base + 8 * i) ≡ false = ground arith in
    zero_loop-outside k (i + 1) base (put (base + 8 * i) 0 words) a
      (λ j le lt. h j (omega arith) (omega arith))
    ∙ rw away refl

pub zero_loop-inside :
    (k i base : ℕ) (words : ℕ → ℕ) (j : ℕ)
    → i ≤ j
    → j < i + k
    → zero_loop k i base words (base + 8 * j) ≡ 0
unfolding zero_loop
zero_loop-inside zero i base words j le lt = absurd (omega arith)
zero_loop-inside (suc k) i base words j le lt = elim (ℕ_discrete i j) [
  | yes here ↦
      let same : (base + 8 * j == base + 8 * i) ≡ true = ground arith in
      zero_loop-outside k (i + 1) base (put (base + 8 * i) 0 words) (base + 8 * j)
        (λ j' le' lt' e. omega arith)
      ∙ rw same refl
  | no later ↦
      zero_loop-inside k (i + 1) base (put (base + 8 * i) 0 words) j (omega arith) (omega arith)
]

unfoldable pub Empty : ℕ → (ℕ → ℕ) → Type 0
Empty page words = (j : ℕ) → j < 512 → words (page + 8 * j) ≡ 0

-- An empty table has no entry for any address.
pub entry_at-Empty :
    (infos : List PtInfo) (page addr : ℕ) (words : ℕ → ℕ)
    → Nine infos
    → Empty page words
    → entry_at infos page addr words ≡ 0
unfolding entry_at Empty
entry_at-Empty [] page addr words nine empty = refl
entry_at-Empty (info ∷ []) page addr words nine empty =
    empty (indexof addr info) (indexof-small addr info nine.0)
entry_at-Empty (info ∷ next ∷ infos) page addr words nine empty =
    rw (empty (indexof addr info) (indexof-small addr info nine.0)) refl

pub entry_at-step :
    (info next : PtInfo) (infos : List PtInfo) (cur addr : ℕ) (words : ℕ → ℕ) (entry : ℕ)
    → words (cur + 8 * indexof addr info) ≡ entry
    → entry_at (info ∷ next ∷ infos) cur addr words
      ≡ (if is_present entry then entry_at (next ∷ infos) (baseof entry) addr words else 0)
unfolding entry_at
entry_at-step info next infos cur addr words entry e = rw e refl
