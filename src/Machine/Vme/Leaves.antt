-- ===== src/Machine/Vme/Leaves.antt =====
-- A write to the entry of an address in the page tables of abstract-machine/am/src/x86/qemu/vme.c.
use nju_os_workbench.Base.{
  ℕ, ◌+◌, ◌*◌, ◌<◌, ◌≡◌, ◌≢◌, refl, sym, ap, ap₂, ◌∙◌, subst, inl, inr, Bool, true, false, Option,
  some, List, [], ◌∷◌, arith, ◌==◌, if◌then◌else◌, Bool-cases, length,
}
use nju_os_workbench.Machine.Vme.{PtInfo, Machine, ok, put, indexof, baseof, is_present}
unfoldable use nju_os_workbench.Machine.Vme.{walk}
unfoldable use nju_os_workbench.Machine.Vme.Entries.{entry_at}
use nju_os_workbench.Machine.Vme.Entries.{Nine, indexof-small, entry_at-step}
use nju_os_workbench.Machine.Vme.Owners.{Along, Owned}
use nju_os_workbench.Machine.Vme.Walks.{Reaches, walk-there}
use nju_os_workbench.Machine.Vme.Ptwalk.{put_self, put-other, Reaches-cons}

-- the indices that lead to the entry of an address, the last one first
abbrev pub path_of : List PtInfo → List ℕ → ℕ → List ℕ
path_of [] path addr = path
path_of (info ∷ infos) path addr = path_of infos (indexof addr info ∷ path) addr

-- Nothing is allocated where no table is missing.
pub Reaches-walk :
    (infos : List PtInfo) (cur addr slot : ℕ) (m : Machine)
    → Reaches infos cur addr m.words slot
    → walk infos cur addr 6 m ≡ ok slot m
unfolding walk
Reaches-walk [] cur addr slot m h = absurd h
Reaches-walk (info ∷ []) cur addr slot m h = ap (λ x. ok x m) (sym h)
Reaches-walk (info ∷ next ∷ infos) cur addr slot m h =
    walk-there info next infos cur addr m h.0
    ∙ Reaches-walk (next ∷ infos) (baseof (m.words (cur + 8 * indexof addr info))) addr slot m h.1

-- what the entry of an address says of the way to it
pub Reaches-entry :
    (infos : List PtInfo) (cur addr slot : ℕ) (words : ℕ → ℕ)
    → Reaches infos cur addr words slot
    → entry_at infos cur addr words ≡ words slot
unfolding entry_at
Reaches-entry [] cur addr slot words h = absurd h
Reaches-entry (info ∷ []) cur addr slot words h = ap words (sym h)
Reaches-entry (info ∷ next ∷ infos) cur addr slot words h = rw h.0 (
    Reaches-entry (next ∷ infos) (baseof (words (cur + 8 * indexof addr info))) addr slot words h.1)

present-rest :
    (b : Bool) (rest : ℕ)
    → b ≡ true
    → is_present (if b then rest else 0) ≡ true
    → is_present rest ≡ true
present-rest true rest e h = h
present-rest false rest e h = cc

absent-rest : (b : Bool) (rest : ℕ) → b ≡ false → is_present (if b then rest else 0) ≡ true → ⊥
absent-rest true rest e h = cc
absent-rest false rest e h = cc

pub present-Reaches :
    (infos : List PtInfo) (cur addr : ℕ) (words : ℕ → ℕ)
    → is_present (entry_at infos cur addr words) ≡ true
    → (slot : ℕ) × Reaches infos cur addr words slot
unfolding entry_at
present-Reaches [] cur addr words h = absurd (ground arith)
present-Reaches (info ∷ []) cur addr words h = (cur + 8 * indexof addr info, refl)
present-Reaches (info ∷ next ∷ infos) cur addr words h =
    elim (Bool-cases (is_present (words (cur + 8 * indexof addr info)))) [
      | inl on ↦
          let (slot, reaches) =
            present-Reaches (next ∷ infos) (baseof (words (cur + 8 * indexof addr info))) addr words
              (present-rest _ _ on h) in
          (slot, (on, reaches))
      | inr off ↦ absurd (absent-rest _ _ off h)
    ]

abbrev pub IsLeaf : (ℕ → Option (List ℕ)) → (slot : ℕ) → List ℕ → Type 0
IsLeaf own slot path =
    (c : ℕ) × (q : List ℕ) × (i : ℕ) × (own c ≡ some q)
    × (length q ≡ 3)
    × (i < 512)
    × (slot ≡ c + 8 * i)
    × (i ∷ q ≡ path)

module _ (own : ℕ → Option (List ℕ)) (words : ℕ → ℕ) (owned : Owned own words) where
  pub Reaches-IsLeaf :
      (infos : List PtInfo) (cur addr slot : ℕ) (path : List ℕ)
      → own cur ≡ some path
      → length path + length infos ≡ 4
      → Nine infos
      → Along infos path addr
      → Reaches infos cur addr words slot
      → IsLeaf own slot (path_of infos path addr)
  Reaches-IsLeaf [] cur addr slot path e len nine along h = absurd h
  Reaches-IsLeaf (info ∷ []) cur addr slot path e len nine along h =
      (cur, path, indexof addr info, e, omega arith, indexof-small addr info nine.0, h, refl)
  Reaches-IsLeaf (info ∷ next ∷ infos) cur addr slot path e len nine along h =
      let small = indexof-small addr info nine.0 in
      Reaches-IsLeaf (next ∷ infos) (baseof (words (cur + 8 * indexof addr info))) addr slot
        (indexof addr info ∷ path)
        (owned.child cur path (indexof addr info) e along.0 (omega arith) small h.0) (omega arith)
        nine.1 along.1 h.1

module _ (own : ℕ → Option (List ℕ)) (words : ℕ → ℕ) (owned : Owned own words) (c i v : ℕ)
    (q : List ℕ) (is_table : own c ≡ some q) (last : length q ≡ 3) (small : i < 512) where
  same_table :
      (c' : ℕ) (p : List ℕ) (j : ℕ)
      → own c' ≡ some p
      → j < 512
      → c' + 8 * j ≡ c + 8 * i
      → (p ≡ q) × (j ≡ i)
  same_table c' p j e lt is =
      let at = owned.aligned c' p e in
      let at' = owned.aligned c q is_table in
      let same : c' ≡ c = omega arith in let there = ap own same in (cc, omega arith)

  write-inner :
      (c' : ℕ) (p : List ℕ) (j : ℕ)
      → own c' ≡ some p
      → length p < 3
      → j < 512
      → put (c + 8 * i) v words (c' + 8 * j) ≡ words (c' + 8 * j)
  write-inner c' p j e inner lt =
      let apart : c' + 8 * j ≢ c + 8 * i = λ is.
        (let n = ap (λ (l : List ℕ). length l) (same_table c' p j e lt is).0 in omega arith) in
      let away : (c' + 8 * j == c + 8 * i) ≡ false = ground arith in rw away refl

  pub write-Owned : Owned own (put (c + 8 * i) v words)
  write-Owned = record {
    aligned = owned.aligned;
    child = λ c' p j e mine inner lt present.
        let kept = write-inner c' p j e inner lt in
        subst (λ x. own (baseof x) ≡ some (j ∷ p)) (sym kept)
          (owned.child c' p j e mine inner lt (subst (λ x. is_present x ≡ true) kept present));
  }

  -- the other addresses
  pub write-other :
      (infos : List PtInfo) (c' addr : ℕ) (p : List ℕ)
      → own c' ≡ some p
      → length p + length infos ≡ 4
      → Nine infos
      → Along infos p addr
      → path_of infos p addr ≢ i ∷ q
      → entry_at infos c' addr (put (c + 8 * i) v words) ≡ entry_at infos c' addr words
  unfolding entry_at
  write-other [] c' addr p e len nine along ne = refl
  write-other (info ∷ []) c' addr p e len nine along ne =
      let at = indexof-small addr info nine.0 in
      let apart : c' + 8 * indexof addr info ≢ c + 8 * i = λ is.
        (let (same, idx) = same_table c' p (indexof addr info) e at is in
          ne (ap₂ (λ (x : ℕ) (y : List ℕ). x ∷ y) idx same)) in
      put-other (c' + 8 * indexof addr info) (c + 8 * i) v words apart
  write-other (info ∷ next ∷ infos) c' addr p e len nine along ne =
      let at = indexof-small addr info nine.0 in
      let kept = write-inner c' p (indexof addr info) e (omega arith) at in
      let after = entry_at-step info next infos c' addr (put (c + 8 * i) v words) _ kept in
      let before = entry_at-step info next infos c' addr words _ refl in
      after
      ∙ (elim (Bool-cases (is_present (words (c' + 8 * indexof addr info)))) [
        | inl present ↦ rw present (
            write-other (next ∷ infos) (baseof (words (c' + 8 * indexof addr info))) addr
              (indexof addr info ∷ p)
              (owned.child c' p (indexof addr info) e along.0 (omega arith) at present)
              (omega arith) nine.1 along.1 ne)
        | inr absent ↦ rw absent refl
      ]
          ∙ sym before)

  -- the address itself
  pub write_self :
      (infos : List PtInfo) (c' addr : ℕ) (p : List ℕ)
      → own c' ≡ some p
      → length p + length infos ≡ 4
      → Nine infos
      → Along infos p addr
      → Reaches infos c' addr words (c + 8 * i)
      → (entry_at infos c' addr (put (c + 8 * i) v words) ≡ v)
        × Reaches infos c' addr (put (c + 8 * i) v words) (c + 8 * i)
  unfolding entry_at
  write_self [] c' addr p e len nine along h = absurd h
  write_self (info ∷ []) c' addr p e len nine along h =
      (subst (λ a. put (c + 8 * i) v words a ≡ v) h (put_self (c + 8 * i) v words), h)
  write_self (info ∷ next ∷ infos) c' addr p e len nine along h =
      let at = indexof-small addr info nine.0 in
      let kept = write-inner c' p (indexof addr info) e (omega arith) at in
      let after = entry_at-step info next infos c' addr (put (c + 8 * i) v words) _ kept in
      let child = owned.child c' p (indexof addr info) e along.0 (omega arith) at h.0 in
      let (found, reaches) =
        write_self (next ∷ infos) (baseof (words (c' + 8 * indexof addr info))) addr
          (indexof addr info ∷ p) child (omega arith) nine.1 along.1 h.1 in
      (
        after ∙ rw h.0 found,
        Reaches-cons info next infos c' addr (put (c + 8 * i) v words) (c + 8 * i) _ _ kept h.0 refl
            reaches,
      )
