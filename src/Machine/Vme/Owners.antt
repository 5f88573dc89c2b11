-- ===== src/Machine/Vme/Owners.antt =====
-- The page tables of abstract-machine/am/src/x86/qemu/vme.c as a tree: each table has one place in it.
use nju_os_workbench.Machine.Vme.{PtInfo, put, indexof, baseof, is_present}
unfoldable use nju_os_workbench.Machine.Vme.{zero_loop}
unfoldable use nju_os_workbench.Machine.Vme.Entries.{entry_at, Empty}
use nju_os_workbench.Machine.Vme.Entries.{
  Nine, indexof-small, zero_loop-outside, zero_loop-inside, entry_at-Empty, entry_at-step,
}
use nju_os_workbench.Base.{
  ℕ, ◌+◌, ◌*◌, ◌%◌, ◌<◌, ◌≡◌, ◌≢◌, refl, sym, ap, ◌∙◌, subst, inl, inr, true, false, Option, none,
  some, List, [], ◌∷◌, arith, ◌==◌, if◌then◌else◌, Bool-cases, ==_iff, length,
}
unfoldable use nju_os_workbench.Base.{ℕ_discrete}

-- The entry 32 of the level-1 table is that of the user area; the kernel's entries are not looked at.
abbrev pub Mine : List ℕ → ℕ → Type 0
Mine [] i = i ≡ 32
Mine (j ∷ path) i = Unit

-- the way of an address of the user area
abbrev pub Along : List PtInfo → List ℕ → ℕ → Type 0
Along [] path addr = Unit
Along (info ∷ infos) path addr =
    Mine path (indexof addr info) × Along infos (indexof addr info ∷ path) addr

-- `own` gives a table the indices that lead to it from the level-1 table, the last one first.
pub record Owned (own : ℕ → Option (List ℕ)) (words : ℕ → ℕ) : Type 0 where
  pub aligned : (c : ℕ) (path : List ℕ) → own c ≡ some path → c % 4096 ≡ 0
  pub child :
      (c : ℕ) (path : List ℕ) (i : ℕ)
      → own c ≡ some path
      → Mine path i
      → length path < 3
      → i < 512
      → is_present (words (c + 8 * i)) ≡ true
      → own (baseof (words (c + 8 * i))) ≡ some (i ∷ path)

abbrev pub owned_by : (ℕ → Option (List ℕ)) → ℕ → List ℕ → ℕ → Option (List ℕ)
owned_by own page path q = if q == page then some path else own q

-- The words behind `ptwalk` has hung the empty page `page` on the entry `i` of the table `cur`.
abbrev pub hung : (words : ℕ → ℕ) (page cur i entry : ℕ) → ℕ → ℕ
hung words page cur i entry = put (cur + 8 * i) entry (zero_loop 512 0 page words)

module _ (own : ℕ → Option (List ℕ)) (words : ℕ → ℕ) (page cur i entry : ℕ) (path : List ℕ)
    (owned : Owned own words) (is_table : own cur ≡ some path) (inner : length path < 3)
    (small : i < 512) (missing : is_present (words (cur + 8 * i)) ≡ false) (fresh : own page ≡ none)
    (page_aligned : page % 4096 ≡ 0) (entry_present : is_present entry ≡ true)
    (entry_base : baseof entry ≡ page) where
  not_fresh : (c : ℕ) (p : List ℕ) → own c ≡ some p → c ≢ page
  not_fresh c p e is = let there = ap own is in cc

  pub hung-elsewhere :
      (c : ℕ) (p : List ℕ) (j : ℕ)
      → own c ≡ some p
      → j < 512
      → c + 8 * j ≢ cur + 8 * i
      → hung words page cur i entry (c + 8 * j) ≡ words (c + 8 * j)
  hung-elsewhere c p j e lt ne =
      let apart = not_fresh c p e in
      let at = owned.aligned c p e in
      let away : (c + 8 * j == cur + 8 * i) ≡ false = ground arith in
      rw away (zero_loop-outside 512 0 page words (c + 8 * j) (λ j' le lt' is. omega arith))

  hung-Empty : Empty page (hung words page cur i entry)
  unfolding Empty
  hung-Empty j lt =
      let apart = not_fresh cur path is_table in
      let at = owned.aligned cur path is_table in
      let away : (page + 8 * j == cur + 8 * i) ≡ false = ground arith in
      rw away (zero_loop-inside 512 0 page words j (omega arith) (omega arith))

  hung-here : hung words page cur i entry (cur + 8 * i) ≡ entry
  hung-here = ground arith

  same_slot :
      (c : ℕ) (p : List ℕ) (j : ℕ)
      → own c ≡ some p
      → j < 512
      → c + 8 * j ≡ cur + 8 * i
      → (p ≡ path) × (j ≡ i)
  same_slot c p j e lt is =
      let at = owned.aligned c p e in
      let at' = owned.aligned cur path is_table in
      let same : c ≡ cur = omega arith in let there = ap own same in (cc, omega arith)

  -- no entry of any address changes
  pub hung-entry_at :
      (infos : List PtInfo) (c : ℕ) (p : List ℕ) (addr : ℕ)
      → own c ≡ some p
      → length p + length infos ≡ 4
      → Nine infos
      → Along infos p addr
      → entry_at infos c addr (hung words page cur i entry) ≡ entry_at infos c addr words
  unfolding entry_at
  hung-entry_at [] c p addr e len nine along = refl
  hung-entry_at (info ∷ []) c p addr e len nine along =
      hung-elsewhere c p (indexof addr info) e (indexof-small addr info nine.0) (λ is.
        let (same, at) = same_slot c p (indexof addr info) e (indexof-small addr info nine.0) is in
        let n = ap (λ (l : List ℕ). length l) same in omega arith)
  hung-entry_at (info ∷ next ∷ infos) c p addr e len nine along =
      elim (ℕ_discrete (c + 8 * indexof addr info) (cur + 8 * i)) [
        | yes here ↦
            (let w0 : is_present (words (c + 8 * indexof addr info)) ≡ false =
                subst (λ a. is_present (words a) ≡ false) (sym here) missing in
              let w1 : hung words page cur i entry (c + 8 * indexof addr info) ≡ entry =
                subst (λ a. hung words page cur i entry a ≡ entry) (sym here) hung-here in
              let after =
                entry_at-step info next infos c addr (hung words page cur i entry) entry w1 in
              let none_there =
                entry_at-Empty (next ∷ infos) page addr (hung words page cur i entry) nine.1
                  hung-Empty in
              let before = entry_at-step info next infos c addr words _ refl in
              let after' : (if is_present entry
                    then entry_at (next ∷ infos) (baseof entry) addr (hung words page cur i entry)
                    else 0)
                  ≡ 0 =
                rw (entry_present, entry_base) none_there in
              let before' : (if is_present (words (c + 8 * indexof addr info))
                    then entry_at (next ∷ infos) (baseof (words (c + 8 * indexof addr info))) addr
                        words
                    else 0)
                  ≡ 0 =
                rw w0 refl in
              (after ∙ after') ∙ sym (before ∙ before'))
        | no away ↦
            let at = indexof-small addr info nine.0 in
            let kept = hung-elsewhere c p (indexof addr info) e at away in
            let after = entry_at-step info next infos c addr (hung words page cur i entry) _ kept in
            let before = entry_at-step info next infos c addr words _ refl in
            after
            ∙ (elim (Bool-cases (is_present (words (c + 8 * indexof addr info)))) [
              | inl present ↦ rw present (
                  hung-entry_at (next ∷ infos) (baseof (words (c + 8 * indexof addr info)))
                    (indexof addr info ∷ p) addr
                    (owned.child c p (indexof addr info) e along.0 (omega arith) at present)
                    (omega arith) nine.1 along.1)
              | inr absent ↦ rw absent refl
            ]
                ∙ sym before)
      ]

  owned_by-old :
      (c : ℕ) (p : List ℕ)
      → (c == page) ≡ false
      → owned_by own page (i ∷ path) c ≡ some p
      → own c ≡ some p
  owned_by-old c p old e = ground arith

  pub owned_by-kept :
      (c : ℕ) (p : List ℕ) → own c ≡ some p → owned_by own page (i ∷ path) c ≡ some p
  owned_by-kept c p e =
      let apart = not_fresh c p e in let old : (c == page) ≡ false = ground arith in rw old e

  zero_missing : (v : ℕ) → v ≡ 0 → is_present v ≡ true → ⊥
  zero_missing v e h = ground arith

  pub hung-Owned : Owned (owned_by own page (i ∷ path)) (hung words page cur i entry)
  unfolding Empty
  hung-Owned = record {
    aligned = λ c p e. elim (Bool-cases (c == page)) [
      | inl new ↦ let is = (==_iff c page).0 new in omega arith
      | inr old ↦ owned.aligned c p (owned_by-old c p old e)
    ];
    child = λ c p j e mine len lt present. elim (Bool-cases (c == page)) [
      | inl new ↦
          let is = (==_iff c page).0 new in
          let zeros = hung-Empty j lt in
          let z : hung words page cur i entry (c + 8 * j) ≡ 0 =
            subst (λ a. hung words page cur i entry (a + 8 * j) ≡ 0) (sym is) zeros in
          absurd (zero_missing _ z present)
      | inr old ↦
          let e' = owned_by-old c p old e in
          elim (ℕ_discrete (c + 8 * j) (cur + 8 * i)) [
            | yes here ↦
                let (same, at) = same_slot c p j e' lt here in
                let self : (page == page) ≡ true = ground arith in
                let w1 : hung words page cur i entry (c + 8 * j) ≡ entry =
                  subst (λ a. hung words page cur i entry a ≡ entry) (sym here) hung-here in
                let there : owned_by own page (i ∷ path) page ≡ some (j ∷ p) =
                  rw (self, same, at) refl in
                subst (λ v. owned_by own page (i ∷ path) (baseof v) ≡ some (j ∷ p)) (sym w1)
                  (subst (λ b. owned_by own page (i ∷ path) b ≡ some (j ∷ p)) (sym entry_base)
                    there)
            | no away ↦
                let kept = hung-elsewhere c p j e' lt away in
                let there =
                  owned.child c p j e' mine len lt
                    (subst (λ v. is_present v ≡ true) kept present) in
                subst (λ v. owned_by own page (i ∷ path) (baseof v) ≡ some (j ∷ p)) (sym kept)
                  (owned_by-kept (baseof (words (c + 8 * j))) (j ∷ p) there)
          ]
    ];
  }
