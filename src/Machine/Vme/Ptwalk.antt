-- ===== src/Machine/Vme/Ptwalk.antt =====
-- `ptwalk` of abstract-machine/am/src/x86/qemu/vme.c with enough pages: it finds the slot of an address.
use nju_os_workbench.Base.{
  ℕ, suc, ◌+◌, ◌*◌, ◌≤◌, ◌<◌, ◌≡◌, refl, sym, ap, ◌∙◌, subst, ◌⊎◌, inl, inr, true, Option, some,
  List, [], ◌∷◌, arith, Bool-cases, length, ◌≢◌, ◌==◌, false,
}
use nju_os_workbench.Machine.Vme.{
  PtInfo, Machine, put, indexof, baseof, is_present, or_flags, zero_loop,
}
unfoldable use nju_os_workbench.Machine.Vme.{walk}
use nju_os_workbench.Machine.Vme.Entries.{Nine, indexof-small}
use nju_os_workbench.Machine.Vme.Owners.{Along, Owned, owned_by, hung, hung-Owned}
use nju_os_workbench.Machine.Vme.Walks.{
  Free, Free-owned_by, Grown-refl, Grown-trans, Reaches, Walked, walk-there, walk-missing,
  hung-Grown, or_flags-table,
}

pages-cases : (l : List ℕ) → (l ≡ []) ⊎ ((q : ℕ) × (qs : List ℕ) × (l ≡ q ∷ qs))
pages-cases [] = inl refl
pages-cases (q ∷ qs) = inr (q, qs, refl)

pub put_self : (a v : ℕ) (words : ℕ → ℕ) → put a v words a ≡ v
put_self a v words = ground arith

pub put-other : (a b v : ℕ) (words : ℕ → ℕ) → a ≢ b → put b v words a ≡ words a
put-other a b v words ne = let away : (a == b) ≡ false = ground arith in rw away refl

owned_by_self :
    (own : ℕ → Option (List ℕ)) (q : ℕ) (path : List ℕ) → owned_by own q path q ≡ some path
owned_by_self own q path = ground arith

pub Reaches-cons :
    (info next : PtInfo) (infos : List PtInfo) (cur addr : ℕ) (words : ℕ → ℕ) (slot entry base : ℕ)
    → words (cur + 8 * indexof addr info) ≡ entry
    → is_present entry ≡ true
    → baseof entry ≡ base
    → Reaches (next ∷ infos) base addr words slot
    → Reaches (info ∷ next ∷ infos) cur addr words slot
Reaches-cons info next infos cur addr words slot entry base is on at reaches = (
  subst (λ v. is_present v ≡ true) (sym is) on,
  subst (λ b. Reaches (next ∷ infos) b addr words slot) (sym (ap baseof is ∙ at)) reaches,
)

module _ (space : ℕ) where
  pub walk-Walked :
      (infos : List PtInfo) (cur addr : ℕ) (m : Machine) (own : ℕ → Option (List ℕ)) (path : List ℕ)
      → own cur ≡ some path
      → length path + length infos ≡ 4
      → length path < 4
      → Nine infos
      → Along infos path addr
      → Owned own m.words
      → Free space own m.pages
      → length infos ≤ suc (length m.pages)
      → Walked space infos cur addr own m
  unfolding walk
  walk-Walked [] cur addr m own path e len inner nine along owned free enough = absurd (omega arith)
  walk-Walked (info ∷ []) cur addr m own path e len inner nine along owned free enough =
      (cur + 8 * indexof addr info, m, own, refl, Grown-refl space own m.words, owned, free, refl)
  walk-Walked (info ∷ next ∷ infos) cur addr m own path e len inner nine along owned free enough =
      let small = indexof-small addr info nine.0 in
      elim (Bool-cases (is_present (m.words (cur + 8 * indexof addr info)))) [
        | inl present ↦
            let (slot, m', own', run, grown, owned', free', reaches) =
              walk-Walked (next ∷ infos) (baseof (m.words (cur + 8 * indexof addr info))) addr m own
                (indexof addr info ∷ path)
                (owned.child cur path (indexof addr info) e along.0 (omega arith) small present)
                (omega arith) (omega arith) nine.1 along.1 owned free (omega arith) in
            let stays = grown.stays cur path (indexof addr info) e small present in
            (
              slot,
              m',
              own',
              walk-there info next infos cur addr m present ∙ run,
              grown,
              owned',
              free',
              Reaches-cons info next infos cur addr m'.words slot _ _ stays present refl reaches,
            )
        | inr missing ↦ elim (pages-cases m.pages) [
          | inl none_left ↦ absurd (let n = ap (λ (l : List ℕ). length l) none_left in omega arith)
          | inr (q, qs, is) ↦
              let (at, pos, none_there, far, avoids, rest) = subst (Free space own) is free in
              let (on, base) = or_flags-table q at in
              let i = indexof addr info in
              let n = ap (λ (l : List ℕ). length l) is in
              let grown =
                hung-Grown space own m.words q cur i (or_flags q 7) path owned e (omega arith) small
                  missing none_there at on base far in
              let tables =
                hung-Owned own m.words q cur i (or_flags q 7) path owned e (omega arith) small
                  missing none_there at on base in
              let (slot, m', own', run, grown', owned', free', reaches) =
                walk-Walked (next ∷ infos) q addr
                  (record m { words = hung m.words q cur i (or_flags q 7); pages = qs })
                  (owned_by own q (i ∷ path)) (i ∷ path) (owned_by_self own q (i ∷ path))
                  (omega arith) (omega arith) nine.1 along.1 tables
                  (Free-owned_by space own q (i ∷ path) qs avoids rest) (omega arith) in
              let here = put_self (cur + 8 * i) (or_flags q 7) (zero_loop 512 0 q m.words) in
              let stays =
                grown'.stays cur path i (grown.kept cur path e) small
                  (subst (λ v. is_present v ≡ true) (sym here) on) in
              (
                slot,
                m',
                own',
                walk-missing info next infos cur addr q qs m missing is pos ∙ run,
                Grown-trans grown grown',
                owned',
                free',
                Reaches-cons info next infos cur addr m'.words slot (or_flags q 7) q (stays ∙ here)
                    on base reaches,
              )
        ]
      ]
