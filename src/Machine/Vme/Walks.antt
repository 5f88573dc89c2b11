-- ===== src/Machine/Vme/Walks.antt =====
-- `ptwalk` of abstract-machine/am/src/x86/qemu/vme.c changes no entry of any address.
use nju_os_workbench.Base.{
  ℕ, ◌+◌, ◌*◌, ◌%◌, ◌<◌, ◌≡◌, ◌≢◌, refl, sym, ap, ◌∙◌, subst, true, false, Option, none, some, List,
  [], ◌∷◌, arith, ◌==◌, length,
}
use nju_os_workbench.Machine.Vme.Owners.{
  Along, hung-elsewhere, owned_by-kept, Owned, owned_by, hung, hung-entry_at,
}
use nju_os_workbench.Machine.Vme.{
  PtInfo, Machine, ok, indexof, baseof, is_present, or_flags, ℕ, List, ◌+◌, ◌%◌, ◌∷◌,
}
unfoldable use nju_os_workbench.Machine.Vme.{walk, pgallocz}
unfoldable use nju_os_workbench.Machine.Vme.Entries.{entry_at}
use nju_os_workbench.Machine.Vme.Entries.{Nine, zero_loop-outside}

pub or_flags-table :
    (page : ℕ)
    → page % 4096 ≡ 0
    → (is_present (or_flags page 7) ≡ true) × (baseof (or_flags page 7) ≡ page)
or_flags-table page e =
    let z : page % 8 ≡ 0 = omega arith in (rw z (ground arith), rw z (omega arith))

abbrev pub Avoids : ℕ → List ℕ → Type 0
Avoids q [] = Unit
Avoids q (r ∷ rs) = (r ≢ q) × Avoids q rs

-- What `pgalloc` returns are pages that are no tables yet, each but once, and not that of `&as->ptr`.
abbrev pub Free : (space : ℕ) → (ℕ → Option (List ℕ)) → List ℕ → Type 0
Free space own [] = Unit
Free space own (q ∷ qs) =
    (q % 4096 ≡ 0) × (0 < q) × (own q ≡ none) × (q ≢ baseof space) × Avoids q qs × Free space own qs

pub Free-owned_by :
    (space : ℕ) (own : ℕ → Option (List ℕ)) (q : ℕ) (path qs : List ℕ)
    → Avoids q qs
    → Free space own qs
    → Free space (owned_by own q path) qs
Free-owned_by space own q path [] avoids free = tt
Free-owned_by space own q path (r ∷ rs) avoids (at, pos, none_there, far, others, free) =
    let away : (r == q) ≡ false = let ne = avoids.0 in ground arith in
    (at, pos, rw away none_there, far, others, Free-owned_by space own q path rs avoids.1 free)

-- The tables have grown from `own` and `words` to `own'` and `words'`, and no entry has changed.
pub record Grown (space : ℕ) (own : ℕ → Option (List ℕ)) (words : ℕ → ℕ)
    (own' : ℕ → Option (List ℕ)) (words' : ℕ → ℕ) : Type 0 where
  pub kept : (c : ℕ) (p : List ℕ) → own c ≡ some p → own' c ≡ some p
  pub same :
      (infos : List PtInfo) (c : ℕ) (p : List ℕ) (addr : ℕ)
      → own c ≡ some p
      → length p + length infos ≡ 4
      → Nine infos
      → Along infos p addr
      → entry_at infos c addr words' ≡ entry_at infos c addr words
  pub stays :
      (c : ℕ) (p : List ℕ) (j : ℕ)
      → own c ≡ some p
      → j < 512
      → is_present (words (c + 8 * j)) ≡ true
      → words' (c + 8 * j) ≡ words (c + 8 * j)
  pub far : own (baseof space) ≡ none → words' space ≡ words space
  pub unowned : own (baseof space) ≡ none → own' (baseof space) ≡ none

pub Grown-refl :
    (space : ℕ) (own : ℕ → Option (List ℕ)) (words : ℕ → ℕ) → Grown space own words own words
Grown-refl space own words = record {
  kept = λ c p e. e;
  same = λ infos c p addr e len nine along. refl;
  stays = λ c p j e lt h. refl;
  far = λ h. refl;
  unowned = λ h. h;
}

pub Grown-trans :
    {space : ℕ} {own own' own'' : ℕ → Option (List ℕ)} {words words' words'' : ℕ → ℕ}
    → Grown space own words own' words'
    → Grown space own' words' own'' words''
    → Grown space own words own'' words''
Grown-trans g h = record {
  kept = λ c p e. h.kept c p (g.kept c p e);
  same = λ infos c p addr e len nine along.
      h.same infos c p addr (g.kept c p e) len nine along ∙ g.same infos c p addr e len nine along;
  stays = λ c p j e lt present.
      let first = g.stays c p j e lt present in
      h.stays c p j (g.kept c p e) lt (subst (λ v. is_present v ≡ true) (sym first) present)
      ∙ first;
  far = λ e. h.far (g.unowned e) ∙ g.far e;
  unowned = λ e. h.unowned (g.unowned e);
}

-- The slot of an address is found with no table missing.
abbrev pub Reaches : List PtInfo → (cur addr : ℕ) → (ℕ → ℕ) → ℕ → Type 0
Reaches [] cur addr words slot = ⊥
Reaches (info ∷ []) cur addr words slot = slot ≡ cur + 8 * indexof addr info
Reaches (info ∷ next ∷ infos) cur addr words slot =
    (is_present (words (cur + 8 * indexof addr info)) ≡ true)
    × Reaches (next ∷ infos) (baseof (words (cur + 8 * indexof addr info))) addr words slot

-- What `walk` is to do.
abbrev pub Walked :
    (space : ℕ) → List PtInfo → (cur addr : ℕ) → (ℕ → Option (List ℕ)) → Machine → Type 0
Walked space infos cur addr own m =
    (slot : ℕ) × (m' : Machine) × (own' : ℕ → Option (List ℕ)) × (walk infos cur addr 6 m
      ≡ ok slot m')
    × Grown space own m.words own' m'.words
    × Owned own' m'.words
    × Free space own' m'.pages
    × Reaches infos cur addr m'.words slot

pub walk-there :
    (info next : PtInfo) (infos : List PtInfo) (cur addr : ℕ) (m : Machine)
    → is_present (m.words (cur + 8 * indexof addr info)) ≡ true
    → walk (info ∷ next ∷ infos) cur addr 6 m
      ≡ walk (next ∷ infos) (baseof (m.words (cur + 8 * indexof addr info))) addr 6 m
unfolding walk
walk-there info next infos cur addr m present = rw (present, walk) refl

pub walk-missing :
    (info next : PtInfo) (infos : List PtInfo) (cur addr q : ℕ) (qs : List ℕ) (m : Machine)
    → is_present (m.words (cur + 8 * indexof addr info)) ≡ false
    → m.pages ≡ q ∷ qs
    → 0 < q
    → walk (info ∷ next ∷ infos) cur addr 6 m
      ≡ walk
          (next ∷ infos)
          q
          addr
          6
          (record m { words = hung m.words q cur (indexof addr info) (or_flags q 7); pages = qs })
unfolding walk pgallocz
walk-missing info next infos cur addr q qs m missing e pos =
    let test : (q == 0) ≡ false = ground arith in rw (missing, e, test, walk, pgallocz) refl

module _ (space : ℕ) where
  pub hung-Grown :
      (own : ℕ → Option (List ℕ)) (words : ℕ → ℕ) (page cur i entry : ℕ) (path : List ℕ)
      → Owned own words
      → own cur ≡ some path
      → length path < 3
      → i < 512
      → is_present (words (cur + 8 * i)) ≡ false
      → own page ≡ none
      → page % 4096 ≡ 0
      → is_present entry ≡ true
      → baseof entry ≡ page
      → page ≢ baseof space
      → Grown space own words (owned_by own page (i ∷ path)) (hung words page cur i entry)
  hung-Grown own words page cur i entry path owned is_table inner small missing fresh at on base
        far =
      record {
        kept = λ c p e.
            owned_by-kept own words page cur i entry path owned is_table inner small missing fresh
              at on base c p e;
        same = λ infos c p addr e len nine along.
            hung-entry_at own words page cur i entry path owned is_table inner small missing fresh
              at on base infos c p addr e len nine along;
        stays = λ c p j e lt present.
            hung-elsewhere own words page cur i entry path owned is_table inner small missing fresh
              at on base c p j e lt
              (λ is. let there = subst (λ a. is_present (words a) ≡ true) is present in cc);
        far = λ e.
            (let aligned = owned.aligned cur path is_table in
              let ne : cur ≢ baseof space = λ is. (let t = ap own is in cc) in
              let apart : space ≢ cur + 8 * i = λ is. ne (omega arith) in
              let away : (space == cur + 8 * i) ≡ false = ground arith in
              rw away (zero_loop-outside 512 0 page words space (λ j le lt is. far (omega arith))));
        unowned = λ e.
            (let away : (baseof space == page) ≡ false =
                (let ne : baseof space ≢ page = λ is. far (sym is) in ground arith) in
              rw away e);
      }
