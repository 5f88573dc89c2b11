-- ===== src/Sperf/Totals.antt =====
-- `parent_process` of M5-sperf/sperf.c: no array overflows, and the times are added up for each name,
-- whatever the order in which `qsort` leaves the statistics in between.
use nju_os_workbench.Sperf.{Doubles, SyscallLog, SyscallStats, done}
unfoldable use nju_os_workbench.Sperf.{grown, update_stats, add_time, same_name}
use nju_os_workbench.Sperf.Stats.{
  same_name_eq, same_name_self, add_time-cases, add_time-credited, add_time-none, time_of-append,
}
unfoldable use nju_os_workbench.Sperf.Stats.{time_of, credited}
use mathlib.Core.List.{Permᴰ}
use mathlib.Core.List.Permᴰ.{nil, cons, swap, trans}
use nju_os_workbench.Base.{
  ℕ, suc, ◌≤◌, ◌≡◌, refl, sym, ap, ◌∙◌, subst, inl, inr, Bool, true, false, none, some, List, [],
  ◌∷◌, ◌++◌, arith, ltb, ◌==◌, if◌then◌else◌, Bool-cases, Option-cases, length, length-append,
}

-- Each name stands in the statistics once.
unfoldable pub Distinct : {D : Type 0} → List (SyscallLog D) → Type 0
Distinct [] = Unit
Distinct (x ∷ logs) = (time_of logs x.name ≡ none) × Distinct logs

pub record WellFormed {D : Type 0} (stats : SyscallStats D) : Type 0 where
  pub fits : length stats.logs ≤ stats.capacity
  pub distinct : Distinct stats.logs

same_name-false : (a b : List ℕ) → same_name a b ≡ false → same_name b a ≡ false
same_name-false a b h = elim (Bool-cases (same_name b a)) [
  | inl same ↦
      let back = subst (λ m. same_name m b ≡ true) (same_name_eq b a same) (same_name_self b) in cc
  | inr differ ↦ differ
]

module _ {D : Type 0} (double : Doubles D) where
  credited-other :
      (x log : SyscallLog D)
      → same_name x.name log.name ≡ false
      → credited double log x.name none ≡ none
  unfolding credited
  credited-other x log differ = rw (same_name-false x.name log.name differ) refl

  add_time-Distinct :
      (logs logs' : List (SyscallLog D)) (log : SyscallLog D)
      → add_time double logs log ≡ some logs'
      → Distinct logs
      → Distinct logs' × (length logs' ≡ length logs)
  unfolding Distinct add_time
  add_time-Distinct [] logs' log e h = cc
  add_time-Distinct (x ∷ logs) logs' log e h = elim (add_time-cases double x log logs logs' e) [
    | inl (same, is) ↦ rw is ((h.0, h.1), refl)
    | inr (differ, rest, found, is) ↦
        let (distinct, n) = add_time-Distinct logs rest log found h.1 in
        let kept = add_time-credited double logs rest log x.name found in
        let none_here = ap (credited double log x.name) h.0 in
        rw is ((kept ∙ none_here ∙ credited-other x log differ, distinct), ap suc n)
  ]

  append-Distinct :
      (logs : List (SyscallLog D)) (log : SyscallLog D)
      → time_of logs log.name ≡ none
      → Distinct logs
      → Distinct (logs ++ log ∷ [])
  unfolding Distinct time_of
  append-Distinct [] log e h = (refl, tt)
  append-Distinct (x ∷ logs) log e h = elim (Bool-cases (same_name x.name log.name)) [
    | inl same ↦ absurd (ground arith)
    | inr differ ↦
        let rest : time_of logs log.name ≡ none = ground arith in
        (
          time_of-append double logs log x.name rest
              ∙ ap (credited double log x.name) h.0
              ∙ credited-other x log differ,
          append-Distinct logs log rest h.1,
        )
  ]

  grown-room :
      (stats : SyscallStats D)
      → length stats.logs ≤ stats.capacity
      → (ltb (length stats.logs) (grown stats) ≡ true) × (stats.capacity ≤ grown stats)
  unfolding grown
  grown-room stats fits = (ground arith, ground arith)

  -- With enough memory `update_stats` writes inside the array.
  pub update_stats-credited :
      (realloc : ℕ → Bool) (log : SyscallLog D) (stats : SyscallStats D)
      → ((n : ℕ) → realloc n ≡ true)
      → WellFormed stats
      → (stats' : SyscallStats D) × (update_stats double realloc log stats ≡ done stats')
        × WellFormed stats'
        × ((n : List ℕ) → time_of stats'.logs n ≡ credited double log n (time_of stats.logs n))
  unfolding update_stats
  update_stats-credited realloc log stats enough ok =
      elim (Option-cases (add_time double stats.logs log)) [
        | inl missing ↦
            let room = grown-room stats ok.fits in
            let absent = add_time-none double stats.logs log missing in
            (
              record { logs = stats.logs ++ log ∷ []; capacity = grown stats },
              elim (Bool-cases (length stats.logs == stats.capacity)) [
                | inl full ↦ rw (missing, full, enough (grown stats), room.0, update_stats) refl
                | inr spare ↦ rw (missing, spare, room.0, update_stats) refl
              ],
              record {
                fits = ground (arith, room.0, length-append stats.logs (log ∷ []));
                distinct = append-Distinct stats.logs log absent ok.distinct;
              },
              λ n. time_of-append double stats.logs log n absent,
            )
        | inr (logs, found) ↦
            let (distinct, n) = add_time-Distinct stats.logs logs log found ok.distinct in
            (
              record stats { logs = logs },
              rw (found, update_stats) refl,
              record { fits = omega (arith, ok.fits); distinct = distinct },
              λ m. add_time-credited double stats.logs logs log m found,
            )
      ]

abbrev SortedAlike : {D : Type 0} → (a b : List (SyscallLog D)) → Type 0
SortedAlike a b = Distinct b × (length b ≡ length a) × ((n : List ℕ) → time_of b n ≡ time_of a n)

swap-time_of :
    {D : Type 0} (a b : SyscallLog D) (l : List (SyscallLog D))
    → Distinct (a ∷ b ∷ l)
    → SortedAlike (a ∷ b ∷ l) (b ∷ a ∷ l)
unfolding Distinct time_of
swap-time_of a b l h = elim (Bool-cases (same_name b.name a.name)) [
  | inl same ↦ absurd (let first = h.0 in ground arith)
  | inr differ ↦
      let first = h.0 in
      (
        (rw (same_name-false b.name a.name differ) h.1.0, (ground arith, h.1.1)),
        refl,
        λ n. elim (Bool-cases (same_name a.name n)) [
          | inl here ↦ elim (Bool-cases (same_name b.name n)) [
            | inl both ↦
                let q = same_name_eq a.name n here in
                let back = subst (λ m. same_name b.name m ≡ true) (sym q) both in
                absurd (ground arith)
            | inr away ↦ rw (here, away) refl
          ]
          | inr away ↦ rw away refl
        ],
      )
]

-- sorting changes nothing of it
pub Permᴰ-time_of :
    {D : Type 0} {a b : List (SyscallLog D)} → Permᴰ a b → Distinct a → SortedAlike a b
unfolding Distinct time_of
Permᴰ-time_of nil h = (tt, refl, λ n. refl)
Permᴰ-time_of (cons {a} {b} {l₁} {l₂} e p) h =
    let (distinct, len, same) = Permᴰ-time_of p h.1 in
    subst (λ x. SortedAlike (a ∷ l₁) (x ∷ l₂)) e
      (
        (same a.name ∙ h.0, distinct),
        ap suc len,
        λ n. ap (λ o. if same_name a.name n then some a.time else o) (same n),
      )
Permᴰ-time_of (swap {a} {b} {a'} {b'} {l} e e') h =
    subst (λ x. SortedAlike (a ∷ b ∷ l) (x ∷ b' ∷ l)) e'
      (subst (λ x. SortedAlike (a ∷ b ∷ l) (b ∷ x ∷ l)) e (swap-time_of a b l h))
Permᴰ-time_of (trans p q) h =
    let (distinct, len, same) = Permᴰ-time_of p h in
    let (distinct', len', same') = Permᴰ-time_of q distinct in
    (distinct', len' ∙ len, λ n. same' n ∙ same n)
