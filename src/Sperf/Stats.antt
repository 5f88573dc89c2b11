-- ===== src/Sperf/Stats.antt =====
-- The statistics of M5-sperf/sperf.c: the time that `update_stats` adds up for each name.
use nju_os_workbench.Sperf.{Doubles, SyscallLog}
unfoldable use nju_os_workbench.Sperf.{same_name, add_time}
use nju_os_workbench.Base.{
  ℕ, ◌≡◌, refl, sym, ap, ap₂, ◌∙◌, subst, ◌⊎◌, inl, inr, true, false, Option, none, some, List, [],
  ◌∷◌, ◌++◌, arith, if◌then◌else◌, Bool-cases, Option-cases,
}

pub same_name_self : (a : List ℕ) → same_name a a ≡ true
unfolding same_name
same_name_self [] = refl
same_name_self (c ∷ a) = ground (arith, same_name_self a)

pub same_name_eq : (a b : List ℕ) → same_name a b ≡ true → a ≡ b
unfolding same_name
same_name_eq [] [] h = refl
same_name_eq [] (d ∷ b) h = cc
same_name_eq (c ∷ a) [] h = cc
same_name_eq (c ∷ a) (d ∷ b) h =
    let first : c ≡ d = ground arith in
    let rest : same_name a b ≡ true = ground arith in
    ap₂ (λ (x : ℕ) (y : List ℕ). x ∷ y) first (same_name_eq a b rest)

-- what the statistics say of a name
unfoldable pub time_of : {D : Type 0} → List (SyscallLog D) → List ℕ → Option D
time_of [] n = none
time_of (x ∷ logs) n = if same_name x.name n then some x.time else time_of logs n

module _ {D : Type 0} (double : Doubles D) where
  -- what a log adds to that
  unfoldable pub credited : SyscallLog D → List ℕ → Option D → Option D
  credited log n before =
      if same_name log.name n
      then some (elim before [ none ↦ log.time | some t ↦ double.add_double t log.time ])
      else before

  other_name :
      (x log : SyscallLog D) (n : List ℕ)
      → same_name x.name log.name ≡ false
      → same_name x.name n ≡ true
      → same_name log.name n ≡ false
  other_name x log n differ is = elim (Bool-cases (same_name log.name n)) [
    | inl same ↦
        let a = same_name_eq x.name n is in
        let b = same_name_eq log.name n same in
        let back = subst (λ m. same_name x.name m ≡ true) (a ∙ sym b) (same_name_self x.name) in cc
    | inr other ↦ other
  ]

  pub add_time-cases :
      (x log : SyscallLog D) (logs logs' : List (SyscallLog D))
      → add_time double (x ∷ logs) log ≡ some logs'
      → ((same_name x.name log.name ≡ true)
          × (logs' ≡ record x { time = double.add_double x.time log.time } ∷ logs))
        ⊎ ((same_name x.name log.name ≡ false)
            × (rest : List (SyscallLog D)) × (add_time double logs log ≡ some rest)
            × (logs' ≡ x ∷ rest))
  unfolding add_time
  add_time-cases x log logs logs' e = elim (Bool-cases (same_name x.name log.name)) [
    | inl same ↦ inl (same, ground arith)
    | inr differ ↦ elim (Option-cases (add_time double logs log)) [
      | inl missing ↦ absurd (ground arith)
      | inr (rest, found) ↦ inr (differ, rest, found, ground arith)
    ]
  ]

  -- a name that is there
  pub add_time-credited :
      (logs logs' : List (SyscallLog D)) (log : SyscallLog D) (n : List ℕ)
      → add_time double logs log ≡ some logs'
      → time_of logs' n ≡ credited log n (time_of logs n)
  unfolding time_of credited add_time
  add_time-credited [] logs' log n e = cc
  add_time-credited (x ∷ logs) logs' log n e = elim (add_time-cases x log logs logs' e) [
    | inl (same, is) ↦
        let q = ap (λ m. same_name m n) (same_name_eq x.name log.name same) in
        elim (Bool-cases (same_name x.name n)) [
          | inl here ↦ rw (is, here, sym q ∙ here) refl
          | inr away ↦ rw (is, away, sym q ∙ away) refl
        ]
    | inr (differ, rest, found, is) ↦ elim (Bool-cases (same_name x.name n)) [
      | inl here ↦ rw (is, here, other_name x log n differ here) refl
      | inr away ↦ rw (is, away) (add_time-credited logs rest log n found)
    ]
  ]

  pub add_time-none :
      (logs : List (SyscallLog D)) (log : SyscallLog D)
      → add_time double logs log ≡ none
      → time_of logs log.name ≡ none
  unfolding time_of add_time
  add_time-none [] log e = refl
  add_time-none (x ∷ logs) log e = elim (Bool-cases (same_name x.name log.name)) [
    | inl same ↦ absurd (ground arith)
    | inr differ ↦ elim (Option-cases (add_time double logs log)) [
      | inl missing ↦ rw differ (add_time-none logs log missing)
      | inr (rest, found) ↦ absurd (ground arith)
    ]
  ]

  pub time_of-append :
      (logs : List (SyscallLog D)) (log : SyscallLog D) (n : List ℕ)
      → time_of logs log.name ≡ none
      → time_of (logs ++ log ∷ []) n ≡ credited log n (time_of logs n)
  unfolding time_of credited
  time_of-append [] log n e = refl
  time_of-append (x ∷ logs) log n e = elim (Bool-cases (same_name x.name log.name)) [
    | inl same ↦ absurd (ground arith)
    | inr differ ↦ elim (Bool-cases (same_name x.name n)) [
      | inl here ↦ rw (here, other_name x log n differ here) refl
      | inr away ↦ rw away (time_of-append logs log n (ground arith))
    ]
  ]
