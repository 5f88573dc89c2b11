-- ===== src/Sperf/Tests.antt =====
-- Two lines of strace for M5-sperf/sperf.c, `aX` and `aY`, where the second character is the time,
-- with the numbers in the place of `double`.
use mathlib.Core.List.{replicate}
use nju_os_workbench.Sperf.{
  compare, Doubles, SyscallLog, SyscallStats, Matches, Item, done, parent_process, output,
}
use nju_os_workbench.Sperf.Stats.{time_of}
unfoldable use nju_os_workbench.Sperf.Stats.{credited}
unfoldable use nju_os_workbench.Sperf.Parent.{spent, heard}
unfoldable use nju_os_workbench.Sperf.{exec_path, extract, same_name}
use nju_os_workbench.Sperf.Child.{exec_path-none_iff}
use nju_os_workbench.Sperf.Parent.{parent_process-spent}
use mathlib.Core.List.Permᴰ
use nju_os_workbench.Base.{
  ℕ, ◌+◌, ◌-◌, ◌*◌, ◌/◌, ◌≤◌, ◌≡◌, refl, ◌↔◌, Bool, true, Option, none, some, List, [], ◌∷◌, ◌++◌,
  ltb, length,
}

abbrev double : Doubles ℕ
double = record {
  zero_double = 0;
  hundred = 100;
  add_double = λ a b. a + b;
  sub_double = λ a b. a - b;
  mul_double = λ a b. a * b;
  div_double = λ a b. a / b;
  is_positive = λ a. ltb 0 a;
  to_int = λ a. a;
}

abbrev regexec : List ℕ → Option Matches
regexec line = some (record { name_so = 0; name_eo = 1; time_so = 1; time_eo = 2 })

abbrev atof : List ℕ → ℕ
atof [] = 0
atof (c ∷ cs) = c - 48

abbrev qsort : (SyscallLog ℕ → SyscallLog ℕ → Bool) → List (SyscallLog ℕ) → List (SyscallLog ℕ)
qsort compare l = l

abbrev lines : List (List ℕ)
lines = (b'a' ∷ b'3' ∷ []) ∷ (b'a' ∷ b'4' ∷ []) ∷ []

parent_process-spent_example :
    (stats : SyscallStats ℕ) × (printed : List (Item ℕ)) × (parent_process double qsort regexec atof
        (λ n. true)
        (λ k. k)
        lines
      ≡ done (printed ++ (output double qsort stats true).1))
    × ((n : List ℕ)
        → time_of stats.logs n ≡ spent double regexec atof (heard double regexec atof lines) n none)
unfolding extract
parent_process-spent_example =
    parent_process-spent double regexec atof qsort (λ n. true) (λ k. k) (λ l. Permᴰ.refl l)
      (λ n. refl) lines ((_, refl), ((_, refl), tt))

-- the two times of `a` add up
spent_sum : spent double regexec atof (heard double regexec atof lines) (b'a' ∷ []) none ≡ some 7
unfolding spent heard extract credited same_name
spent_sum = refl

abbrev stats : SyscallStats ℕ
stats = record { logs = record { name = b'a' ∷ []; time = 7 } ∷ []; capacity = 10 }

abbrev long_path : List ℕ
long_path = replicate 1019 b'x'

exec_path-none_iff_example : (exec_path long_path ≡ none) ↔ (1019 ≤ length long_path)
exec_path-none_iff_example = exec_path-none_iff long_path
