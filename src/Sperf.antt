-- ===== src/Sperf.antt =====
-- M5-sperf/sperf.c. `D` is `double` with the operations that the program uses; what `regexec`,
-- `atof`, `realloc`, `qsort` and `clock` return are parameters. A string is the list of its
-- characters before the NUL.
pub mod Stats
pub mod Totals
pub mod Parent
pub mod Child
mod Tests
use nju_os_workbench.Base.{
  ℕ, ◌+◌, ◌-◌, ◌*◌, ◌/◌, Bool, true, false, not, ◌&&◌, Option, none, some, List, [], ◌∷◌, ◌++◌, ltb,
  ◌==◌, if◌then◌else◌, length, take, drop, replicate,
}

-- the operations of `double`, and the conversion to `int`
pub record Doubles (D : Type 0) : Type 0 where
  pub zero_double : D
  pub hundred : D
  pub add_double : D → D → D
  pub sub_double : D → D → D
  pub mul_double : D → D → D
  pub div_double : D → D → D
  pub is_positive : D → Bool
  pub to_int : D → ℕ

-- A call ends well, with a failed `assert`, or with a write behind an array.
pub data Outcome (A : Type 0) : Type 0 where
  done : A → Outcome A
  failed : Outcome A
  overflow : Outcome A

-- where `extract` finds the name and the time in the line: `rm_so` and `rm_eo` of the two matches
pub record Matches : Type 0 where
  pub name_so : ℕ
  pub name_eo : ℕ
  pub time_so : ℕ
  pub time_eo : ℕ

-- `strcmp(a, b) == 0`
unfoldable pub same_name : List ℕ → List ℕ → Bool
same_name [] [] = true
same_name [] (d ∷ b) = false
same_name (c ∷ a) [] = false
same_name (c ∷ a) (d ∷ b) = (c == d) && same_name a b

pub record SyscallLog (D : Type 0) : Type 0 where
  pub name : List ℕ
  pub time : D

-- `count` is the length of `logs`.
pub record SyscallStats (D : Type 0) : Type 0 where
  pub logs : List (SyscallLog D)
  pub capacity : ℕ

-- what `output` prints
pub data Item (D : Type 0) : Type 0 where
  total_line : D → Item D
  entry : (name : List ℕ) → (ratio : ℕ) → Item D
  dots : Item D
  nul : Item D
  separator : Item D

-- `len` characters of the line, with a NUL behind them, in an array of `size`
abbrev pub copied : (size so len : ℕ) → List ℕ → Option (List ℕ)
copied size so len line = if ltb len size then some (take len (drop so line)) else none

-- the capacity with room for one more
unfoldable pub grown : {D : Type 0} → SyscallStats D → ℕ
grown stats =
    if length stats.logs == stats.capacity
    then if stats.capacity == 0 then 10 else stats.capacity * 2
    else stats.capacity

module _ {D : Type 0} (double : Doubles D) where
  unfoldable pub extract :
      (regexec : List ℕ → Option Matches)
      → (atof : List ℕ → D) → List ℕ
      → Outcome (Option (SyscallLog D))
  extract regexec atof line = elim (regexec line) [
    | none ↦ done none
    | some found ↦ elim (copied 64 found.name_so (found.name_eo - found.name_so) line) [
      | none ↦ overflow
      | some name ↦ elim (copied 16 found.time_so (found.time_eo - found.time_so) line) [
        | none ↦ overflow
        | some time_str ↦ done (some (record { name = name; time = atof time_str }))
      ]
    ]
  ]

  -- the loop of `update_stats`: the logs, when the name is there
  unfoldable pub add_time : List (SyscallLog D) → SyscallLog D → Option (List (SyscallLog D))
  unfolding same_name
  add_time [] log = none
  add_time (x ∷ logs) log =
      let rest = add_time logs log in
      if same_name x.name log.name
      then some (record x { time = double.add_double x.time log.time } ∷ logs)
      else elim rest [ none ↦ none | some logs' ↦ some (x ∷ logs') ]

  -- `realloc n` says whether there is memory for `n` logs.
  unfoldable pub update_stats :
      (realloc : ℕ → Bool) → SyscallLog D → SyscallStats D → Outcome (SyscallStats D)
  unfolding add_time
  update_stats realloc log stats = elim (add_time stats.logs log) [
    | some logs ↦ done (record stats { logs = logs })
    | none ↦
        if (length stats.logs == stats.capacity) && not (realloc (grown stats))
        then failed
        else if ltb (length stats.logs) (grown stats)
        then done (record { logs = stats.logs ++ log ∷ []; capacity = grown stats })
        else overflow
  ]

  -- whether `compare` returns 1; it returns -1 if not
  unfoldable pub compare : SyscallLog D → SyscallLog D → Bool
  compare a b = double.is_positive (double.sub_double b.time a.time)

  unfoldable pub total_time : D → List (SyscallLog D) → D
  total_time total [] = total
  total_time total (log ∷ logs) = total_time (double.add_double total log.time) logs

  -- the loop over the logs from the `i`th on
  unfoldable pub entries : (total : D) → ℕ → List (SyscallLog D) → List (Item D)
  entries total i [] = []
  entries total i (log ∷ logs) =
      let rest = entries total (i + 1) logs in
      let ratio =
        double.to_int (double.mul_double (double.div_double log.time total) double.hundred) in
      entry log.name ratio ∷ (if i == 4 then dots ∷ [] else rest)

  module _
      (qsort : (SyscallLog D → SyscallLog D → Bool)
        → List (SyscallLog D)
        → List (SyscallLog D)) where
    -- the statistics, sorted, and what is printed
    unfoldable pub output : SyscallStats D → (is_end : Bool) → SyscallStats D × List (Item D)
    unfolding compare total_time entries
    output stats is_end =
        let logs = qsort compare stats.logs in
        let total = total_time double.zero_double logs in
        (
          record stats { logs = logs },
          total_line total ∷ entries total 0 logs
              ++ replicate 80 nul
              ++ (if is_end then [] else separator ∷ []),
        )

    -- the loop of `parent_process`; `clock k` is what the call of `clock` behind `k` others returns
    unfoldable pub read_loop :
        (regexec : List ℕ → Option Matches)
        → (atof : List ℕ → D) → (realloc : ℕ → Bool) → (clock : ℕ → ℕ) → (lines : List (List ℕ))
        → (calls prev : ℕ) → SyscallStats D
        → List (Item D)
        → Outcome (SyscallStats D × List (Item D))
    unfolding extract update_stats output
    read_loop regexec atof realloc clock [] calls prev stats printed = done (stats, printed)
    read_loop regexec atof realloc clock (line ∷ lines) calls prev stats printed =
        elim (extract regexec atof line) [
          | failed ↦ failed
          | overflow ↦ overflow
          | done none ↦ read_loop regexec atof realloc clock lines calls prev stats printed
          | done (some log) ↦ elim (update_stats realloc log stats) [
            | failed ↦ failed
            | overflow ↦ overflow
            | done stats' ↦
                let now = clock calls in
                let (sorted, items) = output stats' false in
                if ltb 100 ((now - prev) * 1000 / 1000000)
                then read_loop regexec atof realloc clock lines (calls + 1) now sorted
                    (printed ++ items)
                else read_loop regexec atof realloc clock lines (calls + 1) prev stats' printed
          ]
        ]

    unfoldable pub parent_process :
        (regexec : List ℕ → Option Matches)
        → (atof : List ℕ → D) → (realloc : ℕ → Bool) → (clock : ℕ → ℕ) → (lines : List (List ℕ))
        → Outcome (List (Item D))
    unfolding read_loop output
    parent_process regexec atof realloc clock lines =
        elim (read_loop regexec atof realloc clock lines 1 (clock 0)
          (record { logs = []; capacity = 0 }) []) [
            | failed ↦ failed
            | overflow ↦ overflow
            | done (stats, printed) ↦ done (printed ++ (output stats true).1)
          ]

-- the arguments that `child_process` gives to strace
unfoldable pub exec_argv : (memfd_path : List ℕ) → (argv : List (List ℕ)) → List (List ℕ)
exec_argv memfd_path argv =
    (b's' ∷ b't' ∷ b'r' ∷ b'a' ∷ b'c' ∷ b'e' ∷ [])
    ∷ (b'-' ∷ b'T' ∷ [])
    ∷ (b'-' ∷ b'o' ∷ [])
    ∷ memfd_path
    ∷ drop 1 argv

-- `path_str`; `strncat` may write the NUL behind its 1024 bytes
unfoldable pub exec_path : (path : List ℕ) → Option (List ℕ)
exec_path path =
    let path_str = b'P' ∷ b'A' ∷ b'T' ∷ b'H' ∷ b'=' ∷ take 1019 path in
    if ltb (length path_str) 1024 then some path_str else none
