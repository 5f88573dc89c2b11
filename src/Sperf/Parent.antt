-- ===== src/Sperf/Parent.antt =====
-- `parent_process` of M5-sperf/sperf.c: the statistics that it prints at the end.
use nju_os_workbench.Sperf.{
  total_line, separator, nul, total_time, Doubles, SyscallLog, SyscallStats, Matches, Item, entry,
  dots, done, failed, overflow,
}
unfoldable use nju_os_workbench.Sperf.{extract, compare, output, read_loop, parent_process, entries}
unfoldable use nju_os_workbench.Sperf.Stats.{time_of, credited}
unfoldable use nju_os_workbench.Sperf.Totals.{Distinct}
use nju_os_workbench.Sperf.Totals.{WellFormed, update_stats-credited, Permᴰ-time_of}
use mathlib.Core.List.{Permᴰ}
use nju_os_workbench.Base.{
  take, replicate, ℕ, zero, suc, ◌+◌, ◌-◌, ◌*◌, ◌/◌, ◌≡◌, refl, ap, ◌∙◌, inl, inr, Bool, true,
  false, Option, none, some, List, [], ◌∷◌, ◌++◌, map, arith, ltb, ◌==◌, if◌then◌else◌, Bool-cases,
  length,
}

-- The first five logs are printed, and dots behind the fifth.
entries_from :
    {D : Type 0} (double : Doubles D) (total : D) (i k : ℕ) (logs : List (SyscallLog D))
    → i + k ≡ 4
    → entries double total i logs
      ≡ map
          (λ x.
            entry x.name
              (double.to_int (double.mul_double (double.div_double x.time total) double.hundred)))
          (take (suc k) logs)
        ++ (if ltb k (length logs) then dots ∷ [] else [])
unfolding entries
entries_from double total i k [] e = ground arith
entries_from double total i zero (x ∷ logs) e =
    let at : (i == 4) ≡ true = ground arith in
    let more : ltb 0 (suc (length logs)) ≡ true = ground arith in rw (at, more) refl
entries_from double total i (suc k) (x ∷ logs) e =
    let away : (i == 4) ≡ false = ground arith in
    let test : ltb (suc k) (suc (length logs)) ≡ ltb k (length logs) = ground arith in
    rw (away, test, entries_from double total (i + 1) k logs (omega arith)) refl

module _ {D : Type 0} (double : Doubles D) (regexec : List ℕ → Option Matches)
    (atof : List ℕ → D) where
  -- the logs of the lines that match
  unfoldable pub heard : List (List ℕ) → List (SyscallLog D)
  heard [] = []
  heard (line ∷ lines) = elim (extract double regexec atof line) [
    | failed ↦ heard lines
    | overflow ↦ heard lines
    | done none ↦ heard lines
    | done (some log) ↦ log ∷ heard lines
  ]

  -- what they add up to for a name, in the order of the lines
  unfoldable pub spent : List (SyscallLog D) → List ℕ → Option D → Option D
  spent [] n before = before
  spent (log ∷ logs) n before = spent logs n (credited double log n before)

  -- No match of a line is too long for its array.
  abbrev pub Fits : List (List ℕ) → Type 0
  Fits [] = Unit
  Fits (line ∷ lines) =
      ((found : Option (SyscallLog D)) × (extract double regexec atof line ≡ done found))
      × Fits lines

  module _
      (qsort : (SyscallLog D → SyscallLog D → Bool) → List (SyscallLog D) → List (SyscallLog D))
      (realloc : ℕ → Bool) (clock : ℕ → ℕ)
      (qsort_permutes : (l : List (SyscallLog D)) → Permᴰ l (qsort (compare double) l))
      (enough : (n : ℕ) → realloc n ≡ true) where
    Sorted-WellFormed :
        (stats : SyscallStats D) (is_end : Bool)
        → WellFormed stats
        → WellFormed (output double qsort stats is_end).0
          × ((n : List ℕ)
              → time_of (output double qsort stats is_end).0.logs n ≡ time_of stats.logs n)
    unfolding output
    Sorted-WellFormed stats is_end ok =
        let (distinct, len, same) = Permᴰ-time_of (qsort_permutes stats.logs) ok.distinct in
        (record { fits = omega (arith, ok.fits); distinct = distinct }, same)

    read_loop-spent :
        (lines : List (List ℕ)) (calls prev : ℕ) (stats : SyscallStats D) (printed : List (Item D))
        → Fits lines
        → WellFormed stats
        → (stats' : SyscallStats D) × (printed' : List (Item D)) × (read_loop double qsort regexec
              atof realloc clock lines calls prev stats printed
            ≡ done (stats', printed'))
          × WellFormed stats'
          × ((n : List ℕ) → time_of stats'.logs n ≡ spent (heard lines) n (time_of stats.logs n))
    unfolding read_loop heard spent
    read_loop-spent [] calls prev stats printed fits ok = (stats, printed, refl, ok, λ n. refl)
    read_loop-spent (line ∷ lines) calls prev stats printed ((none, read), fits) ok =
        rw (read, read_loop, heard) (read_loop-spent lines calls prev stats printed fits ok)
    read_loop-spent (line ∷ lines) calls prev stats printed ((some log, read), fits) ok =
        let (mid, run, ok', times) = update_stats-credited double realloc log stats enough ok in
        elim (Bool-cases (ltb 100 ((clock calls - prev) * 1000 / 1000000))) [
          | inl late ↦
              let (ok'', same) = Sorted-WellFormed mid false ok' in
              let (stats', printed', runs, good, sums) =
                read_loop-spent lines (calls + 1) (clock calls) (output double qsort mid false).0
                  (printed ++ (output double qsort mid false).1) fits ok'' in
              (
                stats',
                printed',
                rw (read, run, late, read_loop) runs,
                good,
                λ n.
                    rw (read, heard, spent)
                      (sums n ∙ ap (spent (heard lines) n) (same n ∙ times n)),
              )
          | inr soon ↦
              let (stats', printed', runs, good, sums) =
                read_loop-spent lines (calls + 1) prev mid printed fits ok' in
              (
                stats',
                printed',
                rw (read, run, soon, read_loop) runs,
                good,
                λ n. rw (read, heard, spent) (sums n ∙ ap (spent (heard lines) n) (times n)),
              )
        ]

    -- Where there is memory enough, `qsort` permutes what it is given, and each name and each time
    -- that a line of strace has fits into its array, `parent_process` ends with the output of
    -- statistics that give each name the sum of the times of the lines with that name, added up in
    -- the order of the lines, and no time where there is no such line.
    pub parent_process-spent :
        (lines : List (List ℕ))
        → Fits lines
        → (stats : SyscallStats D) × (printed : List (Item D)) × (parent_process double qsort
              regexec atof realloc clock lines
            ≡ done (printed ++ (output double qsort stats true).1))
          × ((n : List ℕ) → time_of stats.logs n ≡ spent (heard lines) n none)
    unfolding parent_process time_of Distinct
    parent_process-spent lines fits =
        let ok : WellFormed (record { logs = []; capacity = 0 }) = record {
          fits = omega arith;
          distinct = tt;
        } in
        let (stats, printed, run, good, sums) =
          read_loop-spent lines 1 (clock 0) (record { logs = []; capacity = 0 }) [] fits ok in
        (stats, printed, rw (run, parent_process) refl, sums)

module _ {D : Type 0} (double : Doubles D)
    (qsort : (SyscallLog D → SyscallLog D → Bool) → List (SyscallLog D) → List (SyscallLog D)) where
  -- `output` prints the total, then the names and the shares of the first five logs, with dots when
  -- there are five or more, and 80 NUL characters, with a line between two outputs.
  pub output-five :
      (stats : SyscallStats D) (is_end : Bool)
      → (output double qsort stats is_end).1 ≡ (
          let logs = qsort (compare double) stats.logs in
          let total = total_time double double.zero_double logs in
          total_line total
            ∷ map
                (λ x. entry x.name (
                  double.to_int
                    (double.mul_double (double.div_double x.time total) double.hundred)))
                (take 5 logs)
          ++ (if ltb 4 (length logs) then dots ∷ [] else [])
          ++ replicate 80 nul
          ++ (if is_end then [] else separator ∷ []))
  unfolding output
  output-five stats is_end =
      let logs = qsort (compare double) stats.logs in
      let total = total_time double double.zero_double logs in
      rw (entries_from double total 0 4 logs refl) refl
