-- ===== src/Gpt/Returns.antt =====
-- `matmul_forward` of M3-gpt/gpt.c returns, since each `cond_broadcast` wakes those that may go on.
use nju_os_workbench.Gpt.Pool.{
  Job, Worker, Main, System, idle, taken, calculated, exited, producing, blocked, joining, moves,
  returned,
}
unfoldable use nju_os_workbench.Gpt.Pool.{call}
use nju_os_workbench.Gpt.Invariant.{Inv, Safe, quiet, busy, is_joining}
unfoldable use nju_os_workbench.Gpt.Queue.{over}
use nju_os_workbench.Gpt.Run.{Run-Inv, over-zero, call-Safe, Step-Inv}
use nju_os_workbench.Gpt.Wake.{
  Threads, Takes, Turns, here, next, wakes, main_wakes, Reached, wake_worker, wake_main,
}
use nju_os_workbench.Gpt.Asleep.{IsSound, Cases, awake, awake-le, over-flag}
use nju_os_workbench.Base.{
  ℕ, ◌+◌, ◌*◌, ◌≤◌, ◌<◌, ◌≡◌, refl, sym, ap, ◌∙◌, subst, ◌⊎◌, inl, inr, true, false, List, arith,
  ◌==◌, length,
}
use nju_os_workbench.Gpt.Turning.{
  Takes-Amounts, wake_worker-IsSound, wake_main-IsSound, call-IsSound, Step-Takes, Reached-Run,
}
use nju_os_workbench.Gpt.Potential.{left_of, potential, Step-lowers}
use nju_os_workbench.Gpt.Progress.{progress}

left_of-busy : (x : Worker) → busy x ≡ 0 → left_of x ≡ 0
left_of-busy idle e = refl
left_of-busy (taken job) e = absurd (omega arith)
left_of-busy calculated e = absurd (omega arith)
left_of-busy exited e = refl

quiet-cases : (m : Main) → is_joining m ≡ false → (m ≡ returned) ⊎ (quiet m ≡ false)
quiet-cases (producing jobs) h = inr refl
quiet-cases (blocked job jobs) h = inr refl
quiet-cases returned h = inl refl
quiet-cases joining h = cc

scaled : (a b n : ℕ) → a < b → n * a + n ≤ n * b
scaled a b n lt = grind arith

module _ {M : Type 0} (calc : Job → M → M) (n : ℕ) where
  call-potential :
      {s : System M} {jobs : List Job} {start : M} (jobs' : List Job) (start' : M)
      → Inv calc n jobs start s
      → s.main ≡ returned
      → Safe
          (λ s'. (potential n s' ≡ 1 + 5 * length jobs') × (s'.pool.finished ≡ false))
          (call jobs' start' s)
  unfolding call
  call-potential {s} jobs' start' inv at_rest =
      let none_left = inv.quiet_is (ap quiet at_rest) in
      let test : (s.pool.remaining == 0) ≡ true = ground arith in
      let free : over (λ i. busy (s.worker i)) n ≡ 0 = omega (arith, inv.remaining_is) in
      let none_busy =
        over-zero (λ i. left_of (s.worker i)) (λ i. busy (s.worker i)) n
          (λ j. left_of-busy (s.worker j)) free in
      rw (test, call) (omega (arith, inv.remaining_is), inv.finished_is ∙ ap is_joining at_rest)

  rank : Threads M → ℕ
  rank t = (n + 2) * potential n t.sys + awake n t

  rank-step : (t t' : Threads M) → potential n t'.sys < potential n t.sys → rank t' < rank t
  unfolding rank
  rank-step t t' less =
      let more : (n + 2) * potential n t'.sys + (n + 2) ≤ (n + 2) * potential n t.sys =
        scaled (potential n t'.sys) (potential n t.sys) (n + 2) less in
      omega (arith, more, awake-le n t')

  rank-sleep : (t t' : Threads M) → t'.sys ≡ t.sys → awake n t' < awake n t → rank t' < rank t
  unfolding rank
  rank-sleep t t' same less =
      let equal = ap (λ (s : System M). (n + 2) * potential n s) same in omega (arith, equal)

  rank-wake_worker : (i : ℕ) (t : Threads M) → i < n → rank (wake_worker i t) ≤ rank t + 1
  unfolding rank
  rank-wake_worker i t lt = omega (arith, over-flag n i t.asleep false lt)

  rank-wake_main : (t : Threads M) → rank (wake_main t) ≤ rank t + 1
  unfolding rank
  rank-wake_main t = omega arith

  bounded :
      {t t' : Threads M} {k w : ℕ} {jobs : List Job} {start : M}
      → 0 < n
      → IsSound t
      → Inv calc n jobs start t.sys
      → t.sys.pool.finished ≡ false
      → Turns calc n t k w t'
      → (k ≤ rank t + w) × ((t'.sys.main ≡ returned) ⊎ ((u : Threads M) × Takes calc n t' u))
  bounded {t} some_worker sound inv running here = (
    omega arith,
    elim (quiet-cases t.sys.main (sym inv.finished_is ∙ running)) [
      | inl done ↦ inl done
      | inr working ↦
          let (s', step) = progress calc n t.sys t.sys.main refl some_worker inv working in
          inr (Step-Takes calc n t s' sound working (inv.alive running) step)
    ],
  )
  bounded {t} {jobs} {start} some_worker sound inv running (next {t' = t1} take turns) =
      let (sound', how) = Takes-Amounts calc n sound take in
      elim how [
        | inl step ↦
            let (less, running') = Step-lowers calc n inv running step in
            let (few, ends) =
              bounded some_worker sound' (Step-Inv calc n step inv) running' turns in
            (omega (arith, few, rank-step t t1 less), ends)
        | inr (same, less) ↦
            let (few, ends) =
              bounded some_worker sound' (subst (Inv calc n jobs start) (sym same) inv)
                (ap (λ (s : System M). s.pool.finished) same ∙ running) turns in
            (omega (arith, few, rank-sleep t t1 same less), ends)
      ]
  bounded {t} some_worker sound inv running (wakes i lt turns) =
      let (few, ends) =
        bounded some_worker (wake_worker-IsSound calc n i t sound) inv running turns in
      (omega (arith, few, rank-wake_worker i t lt), ends)
  bounded {t} some_worker sound inv running (main_wakes turns) =
      let (few, ends) = bounded some_worker (wake_main-IsSound calc n t sound) inv running turns in
      (omega (arith, few, rank-wake_main t), ends)

  -- With n workers, one at least, the threads take at most (n + 2) (5 k + 1) + n + 1 turns in a call
  -- of `matmul_forward` with k jobs, and one more for each wake-up without a cause, in whatever order
  -- they take them; and as long as it has not returned some thread is awake and can take another. A
  -- thread that sleeps in `cond_wait` takes no turn until a `cond_broadcast` or a wake-up without a
  -- cause: so no wake-up is lost, and the call returns.
  pub matmul_forward-returns :
      {t t' : Threads M} {s : System M} {k w : ℕ} {jobs : List Job} {start : M} (jobs' : List Job)
      (start' : M)
      → 0 < n
      → Reached calc n t jobs start
      → t.sys.main ≡ returned
      → call jobs' start' t.sys ≡ moves s
      → Turns calc n (record t { sys = s }) k w t'
      → (k ≤ (n + 2) * (1 + 5 * length jobs') + (n + 1) + w)
        × ((t'.sys.main ≡ returned) ⊎ ((u : Threads M) × Takes calc n t' u))
  unfolding rank
  matmul_forward-returns {t} {s} {jobs} {start} jobs' start' some_worker reached at_rest e turns =
      let (sound, run) = Reached-Run calc n reached in
      let inv = Run-Inv calc n run in
      let inv' =
        subst (Safe (Inv calc n jobs' start')) e
          (call-Safe calc n t.sys jobs jobs' start start' at_rest inv) in
      let (is, running) =
        subst (Safe (λ u. (potential n u ≡ 1 + 5 * length jobs') × (u.pool.finished ≡ false))) e
          (call-potential jobs' start' inv at_rest) in
      let sound' =
        subst (Cases (λ (u : System M). IsSound (record t { sys = u })) Unit) e
          (call-IsSound calc n t jobs' start' sound at_rest) in
      let (few, ends) = bounded some_worker sound' inv' running turns in
      let top : (n + 2) * potential n s ≡ (n + 2) * (1 + 5 * length jobs') =
        ap (λ (p : ℕ). (n + 2) * p) is in
      (omega (arith, few, top, awake-le n (record t { sys = s })), ends)
