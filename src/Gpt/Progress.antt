-- ===== src/Gpt/Progress.antt =====
-- As long as `matmul_forward` of M3-gpt/gpt.c has not returned, some thread can take a step.
use nju_os_workbench.Gpt.Pool.{
  Job, Worker, Main, System, Move, idle, taken, calculated, exited, producing, blocked, joining,
  moves, returned,
}
unfoldable use nju_os_workbench.Gpt.Pool.{worker_step, main_step}
use nju_os_workbench.Gpt.Invariant.{Inv, quiet, busy, counted_early, is_joining}
unfoldable use nju_os_workbench.Gpt.Queue.{over}
use nju_os_workbench.Gpt.Run.{Step, by_main, by_worker}
use nju_os_workbench.Base.{
  ℕ, zero, suc, ◌≤◌, ◌<◌, ◌≡◌, ◌≢◌, refl, ap, ◌∙◌, ◌⊎◌, inl, inr, true, false, List, [], ◌∷◌, arith,
  ◌==◌, Bool-cases,
}
unfoldable use nju_os_workbench.Base.{ℕ_discrete}
use nju_os_workbench.Gpt.Potential.{busy-remaining}

abbrev Goes : {M : Type 0} → Move M → Type 0
Goes {M} m = (s' : System M) × (m ≡ moves s')

working-joining : (m : Main) → quiet m ≡ false → is_joining m ≡ false
working-joining (producing jobs) h = refl
working-joining (blocked job jobs) h = refl
working-joining returned h = refl
working-joining joining h = cc

-- a worker that has something to do
worker-Goes :
    {M : Type 0} (calc : Job → M → M) (s : System M) (i : ℕ) (x : Worker)
    → s.worker i ≡ x
    → x ≢ exited
    → s.pool.finished ≡ false
    → busy (s.worker i) ≤ s.pool.remaining
    → (s.pool.buf_count ≢ 0) ⊎ (busy (s.worker i) ≢ 0)
    → Goes (worker_step calc i s)
unfolding worker_step
worker-Goes calc s i idle e on running counted (inl some_left) =
    let test : (s.pool.buf_count == 0) ≡ false = ground arith in
    rw (e, test, running, worker_step) (_, refl)
worker-Goes calc s i idle e on running counted (inr is_busy) = absurd (is_busy (ap busy e))
worker-Goes calc s i (taken job) e on running counted why = rw (e, worker_step) (_, refl)
worker-Goes calc s i calculated e on running counted why =
    let one = ap busy e in
    let more : (s.pool.remaining == 0) ≡ false = ground (arith, counted) in
    rw (e, more, worker_step) (_, refl)
worker-Goes calc s i exited e on running counted why = absurd (on refl)

over-some : (f : ℕ → ℕ) (n : ℕ) → over f n ≢ 0 → (i : ℕ) × (i < n) × (f i ≢ 0)
unfolding over
over-some f zero h = absurd (h refl)
over-some f (suc n) h = elim (ℕ_discrete (f n) 0) [
  | yes none_here ↦
      let (i, lt, some_here) = over-some f n (λ e. h (omega arith)) in (i, omega arith, some_here)
  | no some_here ↦ (n, omega arith, some_here)
]

main-progress :
    {M : Type 0} (calc : Job → M → M) (n : ℕ) (s : System M)
    → Goes (main_step s)
    → (s' : System M) × Step calc n s s'
main-progress calc n s (s', e) = (s', by_main e)

module _ {M : Type 0} (calc : Job → M → M) (n : ℕ) {jobs : List Job} {start : M} where
  running-not_quiet :
      (s : System M) → Inv calc n jobs start s → quiet s.main ≡ false → s.pool.finished ≡ false
  running-not_quiet s inv working = inv.finished_is ∙ working-joining s.main working

  worker-progress :
      (s : System M) (i : ℕ)
      → i < n
      → Inv calc n jobs start s
      → quiet s.main ≡ false
      → (s.pool.buf_count ≢ 0) ⊎ (busy (s.worker i) ≢ 0)
      → (s' : System M) × Step calc n s s'
  worker-progress s i lt inv working why =
      let running = running-not_quiet s inv working in
      let (s', e) =
        worker-Goes calc s i (s.worker i) refl (inv.alive running i) running
          (busy-remaining calc n s i lt inv) why in
      (s', by_worker i lt e)

  -- some thread can go on as long as `matmul_forward` has not returned
  pub progress :
      (s : System M) (m : Main)
      → s.main ≡ m
      → 0 < n
      → Inv calc n jobs start s
      → quiet s.main ≡ false
      → (s' : System M) × Step calc n s s'
  unfolding main_step
  progress s (producing []) e some_worker inv working = elim (ℕ_discrete s.pool.remaining 0) [
    | yes done ↦
        let test : (s.pool.remaining == 0) ≡ true = ground arith in
        main-progress calc n s (rw (e, test, main_step) (_, refl))
    | no more ↦ elim (ℕ_discrete s.pool.buf_count 0) [
      | yes empty ↦
          let early = ap counted_early e in
          let (i, lt, is_busy) =
            over-some (λ j. busy (s.worker j)) n
              (λ none_busy. more (omega (arith, inv.remaining_is))) in
          worker-progress s i lt inv working (inr is_busy)
      | no some_left ↦ worker-progress s 0 some_worker inv working (inl some_left)
    ]
  ]
  progress s (producing (job ∷ rest)) e some_worker inv working =
      main-progress calc n s (elim (Bool-cases (s.pool.buf_count == 10)) [
        | inl full ↦ rw (e, full, main_step) (_, refl)
        | inr room ↦ rw (e, room, main_step) (_, refl)
      ])
  progress s (blocked job rest) e some_worker inv working =
      elim (Bool-cases (s.pool.buf_count == 10)) [
        | inl full ↦ worker-progress s 0 some_worker inv working (inl (λ empty. ground arith))
        | inr room ↦ main-progress calc n s (rw (e, room, main_step) (_, refl))
      ]
  progress s returned e some_worker inv working = let at_rest = ap quiet e in cc
  progress s joining e some_worker inv working = let at_rest = ap quiet e in cc
