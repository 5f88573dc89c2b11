-- ===== src/Gpt/Run.antt =====
-- The runs of the threads of M3-gpt/gpt.c in any order, and what has been calculated when
-- `matmul_forward` returns.
use nju_os_workbench.Gpt.Pool.{
  taken, calculated, exited, Job, Worker, System, idle, moves, abort, returned,
}
unfoldable use nju_os_workbench.Gpt.Pool.{worker_step, main_step, call, finish}
use nju_os_workbench.Gpt.Invariant.{
  to_push, counted_early, is_joining, Inv, Safe, quiet, held, busy,
}
unfoldable use nju_os_workbench.Gpt.Invariant.{replay}
unfoldable use nju_os_workbench.Gpt.Queue.{weigh, queued, over}
use nju_os_workbench.Gpt.Producer.{main_step-Safe}
use nju_os_workbench.Gpt.Consumer.{worker_step-Safe}
use nju_os_workbench.Base.{
  ℕ, zero, suc, ◌<◌, ◌≡◌, ◌≢◌, refl, ap, ◌∙◌, subst, true, false, List, [], arith, ◌==◌,
}

-- the globals before `main`, and the workers that it creates
unfoldable pub boot : {M : Type 0} → (ℕ → Job) → M → System M
boot buffer mem = record {
  pool = record {
    buffer = buffer;
    head = 0;
    tail = 0;
    buf_count = 0;
    remaining = 0;
    finished = false;
  };
  mem = mem;
  main = returned;
  worker = λ i. idle;
  log = [];
}

module _ {M : Type 0} (calc : Job → M → M) (n : ℕ) where
  -- a step of one of the threads
  pub data Step (s s' : System M) : Type 0 where
    by_main : main_step s ≡ moves s' → Step s s'
    by_worker : (i : ℕ) → i < n → worker_step calc i s ≡ moves s' → Step s s'

  -- a run up to `s`, where the last call of `matmul_forward` was that of `jobs` in memory `start`
  pub data Run : (s : System M) (jobs : List Job) (start : M) → Type 0 where
    boots : (buffer : ℕ → Job) (mem : M) → Run (boot buffer mem) [] mem
    calls :
        {s s' : System M} {jobs jobs' : List Job} {start start' : M}
        → Run s jobs start
        → s.main ≡ returned
        → call jobs' start' s ≡ moves s'
        → Run s' jobs' start'
    goes :
        {s s' : System M} {jobs : List Job} {start : M}
        → Run s jobs start
        → Step s s'
        → Run s' jobs start
    finishes :
        {s s' : System M} {jobs : List Job} {start : M}
        → Run s jobs start
        → s.main ≡ returned
        → finish s ≡ moves s'
        → Run s' jobs start

-- what the workers sum up to is nothing where another sum is nothing
pub over-zero : (f g : ℕ → ℕ) (n : ℕ) → ((j : ℕ) → g j ≡ 0 → f j ≡ 0) → over g n ≡ 0 → over f n ≡ 0
unfolding over
over-zero f g zero h e = refl
over-zero f g (suc n) h e =
    let here = h n (omega arith) in let rest = over-zero f g n h (omega arith) in omega arith

over-none : (f : ℕ → ℕ) (n : ℕ) → ((j : ℕ) → f j ≡ 0) → over f n ≡ 0
unfolding over
over-none f zero h = refl
over-none f (suc n) h = omega (arith, h n, over-none f n h)

held-busy : (w : Job → ℕ) (x : Worker) → busy x ≡ 0 → held w x ≡ 0
held-busy w idle e = refl
held-busy w (taken job) e = absurd (omega arith)
held-busy w calculated e = refl
held-busy w exited e = refl

boot-Inv :
    {M : Type 0} (calc : Job → M → M) (n : ℕ) (buffer : ℕ → Job) (mem : M)
    → Inv calc n [] mem (boot buffer mem)
unfolding boot weigh queued replay
boot-Inv calc n buffer mem = record {
  head_small = omega arith;
  count_small = omega arith;
  tail_is = refl;
  each_once =
      λ w. omega (arith, over-none (λ i. held w ((boot buffer mem).worker i)) n (λ j. refl));
  remaining_is = omega (arith, over-none (λ i. busy ((boot buffer mem).worker i)) n (λ j. refl));
  quiet_is = λ h. refl;
  finished_is = refl;
  mem_is = refl;
  alive = λ h i. cc;
}

module _ {M : Type 0} (calc : Job → M → M) (n : ℕ) where
  pub call-Safe :
      (s : System M) (jobs jobs' : List Job) (start start' : M)
      → s.main ≡ returned
      → Inv calc n jobs start s
      → Safe (Inv calc n jobs' start') (call jobs' start' s)
  unfolding call weigh queued replay
  call-Safe s jobs jobs' start start' at_rest inv =
      let none_left = inv.quiet_is (ap quiet at_rest) in
      let test : (s.pool.remaining == 0) ≡ true = ground arith in
      let empty : s.pool.buf_count ≡ 0 = omega (arith, inv.remaining_is) in
      let free : over (λ i. busy (s.worker i)) n ≡ 0 = omega (arith, inv.remaining_is) in
      rw (test, call)
        (record {
          head_small = inv.head_small;
          count_small = inv.count_small;
          tail_is = inv.tail_is;
          each_once = λ w.
              let none_held =
                over-zero (λ i. held w (s.worker i)) (λ i. busy (s.worker i)) n
                  (λ j. held-busy w (s.worker j)) free in
              rw (none_held, empty) (omega arith);
          remaining_is = omega arith;
          quiet_is = λ h. cc;
          finished_is = inv.finished_is ∙ ap is_joining at_rest;
          mem_is = refl;
          alive = inv.alive;
        })

  finish-Safe :
      (s : System M) (jobs : List Job) (start : M)
      → s.main ≡ returned
      → Inv calc n jobs start s
      → Safe (Inv calc n jobs start) (finish s)
  unfolding finish weigh
  finish-Safe s jobs start at_rest inv = record {
    head_small = inv.head_small;
    count_small = inv.count_small;
    tail_is = inv.tail_is;
    each_once = λ w.
        let none_left = ap (λ m. weigh w (to_push m)) at_rest in
        omega (arith, inv.each_once w, none_left);
    remaining_is = let early = ap counted_early at_rest in omega (arith, inv.remaining_is, early);
    quiet_is = λ h. inv.quiet_is (ap quiet at_rest);
    finished_is = refl;
    mem_is = inv.mem_is;
    alive = λ running. cc;
  }

  pub Step-Inv :
      {s s' : System M} {jobs : List Job} {start : M}
      → Step calc n s s'
      → Inv calc n jobs start s
      → Inv calc n jobs start s'
  Step-Inv {s} {jobs} {start} (by_main e) inv =
      subst (Safe (Inv calc n jobs start)) e (main_step-Safe calc n s inv)
  Step-Inv {s} {jobs} {start} (by_worker i lt e) inv =
      subst (Safe (Inv calc n jobs start)) e (worker_step-Safe calc n s i lt inv)

  pub Run-Inv :
      {s : System M} {jobs : List Job} {start : M}
      → Run calc n s jobs start
      → Inv calc n jobs start s
  Run-Inv (boots buffer mem) = boot-Inv calc n buffer mem
  Run-Inv (calls {s} {s'} {jobs} {jobs'} {start} {start'} run at_rest e) =
      subst (Safe (Inv calc n jobs' start')) e
        (call-Safe s jobs jobs' start start' at_rest (Run-Inv run))
  Run-Inv (goes run step) = Step-Inv step (Run-Inv run)
  Run-Inv (finishes {s} {s'} {jobs} {start} run at_rest e) =
      subst (Safe (Inv calc n jobs start)) e (finish-Safe s jobs start at_rest (Run-Inv run))

  -- Whatever the order in which the threads take their steps: when `matmul_forward` has returned, each
  -- job has been calculated as often as the call was given it, as the sums of any weight of the jobs
  -- say, and the memory is what `calc` has made of it job by job, in the order of the log.
  pub matmul_forward-done :
      {s : System M} {jobs : List Job} {start : M}
      → Run calc n s jobs start
      → s.main ≡ returned
      → ((w : Job → ℕ) → weigh w s.log ≡ weigh w jobs) × (s.mem ≡ replay calc s.log start)
  unfolding weigh queued
  matmul_forward-done {s} run at_rest =
      let inv = Run-Inv run in
      let none_left = inv.quiet_is (ap quiet at_rest) in
      let empty : s.pool.buf_count ≡ 0 = omega (arith, inv.remaining_is) in
      let free : over (λ i. busy (s.worker i)) n ≡ 0 = omega (arith, inv.remaining_is) in
      (
        λ w.
            let none_held =
              over-zero (λ i. held w (s.worker i)) (λ i. busy (s.worker i)) n
                (λ j. held-busy w (s.worker j)) free in
            let none_pushed = ap (λ m. weigh w (to_push m)) at_rest in
            let none_queued = ap (queued w s.pool.buffer s.pool.head) empty in
            omega (arith, inv.each_once w),
        inv.mem_is,
      )

  -- No `assert` of `worker` fails in a run, and that of `matmul_forward` does not fail when it is called
  -- again.
  pub Run-safe :
      {s : System M} {jobs : List Job} {start : M}
      → Run calc n s jobs start
      → ((i : ℕ) → i < n → worker_step calc i s ≢ abort)
        × (s.main ≡ returned → (jobs' : List Job) (start' : M) → call jobs' start' s ≢ abort)
  Run-safe {s} {jobs} {start} run = (
    λ i lt e. subst (Safe (Inv calc n jobs start)) e (worker_step-Safe calc n s i lt (Run-Inv run)),
    λ at_rest jobs' start' e.
        subst (Safe (Inv calc n jobs' start')) e
          (call-Safe s jobs jobs' start start' at_rest (Run-Inv run)),
  )
