-- ===== src/Gpt/Tests.antt =====
-- One worker and one job of M3-gpt/gpt.c, where `calc` adds up what it is given, and a choice of a
-- token.
use nju_os_workbench.Gpt.Calc
use nju_os_workbench.Gpt.Calc.{Product, FloatOps}
unfoldable use nju_os_workbench.Gpt.Calc.{matmul_jobs, batch_jobs, token_jobs}
use nju_os_workbench.Gpt.Product.{NoOverlap, entry, matmul_forward-cells}
use nju_os_workbench.Gpt.Rows.{Beyond}
use nju_os_workbench.Base.{
  inr, ◌*◌, ℕ, suc, ◌+◌, ◌-◌, ◌≤◌, ◌<◌, ◌≡◌, ◌≢◌, refl, ◌⊎◌, false, none, List, [], ◌∷◌, arith, ltb,
  length, take,
}
unfoldable use nju_os_workbench.Gpt.Sample.{sample_loop, sample_mult}
use nju_os_workbench.Gpt.Sample.{Floats, IsFirst, cdf_of, sample_mult-IsFirst}
use nju_os_workbench.Gpt.Pool.{Job, System, moves, abort, returned, worker_step, call}
use nju_os_workbench.Gpt.Run.{Run, boots, calls, goes, by_main, by_worker, Run-safe}
unfoldable use nju_os_workbench.Gpt.Pool.{worker_step, main_step, call, buffer_push, buffer_pop}
unfoldable use nju_os_workbench.Gpt.Run.{boot}
use nju_os_workbench.Gpt.Returns.{matmul_forward-returns}
use nju_os_workbench.Gpt.Wake
use nju_os_workbench.Gpt.Wake.{Threads, Takes, Turns, here, next}
unfoldable use nju_os_workbench.Gpt.Wake.{
  broadcast, after_worker, after_main, worker_turn, main_turn,
}

abbrev job : Job
job = record { out_bt = 3; inp_bt = 4; weight = 5; bias = none; channels = 1; out_channels = 1 }

abbrev calc : Job → ℕ → ℕ
calc args mem = mem + args.out_bt

abbrev start : System ℕ
unfolding boot
start = boot (λ i. job) 0

-- the job is pushed, taken, calculated and counted off, and the call returns
one_call :
    (s : System ℕ) × Run calc 1 s (job ∷ []) 7
    × (s.main ≡ returned)
    × (s.mem ≡ 10)
    × (s.log ≡ job ∷ [])
unfolding main_step worker_step call buffer_push buffer_pop boot
one_call = (
  _,
  goes
      (goes
        (goes
          (goes (goes (calls (boots (λ i. job) 0) refl refl) (by_main refl))
            (by_worker 0 (omega arith) refl))
          (by_worker 0 (omega arith) refl))
        (by_worker 0 (omega arith) refl))
      (by_main refl),
  refl,
  refl,
  refl,
)

-- a product of one row and one column: 10 times 20
abbrev product : Product
product = record {
  out = 0;
  inp = 10;
  weight = 20;
  bias = none;
  batches = 1;
  tokens = 1;
  channels = 1;
  out_channels = 1;
}

abbrev sums : FloatOps ℕ
sums = record { zero_float = 0; add = λ a b. a + b; mul = λ a b. a * b }

abbrev positions : ℕ → ℕ
positions q = q

one_product :
    (s : System (ℕ → ℕ)) × Run (Calc.calc sums) 1 s (matmul_jobs product) positions
    × (s.main ≡ returned)
unfolding main_step worker_step call buffer_push buffer_pop boot matmul_jobs batch_jobs token_jobs
one_product = (
  _,
  goes
      (goes
        (goes
          (goes (goes (calls (boots (λ i. job) positions) refl refl) (by_main refl))
            (by_worker 0 (omega arith) refl))
          (by_worker 0 (omega arith) refl))
        (by_worker 0 (omega arith) refl))
      (by_main refl),
  refl,
)

product-NoOverlap : NoOverlap product
product-NoOverlap = record {
  inputs = λ i lt. inr (omega arith);
  weights = λ i lt. inr (omega arith);
  biases = λ b o e lt. cc;
}

matmul_forward-cells_example :
    ((r o : ℕ)
      → r < 1
      → o < 1
      → one_product.0.mem (0 + r * 1 + o) ≡ entry product sums positions r o 1)
    × ((q : ℕ) → Beyond 0 (1 * 1) q → one_product.0.mem q ≡ q)
matmul_forward-cells_example =
    matmul_forward-cells product product-NoOverlap sums positions 1 one_product.1 one_product.2

Run-safe_example :
    ((i : ℕ) → i < 1 → worker_step calc i one_call.0 ≢ abort)
    × (one_call.0.main ≡ returned
        → (jobs' : List Job) (start' : ℕ) → call jobs' start' one_call.0 ≢ abort)
Run-safe_example = Run-safe calc 1 one_call.1

-- the call; the worker finds nothing and sleeps, until the main thread has pushed the job
worker_woken :
    (s : System ℕ) × (t' : Threads ℕ) × (call (job ∷ []) 7 start ≡ moves s)
    × Turns calc 1 (record (broadcast start) { sys = s }) 2 0 t'
    × (t'.asleep 0 ≡ false)
unfolding main_step worker_step call buffer_push boot broadcast after_worker after_main worker_turn
    main_turn
worker_woken = (
  _,
  _,
  refl,
  next (Wake.by_worker 0 (omega arith) refl (λ e. cc) refl)
      (next (Wake.by_main refl refl refl) here),
  refl,
)

matmul_forward-returns_example :
    (2 ≤ (1 + 2) * (1 + 5 * length (job ∷ [])) + (1 + 1) + 0)
    × ((worker_woken.1.sys.main ≡ returned) ⊎ ((u : Threads ℕ) × Takes calc 1 worker_woken.1 u))
unfolding boot broadcast
matmul_forward-returns_example =
    matmul_forward-returns calc 1 (job ∷ []) 7 (omega arith) (Wake.boots (λ i. job) 0) refl
      worker_woken.2 worker_woken.3

-- percents in the place of probabilities
abbrev percent : Floats ℕ
percent = record { zero_float = 0; half = 50; add_float = λ a b. a + b; is_less = λ a b. ltb a b }

abbrev shares : List ℕ
shares = 30 ∷ 20 ∷ 40 ∷ 10 ∷ []

sample_mult-IsFirst_example :
    IsFirst percent 0 shares (sample_mult percent shares)
    ⊎ ((sample_mult percent shares ≡ 3)
        × ((j : ℕ) → j < 4 → ltb 50 (cdf_of percent 0 (take (suc j) shares)) ≡ false))
sample_mult-IsFirst_example = sample_mult-IsFirst percent shares

third_is_sampled : sample_mult percent shares ≡ 2
unfolding sample_mult sample_loop
third_is_sampled = refl

abbrev strtol : List ℕ → ℕ
strtol [] = 0
strtol (c ∷ cs) = c - 48
