-- ===== src/Gpt/Producer.antt =====
-- A critical section of `matmul_forward` of M3-gpt/gpt.c keeps the invariant.
use nju_os_workbench.Gpt.Pool.{
  producing, blocked, returned, joining, Job, Pool, Worker, Main, System,
}
unfoldable use nju_os_workbench.Gpt.Pool.{buffer_push, main_step}
use nju_os_workbench.Gpt.Queue.{queued-push}
unfoldable use nju_os_workbench.Gpt.Queue.{weigh}
use nju_os_workbench.Base.{ℕ, ◌+◌, ◌<◌, ◌≡◌, sym, false, List, [], ◌∷◌, arith, ◌==◌, ==_iff}
use nju_os_workbench.Gpt.Invariant.{Inv, Safe, if-Safe}

abbrev sys : {M : Type 0} → Pool → M → Main → (ℕ → Worker) → List Job → System M
sys p x m f l = record { pool = p; mem = x; main = m; worker = f; log = l }

module _ {M : Type 0} (calc : Job → M → M) (n : ℕ) {jobs : List Job} {start : M} where
  counted-Inv :
      (p : Pool) (mem : M) (job : Job) (rest : List Job) (f : ℕ → Worker) (log : List Job)
      → Inv calc n jobs start (sys p mem (producing (job ∷ rest)) f log)
      → Inv calc n jobs start
          (sys (record p { remaining = p.remaining + 1 }) mem (blocked job rest) f log)
  counted-Inv p mem job rest f log inv = record {
    head_small = inv.head_small;
    count_small = inv.count_small;
    tail_is = inv.tail_is;
    each_once = inv.each_once;
    remaining_is = omega (arith, inv.remaining_is);
    quiet_is = λ h. cc;
    finished_is = inv.finished_is;
    mem_is = inv.mem_is;
    alive = inv.alive;
  }

  pushed-Inv :
      (p : Pool) (mem : M) (job : Job) (rest : List Job) (f : ℕ → Worker) (log : List Job)
      → (p.buf_count == 10) ≡ false
      → Inv calc n jobs start (sys p mem (blocked job rest) f log)
      → Inv calc n jobs start (sys (buffer_push job p) mem (producing rest) f log)
  unfolding buffer_push weigh
  pushed-Inv p mem job rest f log room inv =
      let few : p.buf_count < 10 = ground (arith, inv.count_small) in
      record {
        head_small = inv.head_small;
        count_small = omega arith;
        tail_is = omega (arith, inv.tail_is);
        each_once = λ w.
            let push = queued-push w p.buffer job p.head p.buf_count p.tail few (sym inv.tail_is) in
            omega (arith, inv.each_once w, push);
        remaining_is = omega (arith, inv.remaining_is);
        quiet_is = λ h. cc;
        finished_is = inv.finished_is;
        mem_is = inv.mem_is;
        alive = inv.alive;
      }

  main-cases :
      (p : Pool) (mem : M) (m : Main) (f : ℕ → Worker) (log : List Job)
      → Inv calc n jobs start (sys p mem m f log)
      → Safe (Inv calc n jobs start) (main_step (sys p mem m f log))
  unfolding main_step
  main-cases p mem (producing []) f log inv =
      if-Safe (Inv calc n jobs start) (p.remaining == 0) _ _
        (λ done. record {
          head_small = inv.head_small;
          count_small = inv.count_small;
          tail_is = inv.tail_is;
          each_once = inv.each_once;
          remaining_is = inv.remaining_is;
          quiet_is = λ h. (==_iff _ _).0 done;
          finished_is = inv.finished_is;
          mem_is = inv.mem_is;
          alive = inv.alive;
        })
        (λ h. tt)
  main-cases p mem (producing (job ∷ rest)) f log inv =
      let early = counted-Inv p mem job rest f log inv in
      if-Safe (Inv calc n jobs start) (p.buf_count == 10) _ _ (λ full. early)
        (λ room.
          pushed-Inv (record p { remaining = p.remaining + 1 }) mem job rest f log room early)
  main-cases p mem (blocked job rest) f log inv =
      if-Safe (Inv calc n jobs start) (p.buf_count == 10) _ _ (λ full. tt)
        (λ room. pushed-Inv p mem job rest f log room inv)
  main-cases p mem returned f log inv = tt
  main-cases p mem joining f log inv = tt

  pub main_step-Safe :
      (s : System M) → Inv calc n jobs start s → Safe (Inv calc n jobs start) (main_step s)
  main_step-Safe s inv = main-cases s.pool s.mem s.main s.worker s.log inv
