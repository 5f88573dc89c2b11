-- ===== src/Gpt/Consumer.antt =====
-- A step of `worker` of M3-gpt/gpt.c keeps the invariant and fails no `assert`.
use nju_os_workbench.Gpt.Pool.{idle, taken, calculated, exited, Job, Worker, System, put_worker}
unfoldable use nju_os_workbench.Gpt.Pool.{buffer_pop, worker_step}
use nju_os_workbench.Gpt.Queue.{queued-pop, over-one, over-at}
unfoldable use nju_os_workbench.Gpt.Queue.{weigh, over}
use nju_os_workbench.Base.{
  Bool-cases, inl, inr, ◌≢◌, ℕ, ◌+◌, ◌-◌, ◌<◌, ◌≡◌, refl, sym, ap, ◌∙◌, subst, true, false, not,
  ◌&&◌, List, ◌∷◌, arith, ◌==◌, if◌then◌else◌,
}
use nju_os_workbench.Gpt.Invariant.{Inv, Safe, if-Safe, joining-quiet, held, busy}
unfoldable use nju_os_workbench.Gpt.Invariant.{replay}

-- the sums over the workers when one of them changes
pub over-put :
    {M : Type 0} (f : Worker → ℕ) (n : ℕ) (s : System M) (i : ℕ) (x : Worker)
    → i < n
    → over (λ j. f ((put_worker s i x).worker j)) n + f (s.worker i)
      ≡ over (λ j. f (s.worker j)) n + f x
over-put f n s i x lt =
    let self : (i == i) ≡ true = ground arith in
    let one =
      over-one (λ j. f (if j == i then x else s.worker j)) (λ j. f (s.worker j)) n i lt
        (λ j ne. let other : (j == i) ≡ false = ground arith in rw other refl) in
    subst
      (λ b.
        over (λ j. f (if j == i then x else s.worker j)) n + f (s.worker i)
        ≡ over (λ j. f (s.worker j)) n + f (if b then x else s.worker i))
      self one

put-alive :
    {M : Type 0} (s : System M) (i : ℕ) (x : Worker)
    → x ≢ exited
    → (s.pool.finished ≡ false → (j : ℕ) → s.worker j ≢ exited)
    → s.pool.finished ≡ false
    → (j : ℕ) → (put_worker s i x).worker j ≢ exited
put-alive s i x on h running j = elim (Bool-cases (j == i)) [
  | inl same ↦ rw same on
  | inr other ↦ rw other (h running j)
]

module _ {M : Type 0} (calc : Job → M → M) (n : ℕ) {jobs : List Job} {start : M} where
  popped-Inv :
      (s : System M) (i : ℕ)
      → i < n
      → s.worker i ≡ idle
      → (s.pool.buf_count == 0) ≡ false
      → Inv calc n jobs start s
      → Inv calc n jobs start
          (put_worker (record s { pool = (buffer_pop s.pool).1 }) i (taken (buffer_pop s.pool).0))
  unfolding buffer_pop
  popped-Inv s i lt e some_left inv = record {
    head_small = omega arith;
    count_small = omega (arith, inv.count_small);
    tail_is = ground (arith, inv.tail_is);
    each_once = λ w.
        let sum = over-put (held w) n s i (taken (s.pool.buffer s.pool.head)) lt in
        let was = ap (held w) e in
        let pop =
          queued-pop w s.pool.buffer s.pool.head s.pool.buf_count inv.head_small some_left in
        omega (arith, inv.each_once w, sum, was, pop);
    remaining_is =
        let sum = over-put busy n s i (taken (s.pool.buffer s.pool.head)) lt in
        let was = ap busy e in ground (arith, inv.remaining_is, sum, was);
    quiet_is = inv.quiet_is;
    finished_is = inv.finished_is;
    mem_is = inv.mem_is;
    alive = put-alive s i (taken (s.pool.buffer s.pool.head)) (λ same. cc) inv.alive;
  }

  calculated-Inv :
      (s : System M) (i : ℕ) (job : Job)
      → i < n
      → s.worker i ≡ taken job
      → Inv calc n jobs start s
      → Inv calc n jobs start
          (put_worker (record s { mem = calc job s.mem; log = job ∷ s.log }) i calculated)
  unfolding weigh replay
  calculated-Inv s i job lt e inv = record {
    head_small = inv.head_small;
    count_small = inv.count_small;
    tail_is = inv.tail_is;
    each_once = λ w.
        let sum = over-put (held w) n s i calculated lt in
        let was = ap (held w) e in omega (arith, inv.each_once w, sum, was);
    remaining_is =
        let sum = over-put busy n s i calculated lt in
        let was = ap busy e in omega (arith, inv.remaining_is, sum, was);
    quiet_is = inv.quiet_is;
    finished_is = inv.finished_is;
    mem_is = ap (calc job) inv.mem_is;
    alive = put-alive s i calculated (λ same. cc) inv.alive;
  }

  -- `s.worker i` does what changes no sum but that of `busy`
  counted_off-Inv :
      (s : System M) (i : ℕ)
      → i < n
      → s.worker i ≡ calculated
      → Inv calc n jobs start s
      → Inv calc n jobs start (
          put_worker
            (record s { pool = record s.pool { remaining = s.pool.remaining - 1 } })
            i
            idle)
  counted_off-Inv s i lt e inv = record {
    head_small = inv.head_small;
    count_small = inv.count_small;
    tail_is = inv.tail_is;
    each_once = λ w.
        let sum = over-put (held w) n s i idle lt in
        let was = ap (held w) e in omega (arith, inv.each_once w, sum, was);
    remaining_is =
        let sum = over-put busy n s i idle lt in
        let was = ap busy e in omega (arith, inv.remaining_is, sum, was);
    quiet_is = λ h. let none_left = inv.quiet_is h in omega arith;
    finished_is = inv.finished_is;
    mem_is = inv.mem_is;
    alive = put-alive s i idle (λ same. cc) inv.alive;
  }

  exited-Inv :
      (s : System M) (i : ℕ)
      → i < n
      → s.worker i ≡ idle
      → s.pool.finished ≡ true
      → Inv calc n jobs start s
      → Inv calc n jobs start (put_worker s i exited)
  exited-Inv s i lt e done inv = record {
    head_small = inv.head_small;
    count_small = inv.count_small;
    tail_is = inv.tail_is;
    each_once = λ w.
        let sum = over-put (held w) n s i exited lt in
        let was = ap (held w) e in omega (arith, inv.each_once w, sum, was);
    remaining_is =
        let sum = over-put busy n s i exited lt in
        let was = ap busy e in omega (arith, inv.remaining_is, sum, was);
    quiet_is = inv.quiet_is;
    finished_is = inv.finished_is;
    mem_is = inv.mem_is;
    alive = λ running. cc;
  }

  -- the `assert`s of a worker that exits
  none_left :
      (s : System M)
      → Inv calc n jobs start s
      → s.pool.finished ≡ true
      → (s.pool.buf_count == 0) && (s.pool.remaining == 0) ≡ true
  none_left s inv done =
      let at_end = inv.quiet_is (joining-quiet s.main (sym inv.finished_is ∙ done)) in
      ground (arith, inv.remaining_is, at_end)

  worker-cases :
      (s : System M) (i : ℕ) (x : Worker)
      → s.worker i ≡ x
      → i < n
      → Inv calc n jobs start s
      → Safe (Inv calc n jobs start) (worker_step calc i s)
  unfolding worker_step
  worker-cases s i idle e lt inv =
      rw (e, worker_step)
        (if-Safe (Inv calc n jobs start) ((s.pool.buf_count == 0) && not s.pool.finished) _ _
          (λ none_here. tt)
          (λ go.
            if-Safe (Inv calc n jobs start) s.pool.finished _ _
              (λ done. rw (none_left s inv done) (exited-Inv s i lt e done inv))
              (λ more. popped-Inv s i lt e (ground (arith, go, more)) inv)))
  worker-cases s i (taken job) e lt inv = rw (e, worker_step) (calculated-Inv s i job lt e inv)
  worker-cases s i calculated e lt inv =
      let mine = over-at (λ j. busy (s.worker j)) n i lt in
      let one = ap busy e in
      let more : (s.pool.remaining == 0) ≡ false = ground (arith, inv.remaining_is) in
      rw (e, more, worker_step) (counted_off-Inv s i lt e inv)
  worker-cases s i exited e lt inv = rw (e, worker_step) tt

  pub worker_step-Safe :
      (s : System M) (i : ℕ)
      → i < n
      → Inv calc n jobs start s
      → Safe (Inv calc n jobs start) (worker_step calc i s)
  worker_step-Safe s i lt inv = worker-cases s i (s.worker i) refl lt inv
