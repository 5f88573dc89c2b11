-- ===== src/Gpt/Potential.antt =====
-- A number that each step of a thread of M3-gpt/gpt.c lowers until `finished` is set.
use nju_os_workbench.Gpt.Pool.{
  Job, Worker, Main, System, idle, taken, calculated, exited, producing, blocked, joining, returned,
}
unfoldable use nju_os_workbench.Gpt.Pool.{worker_step, main_step, buffer_push, buffer_pop}
use nju_os_workbench.Gpt.Invariant.{Inv, Safe, if-Safe, busy}
unfoldable use nju_os_workbench.Gpt.Queue.{over}
use nju_os_workbench.Gpt.Queue.{over-at}
use nju_os_workbench.Gpt.Run.{Step, by_main, by_worker}
use nju_os_workbench.Gpt.Consumer.{over-put}
use nju_os_workbench.Base.{
  ℕ, ◌+◌, ◌*◌, ◌≤◌, ◌<◌, ◌≡◌, refl, ap, subst, false, not, ◌&&◌, List, [], ◌∷◌, arith, ◌==◌, length,
}

-- the steps that a worker still takes
abbrev pub left_of : Worker → ℕ
left_of idle = 0
left_of (taken job) = 2
left_of calculated = 1
left_of exited = 0

-- those of the main thread, and of the workers for what it has not pushed
abbrev pub left_main : Main → ℕ
left_main (producing jobs) = 1 + 5 * length jobs
left_main (blocked job jobs) = 5 + 5 * length jobs
left_main returned = 0
left_main joining = 0

abbrev pub potential : {M : Type 0} → ℕ → System M → ℕ
potential n s = left_main s.main + 3 * s.pool.buf_count + over (λ i. left_of (s.worker i)) n

abbrev pub Below : {M : Type 0} → ℕ → ℕ → System M → Type 0
Below n k s = (potential n s < k) × (s.pool.finished ≡ false)

main_step-lowers :
    {M : Type 0} (n k : ℕ) (s : System M) (m : Main)
    → s.main ≡ m
    → s.pool.finished ≡ false
    → potential n s ≡ k
    → Safe (Below n k) (main_step s)
unfolding main_step buffer_push
main_step-lowers n k s (producing []) e running is =
    let now = ap left_main e in
    rw (e, main_step)
      (if-Safe (Below n k) (s.pool.remaining == 0) _ _ (λ h. (omega arith, running)) (λ h. tt))
main_step-lowers n k s (producing (job ∷ rest)) e running is =
    let now = ap left_main e in
    rw (e, main_step)
      (if-Safe (Below n k) (s.pool.buf_count == 10) _ _ (λ h. (omega arith, running))
        (λ h. (omega arith, running)))
main_step-lowers n k s (blocked job rest) e running is =
    let now = ap left_main e in
    rw (e, main_step)
      (if-Safe (Below n k) (s.pool.buf_count == 10) _ _ (λ h. tt) (λ h. (omega arith, running)))
main_step-lowers n k s returned e running is = rw (e, main_step) tt
main_step-lowers n k s joining e running is = rw (e, main_step) tt

worker_step-lowers :
    {M : Type 0} (calc : Job → M → M) (n k : ℕ) (s : System M) (i : ℕ) (x : Worker)
    → s.worker i ≡ x
    → i < n
    → s.pool.finished ≡ false
    → potential n s ≡ k
    → busy (s.worker i) ≤ s.pool.remaining
    → Safe (Below n k) (worker_step calc i s)
unfolding worker_step buffer_pop
worker_step-lowers calc n k s i idle e lt running is counted =
    let sum = over-put left_of n s i (taken (s.pool.buffer s.pool.head)) lt in
    let was = ap left_of e in
    rw (e, worker_step)
      (if-Safe (Below n k) ((s.pool.buf_count == 0) && not s.pool.finished) _ _ (λ h. tt)
        (λ go. if-Safe (Below n k) s.pool.finished _ _ (λ done. cc) (λ h. (ground arith, running))))
worker_step-lowers calc n k s i (taken job) e lt running is counted =
    let sum = over-put left_of n s i calculated lt in
    let was = ap left_of e in rw (e, worker_step) (omega arith, running)
worker_step-lowers calc n k s i calculated e lt running is counted =
    let sum = over-put left_of n s i idle lt in
    let was = ap left_of e in
    let one = ap busy e in
    let more : (s.pool.remaining == 0) ≡ false = ground (arith, counted) in
    rw (e, more, worker_step) (omega arith, running)
worker_step-lowers calc n k s i exited e lt running is counted = rw (e, worker_step) tt

module _ {M : Type 0} (calc : Job → M → M) (n : ℕ) {jobs : List Job} {start : M} where
  pub busy-remaining :
      (s : System M) (i : ℕ)
      → i < n
      → Inv calc n jobs start s
      → busy (s.worker i) ≤ s.pool.remaining
  busy-remaining s i lt inv =
      omega (arith, inv.remaining_is, over-at (λ j. busy (s.worker j)) n i lt)

  pub Step-lowers :
      {s s' : System M}
      → Inv calc n jobs start s
      → s.pool.finished ≡ false
      → Step calc n s s'
      → Below n (potential n s) s'
  Step-lowers {s} inv running (by_main e) =
      subst (Safe (Below n (potential n s))) e
        (main_step-lowers n (potential n s) s s.main refl running refl)
  Step-lowers {s} inv running (by_worker i lt e) = subst (Safe (Below n (potential n s))) e (
      worker_step-lowers calc n (potential n s) s i (s.worker i) refl lt running refl
        (busy-remaining s i lt inv))
