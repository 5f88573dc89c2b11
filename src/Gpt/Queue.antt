-- ===== src/Gpt/Queue.antt =====
-- What the jobs in the ring buffer of M3-gpt/gpt.c, in a list and at the workers add up to, for any
-- weight of a job, and how `buffer_push`, `buffer_pop` and a step of a worker change it.
use nju_os_workbench.Gpt.Pool.{Job}
use nju_os_workbench.Base.{
  ℕ, zero, suc, ◌+◌, ◌%◌, ◌≤◌, ◌<◌, ◌≡◌, ◌≢◌, refl, sym, ap, ap₂, subst, true, false, List, [], ◌∷◌,
  arith, ◌==◌, if◌then◌else◌, ◌-◌,
}
unfoldable use nju_os_workbench.Base.{ℕ_discrete}

unfoldable pub weigh : (Job → ℕ) → List Job → ℕ
weigh w [] = 0
weigh w (job ∷ jobs) = w job + weigh w jobs

-- the weight of `k` places of the ring from `h` on
unfoldable pub queued : (Job → ℕ) → (ℕ → Job) → ℕ → ℕ → ℕ
queued w buffer h zero = 0
queued w buffer h (suc k) = w (buffer (h % 10)) + queued w buffer (suc h) k

queued-mod :
    (w : Job → ℕ) (buffer : ℕ → Job) (k h h' : ℕ)
    → h % 10 ≡ h' % 10
    → queued w buffer h k ≡ queued w buffer h' k
unfolding queued
queued-mod w buffer zero h h' e = refl
queued-mod w buffer (suc k) h h' e =
    rw e (ap (λ x. w (buffer (h' % 10)) + x) (queued-mod w buffer k (suc h) (suc h') (omega arith)))

-- `buffer_pop`
pub queued-pop :
    (w : Job → ℕ) (buffer : ℕ → Job) (h k : ℕ)
    → h < 10
    → (k == 0) ≡ false
    → queued w buffer h k ≡ w (buffer h) + queued w buffer ((h + 1) % 10) (k - 1)
unfolding queued
queued-pop w buffer h zero small some_left = cc
queued-pop w buffer h (suc k) small some_left =
    let here : h % 10 ≡ h = omega arith in
    let less : suc k - 1 ≡ k = omega arith in
    rw (here, less)
      (ap (λ x. w (buffer h) + x) (queued-mod w buffer k (suc h) ((h + 1) % 10) (omega arith)))

abbrev pub put : (ℕ → Job) → ℕ → Job → ℕ → Job
put buffer t job i = if i == t then job else buffer i

queued-put :
    (w : Job → ℕ) (buffer : ℕ → Job) (job : Job) (t k h j : ℕ)
    → k + j < 10
    → (h + (k + j)) % 10 ≡ t
    → queued w (put buffer t job) h k ≡ queued w buffer h k
unfolding queued
queued-put w buffer job t zero h j few e = refl
queued-put w buffer job t (suc k) h j few e =
    let free : (h % 10 == t) ≡ false = ground arith in
    rw (free, queued-put w buffer job t k (suc h) j (omega arith) (omega arith)) refl

queued-last :
    (w : Job → ℕ) (buffer : ℕ → Job) (k h : ℕ)
    → queued w buffer h (suc k) ≡ queued w buffer h k + w (buffer ((h + k) % 10))
unfolding queued
queued-last w buffer zero h = let e : (h + 0) % 10 ≡ h % 10 = omega arith in rw e (omega arith)
queued-last w buffer (suc k) h =
    let rest = queued-last w buffer k (suc h) in
    let e : (suc h + k) % 10 ≡ (h + suc k) % 10 = omega arith in
    let rest' =
      subst (λ t. queued w buffer (suc h) (suc k) ≡ queued w buffer (suc h) k + w (buffer t)) e
        rest in
    omega arith

-- `buffer_push`
pub queued-push :
    (w : Job → ℕ) (buffer : ℕ → Job) (job : Job) (h k t : ℕ)
    → k < 10
    → (h + k) % 10 ≡ t
    → queued w (put buffer t job) h (k + 1) ≡ queued w buffer h k + w job
queued-push w buffer job h k t few e =
    let last = queued-last w (put buffer t job) k h in
    let first = queued-put w buffer job t k h 0 (omega arith) (omega arith) in
    let slot : ((h + k) % 10 == t) ≡ true = ground arith in
    let e' : k + 1 ≡ suc k = omega arith in rw (e', last, first, slot) refl

-- the sum of `f` over the workers below `n`
unfoldable pub over : (ℕ → ℕ) → ℕ → ℕ
over f zero = 0
over f (suc n) = f n + over f n

pub over-same : (f g : ℕ → ℕ) (n : ℕ) → ((j : ℕ) → j < n → f j ≡ g j) → over f n ≡ over g n
unfolding over
over-same f g zero e = refl
over-same f g (suc n) e =
    ap₂ (λ a b. a + b) (e n (omega arith)) (over-same f g n (λ j lt. e j (omega arith)))

-- one worker changes
pub over-one :
    (f g : ℕ → ℕ) (n i : ℕ)
    → i < n
    → ((j : ℕ) → j ≢ i → f j ≡ g j)
    → over f n + g i ≡ over g n + f i
unfolding over
over-one f g zero i lt e = absurd (omega arith)
over-one f g (suc n) i lt e = elim (ℕ_discrete i n) [
  | yes last ↦
      let rest = over-same f g n (λ j below. e j (omega arith)) in
      let fi = ap f last in let gi = ap g last in omega arith
  | no before ↦
      let rest = over-one f g n i (omega arith) e in
      let here = e n (λ is. before (sym is)) in omega arith
]

pub over-at : (f : ℕ → ℕ) (n i : ℕ) → i < n → f i ≤ over f n
unfolding over
over-at f zero i lt = absurd (omega arith)
over-at f (suc n) i lt = elim (ℕ_discrete i n) [
  | yes last ↦ let is = ap f last in omega arith
  | no before ↦ omega (arith, over-at f n i (omega arith))
]
