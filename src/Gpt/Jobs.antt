-- ===== src/Gpt/Jobs.antt =====
-- The jobs of `matmul_forward` of M3-gpt/gpt.c, one for each row of the result.
use nju_os_workbench.Base.{
  ℕ, zero, suc, ◌+◌, ◌*◌, ◌≤◌, ◌<◌, ◌≡◌, refl, sym, ap, ap₂, ◌∙◌, Bool, true, false, List, [], ◌∷◌,
  ◌++◌, arith, if◌then◌else◌, ◌≢◌,
}
unfoldable use nju_os_workbench.Base.{dec_lt, ℕ_discrete}
use nju_os_workbench.Gpt.Pool.{Job}
use nju_os_workbench.Gpt.Calc.{Product, job_of}
unfoldable use nju_os_workbench.Gpt.Calc.{token_jobs, batch_jobs}
unfoldable use nju_os_workbench.Gpt.Queue.{weigh}

pub Job-discrete : (j k : Job) → Dec (j ≡ k)
Job-discrete = hlevel (ℕ_discrete)

-- row `r` of the result, `b * T + t` in the source
abbrev pub row : Product → ℕ → Job
row p r = record {
  out_bt = p.out + r * p.out_channels;
  inp_bt = p.inp + r * p.channels;
  weight = p.weight;
  bias = p.bias;
  channels = p.channels;
  out_channels = p.out_channels;
}

unfoldable pub rows_from : Product → ℕ → ℕ → List Job
rows_from p zero r = []
rows_from p (suc n) r = row p r ∷ rows_from p n (r + 1)

scaled : (b t n k out : ℕ) → out + b * n * k + t * k ≡ out + (b * n + t) * k
scaled b t n k out = grind arith

pub job_of-row : (p : Product) (b t : ℕ) → job_of p b t ≡ row p (b * p.tokens + t)
unfolding job_of
job_of-row p b t =
    ap₂
      (λ (o i : ℕ). record {
        out_bt = o;
        inp_bt = i;
        weight = p.weight;
        bias = p.bias;
        channels = p.channels;
        out_channels = p.out_channels;
      })
      (scaled b t p.tokens p.out_channels p.out) (scaled b t p.tokens p.channels p.inp)

token_jobs-rows : (p : Product) (n b t : ℕ) → token_jobs p n b t ≡ rows_from p n (b * p.tokens + t)
unfolding token_jobs rows_from
token_jobs-rows p zero b t = refl
token_jobs-rows p (suc n) b t =
    let next : b * p.tokens + (t + 1) ≡ b * p.tokens + t + 1 = omega arith in
    ap₂ {C = List Job} ◌∷◌ (job_of-row p b t)
      (token_jobs-rows p n b (t + 1) ∙ ap (rows_from p n) next)

rows_from-append :
    (p : Product) (m n r : ℕ) → rows_from p m r ++ rows_from p n (r + m) ≡ rows_from p (m + n) r
unfolding rows_from
rows_from-append p zero n r =
    let here : r + 0 ≡ r = omega arith in let all : 0 + n ≡ n = omega arith in rw (here, all) refl
rows_from-append p (suc m) n r =
    let there : r + suc m ≡ r + 1 + m = omega arith in
    let all : suc m + n ≡ suc (m + n) = omega arith in
    rw (there, all) (ap (λ (js : List Job). row p r ∷ js) (rows_from-append p m n (r + 1)))

pub batch_jobs-rows :
    (p : Product) (n b : ℕ) → batch_jobs p n b ≡ rows_from p (n * p.tokens) (b * p.tokens)
unfolding batch_jobs rows_from
batch_jobs-rows p zero b = let empty : 0 * p.tokens ≡ 0 = omega arith in rw empty refl
batch_jobs-rows p (suc n) b =
    let all : suc n * p.tokens ≡ p.tokens + n * p.tokens = grind arith in
    let after : (b + 1) * p.tokens ≡ b * p.tokens + p.tokens = grind arith in
    let first : b * p.tokens + 0 ≡ b * p.tokens = omega arith in
    ap₂ {C = List Job} ◌++◌ (token_jobs-rows p p.tokens b 0 ∙ ap (rows_from p p.tokens) first)
      (batch_jobs-rows p n (b + 1) ∙ ap (rows_from p (n * p.tokens)) after)
    ∙ rows_from-append p p.tokens (n * p.tokens) (b * p.tokens)
    ∙ ap (λ (k : ℕ). rows_from p k (b * p.tokens)) (sym all)

-- the weight of the jobs that are not one of the first `n` rows
unfoldable pub is_row : Product → ℕ → Job → Bool
is_row p zero j = false
is_row p (suc n) j = elim (Job-discrete j (row p n)) [ yes e ↦ true | no ne ↦ is_row p n j ]

pub is_row_sound :
    (p : Product) (n : ℕ) (j : Job) → is_row p n j ≡ true → (r : ℕ) × (r < n) × (j ≡ row p r)
unfolding is_row
is_row_sound p zero j e = cc
is_row_sound p (suc n) j e =
    elim (Job-discrete j (row p n))
        as (λ d.
          (elim d [ yes e ↦ true | no ne ↦ is_row p n j ]) ≡ true
          → (r : ℕ) × (r < suc n) × (j ≡ row p r)) [
            | yes same ↦ λ h. (n, omega arith, same)
            | no other ↦ λ h. let (r, lt, is) = is_row_sound p n j h in (r, omega arith, is)
          ]
      e

pub is_row_complete : (p : Product) (n r : ℕ) → r < n → is_row p n (row p r) ≡ true
unfolding is_row
is_row_complete p zero r lt = elim lt [ ]
is_row_complete p (suc n) r lt =
    elim (Job-discrete (row p r) (row p n))
      as (λ d. (elim d [ yes e ↦ true | no ne ↦ is_row p n (row p r) ]) ≡ true) [
        | yes same ↦ refl
        | no other ↦ is_row_complete p n r (ground (arith, λ (e : r ≡ n). other (ap (row p) e)))
      ]

abbrev pub strange : Product → ℕ → Job → ℕ
strange p n j = if is_row p n j then 0 else 1

pub weigh-strange :
    (p : Product) (n k r : ℕ) → r + k ≤ n → weigh (strange p n) (rows_from p k r) ≡ 0
unfolding weigh rows_from
weigh-strange p n zero r le = refl
weigh-strange p n (suc k) r le =
    rw (is_row_complete p n r (omega arith))
      (omega (arith, weigh-strange p n k (r + 1) (omega arith)))

-- how often a job is row `r`
unfoldable pub counts : Product → ℕ → Job → ℕ
counts p r j = elim (Job-discrete j (row p r)) [ yes e ↦ 1 | no ne ↦ 0 ]

counts_self : (p : Product) (r : ℕ) → counts p r (row p r) ≡ 1
unfolding counts
counts_self p r =
    elim (Job-discrete (row p r) (row p r))
      as (λ d. ◌≡◌ {A = ℕ} (elim d [ yes e ↦ 1 | no ne ↦ 0 ]) 1) [
        | yes same ↦ refl
        | no other ↦ absurd (other refl)
      ]

pub counts_ne : (p : Product) (r : ℕ) (j : Job) → j ≢ row p r → counts p r j ≡ 0
unfolding counts
counts_ne p r j ne =
    elim (Job-discrete j (row p r)) as (λ d. ◌≡◌ {A = ℕ} (elim d [ yes e ↦ 1 | no ne ↦ 0 ]) 0) [
      | yes same ↦ absurd (ne same)
      | no other ↦ refl
    ]

pub weigh-counts :
    (p : Product) (k r r' : ℕ) → r ≤ r' → r' < r + k → 1 ≤ weigh (counts p r') (rows_from p k r)
unfolding weigh rows_from
weigh-counts p zero r r' lo hi = absurd (omega arith)
weigh-counts p (suc k) r r' lo hi = elim (dec_lt r r') [
  | yes later ↦ omega (arith, weigh-counts p k (r + 1) r' (omega arith) (omega arith))
  | no now ↦
      let here : counts p r' (row p r) ≡ 1 =
        ap (λ (i : ℕ). counts p r' (row p i)) (omega arith) ∙ counts_self p r' in
      omega arith
]
