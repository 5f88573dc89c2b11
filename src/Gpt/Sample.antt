-- ===== src/Gpt/Sample.antt =====
-- `sample_mult` and `main` of M3-gpt/gpt.c. `F` is `float`; `forward tokens t` is the row of
-- probabilities that `gpt2_forward` leaves for the token behind the first `t`, and `strtol` is a
-- parameter as well.
use nju_os_workbench.Base.{
  length-set, get_elem?-set_ne, ℕ, zero, suc, ◌+◌, ◌-◌, ◌<◌, ◌≡◌, refl, sym, ap, ◌∙◌, subst, ◌⊎◌,
  inl, inr, Bool, true, false, Option, none, some, List, [], ◌∷◌, arith, ltb, ◌==◌, if◌then◌else◌,
  Bool-cases, Option-cases, length, get_elem?, set, take,
}

pub record Floats (F : Type 0) : Type 0 where
  pub zero_float : F
  pub half : F
  pub add_float : F → F → F
  pub is_less : F → F → Bool

abbrev pub gpt2_eot : ℕ
gpt2_eot = 50256

-- the token limit
abbrev pub token_limit : ℕ
token_limit = 20

module _ {F : Type 0} (float : Floats F) where
  -- the loop, from the `i`th probability on
  unfoldable pub sample_loop : List F → (i : ℕ) → (cdf : F) → Option ℕ
  sample_loop [] i cdf = none
  sample_loop (p ∷ probabilities) i cdf =
      let cdf' = float.add_float cdf p in
      let rest = sample_loop probabilities (i + 1) cdf' in
      if float.is_less float.half cdf' then some i else rest

  -- `n` is the length of the list, which is not empty.
  unfoldable pub sample_mult : List F → ℕ
  unfolding sample_loop
  sample_mult probabilities = elim (sample_loop probabilities 0 float.zero_float) [
    | some i ↦ i
    | none ↦ length probabilities - 1
  ]

  -- the tokens that `main` starts with: the arguments, and the end-of-text token behind them
  unfoldable pub first_tokens : (strtol : List ℕ → ℕ) → (k : ℕ) → List (List ℕ) → List ℕ
  first_tokens strtol zero args = []
  first_tokens strtol (suc k) [] = gpt2_eot ∷ first_tokens strtol k []
  first_tokens strtol (suc k) (arg ∷ args) = strtol arg ∷ first_tokens strtol k args

  -- the loop for the `k` tokens from `t` on, which are also printed
  unfoldable pub generate : (forward : List ℕ → ℕ → List F) → (k t : ℕ) → (tokens : List ℕ) → List ℕ
  unfolding sample_mult
  generate forward zero t tokens = tokens
  generate forward (suc k) t tokens =
      generate forward k (t + 1) (set tokens t (sample_mult (forward tokens t)))

  -- `args` are the arguments behind the program's name; `none` is `exit(1)`.
  unfoldable pub gpt_main :
      (strtol : List ℕ → ℕ)
      → (forward : List ℕ → ℕ → List F) → (args : List (List ℕ)) → Option (List ℕ)
  gpt_main strtol forward args =
      if length args == 0
      then none
      else if ltb token_limit (length args + 1)
      then none
      else some (
          generate forward (token_limit - length args) (length args)
            (first_tokens strtol token_limit args))

  -- the probability of the first ones together, as the loop adds it up
  unfoldable pub cdf_of : F → List F → F
  cdf_of cdf [] = cdf
  cdf_of cdf (p ∷ ps) = cdf_of (float.add_float cdf p) ps

  -- The sum of the first `i + 1` is the first one above a half.
  abbrev pub IsFirst : F → List F → ℕ → Type 0
  IsFirst cdf ps i =
      (i < length ps)
      × (float.is_less float.half (cdf_of cdf (take (suc i) ps)) ≡ true)
      × ((j : ℕ) → j < i → float.is_less float.half (cdf_of cdf (take (suc j) ps)) ≡ false)

  before-cons :
      (p : F) (ps : List F) (cdf : F) (k : ℕ)
      → float.is_less float.half (float.add_float cdf p) ≡ false
      → ((j : ℕ)
          → j < k
          → float.is_less float.half (cdf_of (float.add_float cdf p) (take (suc j) ps)) ≡ false)
      → (j : ℕ) → j < suc k
      → float.is_less float.half (cdf_of cdf (take (suc j) (p ∷ ps))) ≡ false
  unfolding cdf_of
  before-cons p ps cdf k first before zero lt = first
  before-cons p ps cdf k first before (suc j) lt = before j (omega arith)

  sample_loop-some :
      (ps : List F) (i : ℕ) (cdf : F) (r : ℕ)
      → sample_loop ps i cdf ≡ some r
      → (k : ℕ) × (r ≡ i + k) × IsFirst cdf ps k
  unfolding sample_loop cdf_of
  sample_loop-some [] i cdf r e = absurd (let no_way = e in cc)
  sample_loop-some (p ∷ ps) i cdf r e =
      elim (Bool-cases (float.is_less float.half (float.add_float cdf p))) [
        | inl here ↦
            let e' : some i ≡ some r = ground arith in
            let is : i ≡ r = cc in
            (0, omega arith, (omega arith, here, λ j lt. absurd (omega arith)))
        | inr later ↦
            let e' : sample_loop ps (i + 1) (float.add_float cdf p) ≡ some r = ground arith in
            let (k, is, (lt, found, before)) =
              sample_loop-some ps (i + 1) (float.add_float cdf p) r e' in
            (suc k, omega arith, (omega arith, found, before-cons p ps cdf k later before))
      ]

  sample_loop-none :
      (ps : List F) (i : ℕ) (cdf : F)
      → sample_loop ps i cdf ≡ none
      → (j : ℕ) → j < length ps
      → float.is_less float.half (cdf_of cdf (take (suc j) ps)) ≡ false
  unfolding sample_loop
  sample_loop-none [] i cdf e = λ j lt. absurd (omega arith)
  sample_loop-none (p ∷ ps) i cdf e =
      elim (Bool-cases (float.is_less float.half (float.add_float cdf p))) [
        | inl here ↦ absurd (let e' : some i ≡ none = ground arith in cc)
        | inr later ↦
            let e' : sample_loop ps (i + 1) (float.add_float cdf p) ≡ none = ground arith in
            before-cons p ps cdf (length ps) later
              (sample_loop-none ps (i + 1) (float.add_float cdf p) e')
      ]

  -- `sample_mult` returns the first index up to which the probabilities add up to more than a half,
  -- and the last index where they never do.
  pub sample_mult-IsFirst :
      (ps : List F)
      → IsFirst float.zero_float ps (sample_mult ps)
        ⊎ ((sample_mult ps ≡ length ps - 1)
            × ((j : ℕ)
                → j < length ps
                → float.is_less float.half (cdf_of float.zero_float (take (suc j) ps)) ≡ false))
  unfolding sample_mult
  sample_mult-IsFirst ps = elim (Option-cases (sample_loop ps 0 float.zero_float)) [
    | inl never ↦ inr (rw (never, sample_mult) refl, sample_loop-none ps 0 float.zero_float never)
    | inr (r, found) ↦
        let (k, is, first) = sample_loop-some ps 0 float.zero_float r found in
        let here : r ≡ k = omega arith in
        inl (subst (λ x. IsFirst float.zero_float ps x) (sym (rw (found, sample_mult) here)) first)
  ]

  generate-keeps :
      (forward : List ℕ → ℕ → List F) (k t : ℕ) (tokens : List ℕ)
      → (length (generate forward k t tokens) ≡ length tokens)
        × ((i : ℕ) → i < t → get_elem? (generate forward k t tokens) i ≡ get_elem? tokens i)
  unfolding generate
  generate-keeps forward zero t tokens = (refl, λ i lt. refl)
  generate-keeps forward (suc k) t tokens =
      let next = sample_mult (forward tokens t) in
      let (len, same) = generate-keeps forward k (t + 1) (set tokens t next) in
      (
        len ∙ length-set tokens t next,
        λ i lt. same i (omega arith) ∙ get_elem?-set_ne tokens next (λ e. omega arith),
      )

  first_tokens-length :
      (strtol : List ℕ → ℕ) (k : ℕ) (args : List (List ℕ)) → length (first_tokens strtol k args) ≡ k
  unfolding first_tokens
  first_tokens-length strtol zero args = refl
  first_tokens-length strtol (suc k) [] = ap suc (first_tokens-length strtol k [])
  first_tokens-length strtol (suc k) (arg ∷ args) = ap suc (first_tokens-length strtol k args)

  first_tokens-args :
      (strtol : List ℕ → ℕ) (k : ℕ) (args : List (List ℕ)) (i : ℕ) (arg : List ℕ)
      → i < k
      → get_elem? args i ≡ some arg
      → get_elem? (first_tokens strtol k args) i ≡ some (strtol arg)
  unfolding first_tokens
  first_tokens-args strtol zero args i arg lt e = absurd (omega arith)
  first_tokens-args strtol (suc k) [] i arg lt e = absurd (let no_way = e in cc)
  first_tokens-args strtol (suc k) (a ∷ args) zero arg lt e =
      let same : a ≡ arg = cc in ap (λ x. some (strtol x)) same
  first_tokens-args strtol (suc k) (a ∷ args) (suc i) arg lt e =
      first_tokens-args strtol k args i arg (omega arith) e

  -- With one to 19 arguments `main` ends with 20 tokens, of which the first ones are the arguments.
  pub gpt_main-prompt :
      (strtol : List ℕ → ℕ) (forward : List ℕ → ℕ → List F) (args : List (List ℕ))
      → 0 < length args
      → length args < 20
      → (tokens : List ℕ) × (gpt_main strtol forward args ≡ some tokens)
        × (length tokens ≡ 20)
        × ((i : ℕ) (arg : List ℕ)
            → get_elem? args i ≡ some arg
            → i < length args
            → get_elem? tokens i ≡ some (strtol arg))
  unfolding gpt_main
  gpt_main-prompt strtol forward args some_arg few =
      let a : (length args == 0) ≡ false = ground arith in
      let b : ltb 20 (length args + 1) ≡ false = ground arith in
      let (len, same) =
        generate-keeps forward (20 - length args) (length args) (first_tokens strtol 20 args) in
      (
        generate forward (20 - length args) (length args) (first_tokens strtol 20 args),
        rw (a, b, gpt_main) refl,
        len ∙ first_tokens-length strtol 20 args,
        λ i arg e lt. same i lt ∙ first_tokens-args strtol 20 args i arg (omega arith) e,
      )
