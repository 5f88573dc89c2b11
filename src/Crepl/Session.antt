-- ===== src/Crepl/Session.antt =====
-- A session of M4-crepl/crepl.c against the reference.
use nju_os_workbench.Base.{
  ℕ, ◌+◌, ◌<◌, ◌≡◌, ◌≢◌, refl, sym, ap, ◌∙◌, subst, inl, inr, Bool, true, false, some, List, [],
  ◌∷◌, arith, Bool-cases,
}
use nju_os_workbench.Crepl.{
  Text, Tools, Output, prompt, not_written, not_compiled, not_loaded, defined, printed, is_blank,
  is_function, so_name, c_name, wrapper_name, wrapped, goes_on,
}
unfoldable use nju_os_workbench.Crepl.{load_and_output, round, main}
use nju_os_workbench.Crepl.Names.{so_name_inj}
use nju_os_workbench.Crepl.Toolchain.{
  Meaning, IsToolchain, text_of, reply, Admits, World, with_library, without_library, Fate,
  no_memory, no_file, no_compiler, works, lines_of, Happens, state_after,
}
unfoldable use nju_os_workbench.Crepl.Toolchain.{reference, AllAdmit}
use nju_os_workbench.Crepl.Rounds.{
  round_blank, round_no_memory, round_no_file, function_loaded, library_refused, expression_loaded,
  built_so,
}
unfoldable use nju_os_workbench.Crepl.Rounds.{info}

module _ (two_digits : ℕ → Text) (meaning : Meaning)
    (apart : (j k : ℕ) → two_digits j ≡ two_digits k → j ≡ k) (T : Tools)
    (tools : IsToolchain T meaning) where
  -- The names with the numbers that are still to come are not known to the loader.
  abbrev pub IsFresh : ℕ → T.State → Type 0
  IsFresh k s = (j : ℕ) → k < j → tools.known s (so_name two_digits j) ≡ false

  IsFresh-after :
      (k : ℕ) (s s' : T.State)
      → IsFresh k s
      → ((p : Text) → p ≢ so_name two_digits (k + 1) → tools.known s' p ≡ tools.known s p)
      → IsFresh (k + 1) s'
  IsFresh-after k s s' fresh same j lt =
      same (so_name two_digits j)
        (λ e. let equal : j ≡ k + 1 = so_name_inj two_digits apart j (k + 1) e in omega arith)
      ∙ fresh j (omega arith)

  -- the round does what `r` says
  Answers : Output × World meaning.Memory × ℕ → Text → ℕ → T.State → Type 0
  Answers r line k s =
      (s' : T.State) × (round two_digits T line k s ≡ goes_on r.0 r.2 s')
      × (tools.world s' ≡ r.1)
      × IsFresh r.2 s'

  loaded-Answers :
      (world : World meaning.Memory) (line : Text) (k : ℕ) (s s2 : T.State)
      → IsFresh k s2
      → tools.world s2 ≡ world
      → is_blank line ≡ false
      → Admits two_digits meaning world k line
      → meaning.well_formed (text_of two_digits meaning k line) ≡ true
      → tools.built s2 (so_name two_digits (k + 1)) ≡ some (text_of two_digits meaning k line)
      → round two_digits T line k s
        ≡ goes_on
            (load_and_output two_digits T (info two_digits meaning apart T tools k line) s2).0
            (k + 1)
            (load_and_output two_digits T (info two_digits meaning apart T tools k line) s2).1
      → Answers (reply two_digits meaning world k line works) line k s
  unfolding Answers
  loaded-Answers world line k s s2 fresh is_world full admits good built runs =
      let unknown = fresh (k + 1) (omega arith) in
      elim (Bool-cases (meaning.loadable world (text_of two_digits meaning k line))) [
        | inr no_load ↦
            let (s3, refused, world3, known3) =
              tools.refuses s2 (so_name two_digits (k + 1)) (text_of two_digits meaning k line)
                built unknown (rw is_world no_load) in
            let says : reply two_digits meaning world k line works ≡ (not_loaded, world, k + 1) =
              rw (full, good, no_load) refl in
            subst (λ r. Answers r line k s) (sym says)
              (
                s3,
                runs
                    ∙ rw (library_refused two_digits meaning apart T tools line k s2 s3 refused)
                        refl,
                world3 ∙ is_world,
                IsFresh-after k s2 s3 fresh known3,
              )
        | inl load ↦
            let (s3, h, opened, lib, world3, known3) =
              tools.loads s2 (so_name two_digits (k + 1)) (text_of two_digits meaning k line) built
                unknown (rw is_world load) in
            let world4 : tools.world s3
                ≡ with_library meaning world (text_of two_digits meaning k line) =
              world3
              ∙ ap
                  (λ (e : World meaning.Memory).
                    with_library meaning e (text_of two_digits meaning k line))
                  is_world in
            elim (Bool-cases (is_function line)) [
              | inl is ↦
                  let says : reply two_digits meaning world k line works ≡ (
                    defined,
                    with_library meaning world (text_of two_digits meaning k line),
                    k + 1,
                  ) =
                    rw (full, good, load, is) refl in
                  subst (λ r. Answers r line k s) (sym says)
                    (
                      s3,
                      runs
                          ∙ rw
                              (function_loaded two_digits meaning apart T tools line k h s2 s3 is
                                opened)
                              refl,
                      world4,
                      IsFresh-after k s2 s3 fresh known3,
                    )
              | inr is ↦
                  let src : Text = text_of two_digits meaning k line in
                  let whole : text_of two_digits meaning k line
                      ≡ wrapped (wrapper_name two_digits (k + 1)) line =
                    rw is refl in
                  let (f, found, sym_f) =
                    tools.finds s3 h (wrapper_name two_digits (k + 1)) line (lib ∙ ap some whole) in
                  let (s4, called, world5, known5) =
                    tools.calls s3 h f src world lib (sym_f ∙ ap some (sym whole)) world4
                      (admits.1 is) in
                  let says : reply two_digits meaning world k line works ≡ (
                    printed (meaning.value (with_library meaning world src) src),
                    without_library meaning world src,
                    k + 1,
                  ) =
                    rw (full, good, load, is) refl in
                  subst (λ r. Answers r line k s) (sym says)
                    (
                      T.dlclose s4 h,
                      runs
                          ∙ rw
                              (expression_loaded two_digits meaning apart T tools line k h f
                                (meaning.value (with_library meaning world src) src) s2 s3 s4 is
                                opened found called)
                              refl,
                      world5,
                      IsFresh-after k s2 (T.dlclose s4 h) fresh
                          (λ p ne. ap (λ (known : Text → Bool). known p) known5 ∙ known3 p ne),
                    )
            ]
      ]

  -- a line whose file was opened
  opened-Answers :
      (world : World meaning.Memory) (line : Text) (k : ℕ) (s s1 : T.State)
      → IsFresh k s
      → tools.world s ≡ world
      → Admits two_digits meaning world k line
      → is_blank line ≡ false
      → T.allocates s ≡ true
      → T.write_file s (c_name two_digits (k + 1)) (text_of two_digits meaning k line) ≡ some s1
      → tools.source s1 (c_name two_digits (k + 1)) ≡ some (text_of two_digits meaning k line)
      → (T.compile s1 (c_name two_digits (k + 1)) (so_name two_digits (k + 1))).1
        ≡ meaning.well_formed (text_of two_digits meaning k line)
      → Answers (reply two_digits meaning world k line works) line k s
  unfolding Answers
  opened-Answers world line k s s1 fresh is_world admits full there wrote whole good =
      let s2 : T.State =
        (T.compile s1 (c_name two_digits (k + 1)) (so_name two_digits (k + 1))).0 in
      let (out, world2, known2, runs) =
        built_so two_digits meaning apart T tools line k s s1 full admits.0 there wrote in
      let fresh2 : IsFresh k s2 =
        λ j lt. ap (λ (known : Text → Bool). known (so_name two_digits j)) known2 ∙ fresh j lt in
      elim (Bool-cases (meaning.well_formed (text_of two_digits meaning k line))) [
        | inl good_text ↦
            loaded-Answers world line k s s2 fresh2 (world2 ∙ is_world) full admits good_text
              (out (good ∙ good_text) whole) (runs ∙ rw (good ∙ good_text) refl)
        | inr bad_text ↦
            let says : reply two_digits meaning world k line works ≡ (not_compiled, world, k + 1) =
              rw (full, bad_text) refl in
            subst (λ r. Answers r line k s) (sym says)
              (
                s2,
                runs ∙ rw (good ∙ bad_text) refl,
                world2 ∙ is_world,
                λ j lt. fresh2 j (omega arith),
              )
      ]

  blank_reply :
      (world : World meaning.Memory) (line : Text) (fate : Fate) (k : ℕ)
      → is_blank line ≡ true
      → reply two_digits meaning world k line fate ≡ (not_written, world, k)
  blank_reply world line no_memory k blank = refl
  blank_reply world line no_file k blank = rw blank refl
  blank_reply world line no_compiler k blank = rw blank refl
  blank_reply world line works k blank = rw blank refl

  blank-Answers :
      (world : World meaning.Memory) (line : Text) (fate : Fate) (k : ℕ) (s : T.State)
      → IsFresh k s
      → tools.world s ≡ world
      → is_blank line ≡ true
      → Answers (reply two_digits meaning world k line fate) line k s
  unfolding Answers
  blank-Answers world line fate k s fresh is_world blank =
      let says : reply two_digits meaning world k line fate ≡ (not_written, world, k) =
        blank_reply world line fate k blank in
      subst (λ r. Answers r line k s) (sym says)
        (s, round_blank two_digits meaning apart T tools line k s blank, is_world, fresh)

  full-Answers :
      (world : World meaning.Memory) (line : Text) (fate : Fate) (k : ℕ) (s : T.State)
      → IsFresh k s
      → tools.world s ≡ world
      → Admits two_digits meaning world k line
      → is_blank line ≡ false
      → Happens two_digits meaning T tools fate k line s
      → Answers (reply two_digits meaning world k line fate) line k s
  unfolding Answers
  full-Answers world line no_memory k s fresh is_world admits full missing =
      (s, round_no_memory two_digits meaning apart T tools line k s full missing, is_world, fresh)
  full-Answers world line no_file k s fresh is_world admits full (there, missing) =
      let says : reply two_digits meaning world k line no_file ≡ (not_written, world, k + 1) =
        rw full refl in
      subst (λ r. Answers r line k s) (sym says)
        (
          s,
          round_no_file two_digits meaning apart T tools line k s full admits.0 there missing,
          is_world,
          λ j lt. fresh j (omega arith),
        )
  full-Answers world line no_compiler k s fresh is_world admits full (there, s1, wrote, fails) =
      let (out, world2, known2, runs) =
        built_so two_digits meaning apart T tools line k s s1 full admits.0 there wrote in
      let says : reply two_digits meaning world k line no_compiler ≡ (not_compiled, world, k + 1) =
        rw full refl in
      subst (λ r. Answers r line k s) (sym says)
        (
          (T.compile s1 (c_name two_digits (k + 1)) (so_name two_digits (k + 1))).0,
          runs ∙ rw fails refl,
          world2 ∙ is_world,
          λ j lt.
              ap (λ (known : Text → Bool). known (so_name two_digits j)) known2
              ∙ fresh j (omega arith),
        )
  full-Answers world line works k s fresh is_world admits full (there, s1, wrote, whole, good) =
      opened-Answers world line k s s1 fresh is_world admits full there wrote whole good

  round-Answers :
      (world : World meaning.Memory) (line : Text) (fate : Fate) (k : ℕ) (s : T.State)
      → IsFresh k s
      → tools.world s ≡ world
      → Admits two_digits meaning world k line
      → (is_blank line ≡ false → Happens two_digits meaning T tools fate k line s)
      → Answers (reply two_digits meaning world k line fate) line k s
  round-Answers world line fate k s fresh is_world admits happens =
      elim (Bool-cases (is_blank line)) [
        | inl blank ↦ blank-Answers world line fate k s fresh is_world blank
        | inr full ↦ full-Answers world line fate k s fresh is_world admits full (happens full)
      ]

  main_next :
      (line : Text) (lines : List Text) (k k' : ℕ) (s s' : T.State) (out : Output)
      → round two_digits T line k s ≡ goes_on out k' s'
      → main two_digits T (line ∷ lines) k s ≡ prompt ∷ out ∷ main two_digits T lines k' s'
  unfolding main
  main_next line lines k k' s s' out e = rw (e, main) refl

  -- A session prints, line by line, what the reference prints, in which the numbered files, the
  -- libraries and their handles do not occur, where %02d tells numbers apart, the loader knows none
  -- of the names to come, each text fits into the buffer, each expression finds what it uses, uses
  -- nothing outside of the libraries and returns, and malloc, fopen and gcc fail at those lines that
  -- the reference is told, the whole text being in the file elsewhere. What the lines leave in the
  -- variables is there for the lines behind.
  pub main-reference :
      (entries : List (Text × Fate)) (world : World meaning.Memory) (k : ℕ) (s : T.State)
      → IsFresh k s
      → tools.world s ≡ world
      → AllAdmit two_digits meaning T tools world k s entries
      → main two_digits T (lines_of entries) k s ≡ reference two_digits meaning world k entries
  unfolding main reference AllAdmit Answers
  main-reference [] world k s fresh is_world admits = refl
  main-reference ((line, fate) ∷ entries) world k s fresh is_world (here, happens, rest) =
      let (s', runs, world', fresh') =
        round-Answers world line fate k s fresh is_world here happens in
      let r : Output × World meaning.Memory × ℕ = reply two_digits meaning world k line fate in
      let behind : AllAdmit two_digits meaning T tools r.1 r.2 s' entries =
        subst
          (λ t.
            AllAdmit two_digits meaning T tools r.1 r.2 (state_after two_digits meaning T tools t s)
              entries)
          runs rest in
      main_next line (lines_of entries) k _ s s' _ runs
      ∙ ap (λ (outs : List Output). prompt ∷ r.0 ∷ outs)
          (main-reference entries r.1 r.2 s' fresh' world' behind)
