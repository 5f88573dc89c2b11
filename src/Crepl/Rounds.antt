-- ===== src/Crepl/Rounds.antt =====
-- One line of M4-crepl/crepl.c: the file, the library and the call.
use nju_os_workbench.Base.{
  ℕ, ◌+◌, ◌<◌, ◌≡◌, refl, ap, ◌∙◌, Bool, true, false, none, some, [], arith, leb, if◌then◌else◌,
  length,
}
use nju_os_workbench.Crepl.{
  Text, Info, Tools, not_written, not_compiled, not_loaded, defined, printed, is_blank, is_function,
  c_name, so_name, wrapper_name, info_of, no_info, goes_on, use_library, finish,
}
unfoldable use nju_os_workbench.Crepl.{write_to_file, compile_to_share, load_and_output, round}
use nju_os_workbench.Crepl.Toolchain.{Meaning, IsToolchain, text_of}

module _ (two_digits : ℕ → Text) (meaning : Meaning)
    (apart : (j k : ℕ) → two_digits j ≡ two_digits k → j ≡ k) (T : Tools)
    (tools : IsToolchain T meaning) where
  pub blank_written :
      (line : Text) (k : ℕ) (s : T.State)
      → is_blank line ≡ true
      → write_to_file two_digits T line k s ≡ no_info k
  unfolding write_to_file
  blank_written line k s e = rw e refl

  pub round_blank :
      (line : Text) (k : ℕ) (s : T.State)
      → is_blank line ≡ true
      → round two_digits T line k s ≡ goes_on not_written k s
  unfolding round
  round_blank line k s e = rw (blank_written line k s e, round) refl

  pub no_memory_written :
      (line : Text) (k : ℕ) (s : T.State)
      → is_blank line ≡ false
      → T.allocates s ≡ false
      → write_to_file two_digits T line k s ≡ no_info k
  unfolding write_to_file
  no_memory_written line k s full e = rw (full, e) refl

  pub round_no_memory :
      (line : Text) (k : ℕ) (s : T.State)
      → is_blank line ≡ false
      → T.allocates s ≡ false
      → round two_digits T line k s ≡ goes_on not_written k s
  unfolding round
  round_no_memory line k s full e = rw (no_memory_written line k s full e, round) refl

  pub no_file_written :
      (line : Text) (k : ℕ) (s : T.State)
      → is_blank line ≡ false
      → length (text_of two_digits meaning k line) < 4096
      → T.allocates s ≡ true
      → T.write_file s (c_name two_digits (k + 1)) (text_of two_digits meaning k line) ≡ none
      → write_to_file two_digits T line k s ≡ no_info (k + 1)
  unfolding write_to_file
  no_file_written line k s full fits there e =
      let room : leb 4096 (length (text_of two_digits meaning k line)) ≡ false = ground arith in
      rw (full, there) (rw room (rw (e, write_to_file) refl))

  pub round_no_file :
      (line : Text) (k : ℕ) (s : T.State)
      → is_blank line ≡ false
      → length (text_of two_digits meaning k line) < 4096
      → T.allocates s ≡ true
      → T.write_file s (c_name two_digits (k + 1)) (text_of two_digits meaning k line) ≡ none
      → round two_digits T line k s ≡ goes_on not_written (k + 1) s
  unfolding round
  round_no_file line k s full fits there e =
      rw (no_file_written line k s full fits there e, round) refl

  unfoldable pub info : ℕ → Text → Info
  info k line = record {
    wrapper_func = if is_function line then [] else wrapper_name two_digits (k + 1);
    cfile = c_name two_digits (k + 1);
    sofile = so_name two_digits (k + 1);
    sequence = k + 1;
  }

  pub full_written :
      (line : Text) (k : ℕ) (s s1 : T.State)
      → is_blank line ≡ false
      → length (text_of two_digits meaning k line) < 4096
      → T.allocates s ≡ true
      → T.write_file s (c_name two_digits (k + 1)) (text_of two_digits meaning k line) ≡ some s1
      → write_to_file two_digits T line k s
        ≡ info_of (k + 1) (record (info k line) { sofile = [] }) s1
  unfolding write_to_file info
  full_written line k s s1 full fits there e =
      let room : leb 4096 (length (text_of two_digits meaning k line)) ≡ false = ground arith in
      rw (full, there) (rw room (rw (e, write_to_file) refl))

  pub round_written :
      (line : Text) (k : ℕ) (s s1 s2 : T.State) (done : Bool)
      → is_blank line ≡ false
      → length (text_of two_digits meaning k line) < 4096
      → T.allocates s ≡ true
      → T.write_file s (c_name two_digits (k + 1)) (text_of two_digits meaning k line) ≡ some s1
      → T.compile s1 (c_name two_digits (k + 1)) (so_name two_digits (k + 1)) ≡ (s2, done)
      → round two_digits T line k s ≡ (
          if done
          then goes_on
              (load_and_output two_digits T (info k line) s2).0
              (k + 1)
              (load_and_output two_digits T (info k line) s2).1
          else goes_on not_compiled (k + 1) s2)
  unfolding round compile_to_share info
  round_written line k s s1 s2 done full fits there e e' =
      rw (full_written line k s s1 full fits there e, round) (rw e' refl)

  pub function_loaded :
      (line : Text) (k h : ℕ) (s s' : T.State)
      → is_function line ≡ true
      → T.dlopen s (so_name two_digits (k + 1)) ≡ (s', some h)
      → load_and_output two_digits T (info k line) s ≡ (defined, s')
  unfolding load_and_output use_library info
  function_loaded line k h s s' is e =
      ap (use_library two_digits T (info k line)) e ∙ rw (is, use_library) refl

  pub library_refused :
      (line : Text) (k : ℕ) (s s' : T.State)
      → T.dlopen s (so_name two_digits (k + 1)) ≡ (s', none)
      → load_and_output two_digits T (info k line) s ≡ (not_loaded, s')
  unfolding load_and_output use_library info
  library_refused line k s s' e = ap (use_library two_digits T (info k line)) e

  pub expression_loaded :
      (line : Text) (k h f v : ℕ) (s s' s2 : T.State)
      → is_function line ≡ false
      → T.dlopen s (so_name two_digits (k + 1)) ≡ (s', some h)
      → T.dlsym s' h (wrapper_name two_digits (k + 1)) ≡ some f
      → T.call s' f ≡ (s2, v)
      → load_and_output two_digits T (info k line) s ≡ (printed v, T.dlclose s2 h)
  unfolding load_and_output use_library finish info
  expression_loaded line k h f v s s' s2 is e e' e'' =
      ap (use_library two_digits T (info k line)) e
      ∙ rw (is, use_library) (rw (e', use_library) (ap (finish two_digits T h) e''))

  -- the round of a line whose file was opened, as far as gcc
  pub built_so :
      (line : Text) (k : ℕ) (s s1 : T.State)
      → is_blank line ≡ false
      → length (text_of two_digits meaning k line) < 4096
      → T.allocates s ≡ true
      → T.write_file s (c_name two_digits (k + 1)) (text_of two_digits meaning k line) ≡ some s1
      → let (s2, done) = T.compile s1 (c_name two_digits (k + 1)) (so_name two_digits (k + 1)) in
        (done ≡ true
          → tools.source s1 (c_name two_digits (k + 1)) ≡ some (text_of two_digits meaning k line)
          → tools.built s2 (so_name two_digits (k + 1)) ≡ some (text_of two_digits meaning k line))
        × (tools.world s2 ≡ tools.world s)
        × (tools.known s2 ≡ tools.known s)
        × (round two_digits T line k s ≡ (
            if done
            then goes_on
                (load_and_output two_digits T (info k line) s2).0
                (k + 1)
                (load_and_output two_digits T (info k line) s2).1
            else goes_on not_compiled (k + 1) s2))
  built_so line k s s1 full fits there wrote =
      let (world1, known1) =
        tools.writes s s1 (c_name two_digits (k + 1)) (text_of two_digits meaning k line) wrote in
      let (out, world2, known2) =
        tools.compiles s1 (c_name two_digits (k + 1)) (so_name two_digits (k + 1)) in
      (
        λ done whole. out done (text_of two_digits meaning k line) whole,
        world2 ∙ world1,
        known2 ∙ known1,
        round_written line k s s1 _ _ full fits there wrote refl,
      )
