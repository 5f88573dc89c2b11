-- ===== src/Crepl.antt =====
-- M4-crepl/crepl.c: a loop that reads lines of C, compiles each into a shared library and loads it. The
-- file system, the compiler and the loader are parameters.
mod Tests
pub mod Names
pub mod Toolchain
pub mod Rounds
pub mod Session
use nju_os_workbench.Base.{
  ℕ, zero, suc, ◌+◌, ◌-◌, ◌*◌, ◌/◌, ◌%◌, ◌^◌, ◌≤◌, ◌<◌, min, ◌≡◌, ◌≢◌, refl, sym, ap, ap₂, ◌∙◌,
  subst, fun_ext, ◌≡⟨◌⟩◌, ◌∎, ◌↔◌, ◌⊎◌, inl, inr, Bool, true, false, not, ◌&&◌, ◌||◌, Option, none,
  some, List, [], ◌∷◌, ◌++◌, map, append-nil, append_assoc, arith, ltb, leb, ◌==◌, if◌then◌else◌,
  tests, Bool-cases, Option-cases, ==_iff, length, length-append, get_elem?,
}
unfoldable use nju_os_workbench.Base.{dec_lt, dec_le, ℕ_discrete}

abbrev pub Text : Type 0
Text = List ℕ

pub record Info : Type 0 where
  pub wrapper_func : Text
  pub cfile : Text
  pub sofile : Text
  pub sequence : ℕ

-- What crepl calls: malloc, fopen with fputs and fclose, gcc in a child (whether its exit status is
-- 0), dlopen, dlsym, a function that was found, and dlclose.
pub record Tools : Type 1 where
  pub State : Type 0
  pub allocates : State → Bool
  pub write_file : State → Text → Text → Option State
  pub compile : State → Text → Text → State × Bool
  pub dlopen : State → Text → State × Option ℕ
  pub dlsym : State → ℕ → Text → Option ℕ
  pub call : State → ℕ → State × ℕ
  pub dlclose : State → ℕ → State

-- one message of `main` for a line, or a write past the end of `func_content`
pub data Output : Type 0 where
  prompt not_written not_compiled not_loaded defined overflow : Output
  printed : ℕ → Output

abbrev pub int_space : Text
int_space = b'i' ∷ b'n' ∷ b't' ∷ b' ' ∷ []

abbrev pub c_prefix : Text
c_prefix = b'/' ∷ b't' ∷ b'm' ∷ b'p' ∷ b'/' ∷ b'c' ∷ b'r' ∷ b'e' ∷ b'p' ∷ b'l' ∷ b'_' ∷ []

abbrev pub wrapper_prefix : Text
wrapper_prefix = b'_' ∷ b'w' ∷ b'r' ∷ b'a' ∷ b'p' ∷ b'p' ∷ b'e' ∷ b'r' ∷ []

abbrev pub return_text : Text
return_text = b'(' ∷ b')' ∷ b' ' ∷ b'{' ∷ b' ' ∷ b'r' ∷ b'e' ∷ b't' ∷ b'u' ∷ b'r' ∷ b'n' ∷ b' ' ∷ []

abbrev pub end_text : Text
end_text = b';' ∷ b' ' ∷ b'}' ∷ []

abbrev pub starts_with : Text → Text → Bool
starts_with [] line = true
starts_with (c ∷ prefix) [] = false
starts_with (c ∷ prefix) (d ∷ line) = (c == d) && starts_with prefix line

-- `line[0] == '\n'`
abbrev pub is_blank : Text → Bool
is_blank [] = false
is_blank (c ∷ line) = c == 10

abbrev pub is_function : Text → Bool
is_function line = starts_with int_space line

abbrev pub wrapped : Text → Text → Text
wrapped name line = int_space ++ (name ++ (return_text ++ (line ++ end_text)))

-- The results of `write_to_file`; `count` is the static variable.
pub data Written (S : Type 0) : Type 0 where
  no_info : (count : ℕ) → Written S
  overflows : Written S
  info_of : (count : ℕ) → Info → S → Written S

-- `two_digits` is what %02d prints.
module _ (two_digits : ℕ → Text) where
  abbrev pub c_name : ℕ → Text
  c_name k = c_prefix ++ (two_digits k ++ (b'.' ∷ b'c' ∷ []))

  abbrev pub so_name : ℕ → Text
  so_name k = c_prefix ++ (two_digits k ++ (b'.' ∷ b's' ∷ b'o' ∷ []))

  abbrev pub wrapper_name : ℕ → Text
  wrapper_name k = wrapper_prefix ++ two_digits k

  abbrev pub func_content : ℕ → Text → Text
  func_content k line = if is_function line then line else wrapped (wrapper_name k) line

  module _ (T : Tools) where
    open T use {State, allocates, write_file, compile, dlopen, dlsym, call, dlclose}

    unfoldable pub write_to_file : Text → ℕ → State → Written State
    write_to_file line count s =
        if is_blank line || not (allocates s)
        then no_info count
        else let k = count + 1 in
          let content = func_content k line in
          if leb 4096 (length content) then overflows else elim (write_file s (c_name k) content) [
            | none ↦ no_info k
            | some s' ↦
                info_of k
                  (record {
                    wrapper_func = if is_function line then [] else wrapper_name k;
                    cfile = c_name k;
                    sofile = [];
                    sequence = k;
                  })
                  s'
          ]

    unfoldable pub compile_to_share : Info → State → Info × State × Bool
    compile_to_share info s =
        let so = so_name info.sequence in
        let (s', done) = compile s info.cfile so in (record info { sofile = so }, s', done)

    -- behind the call of the function
    unfoldable pub finish : (handle : ℕ) → State × ℕ → Output × State
    finish h (s, v) = (printed v, dlclose s h)

    -- behind dlopen
    unfoldable pub use_library : Info → State × Option ℕ → Output × State
    use_library info (s, none) = (not_loaded, s)
    use_library info (s, some h) = elim info.wrapper_func [
      | [] ↦ (defined, s)
      | c ∷ name ↦ elim (dlsym s h (c ∷ name)) [
        | none ↦ (not_loaded, s)
        | some f ↦ finish h (call s f)
      ]
    ]

    unfoldable pub load_and_output : Info → State → Output × State
    load_and_output info s = use_library info (dlopen s info.sofile)

    pub data Step : Type 0 where
      crashes : Step
      goes_on : Output → (count : ℕ) → State → Step

    -- one round of the loop of `main`; `free` is left out
    unfoldable pub round : Text → ℕ → State → Step
    round line count s = elim (write_to_file line count s) [
      | no_info count' ↦ goes_on not_written count' s
      | overflows ↦ crashes
      | info_of count' info s1 ↦
          let (info', s2, done) = compile_to_share info s1 in
          if done
          then (let (out, s3) = load_and_output info' s2 in goes_on out count' s3)
          else goes_on not_compiled count' s2
    ]

    -- `main` on the lines that `fgets` returns
    unfoldable pub main : List Text → ℕ → State → List Output
    main [] count s = prompt ∷ []
    main (line ∷ lines) count s = elim (round line count s) [
      | crashes ↦ prompt ∷ overflow ∷ []
      | goes_on out count' s' ↦ prompt ∷ out ∷ main lines count' s'
    ]
