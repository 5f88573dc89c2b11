-- ===== src/Crepl/Tests.antt =====
-- A session that defines a variable, changes it twice with a blank line between, and runs out of memory;
-- and an expression of 4070 bytes, which does not fit into the buffer.
use nju_os_workbench.Base.{
  ℕ, ◌+◌, ◌-◌, ltb, ◌≡◌, refl, sym, ap, true, false, Option, none, some, List, [], ◌∷◌, arith,
  replicate,
}
use nju_os_workbench.Crepl.{
  Text, Tools, Output, main, prompt, overflow, defined, printed, not_written,
}
unfoldable use nju_os_workbench.Crepl.{
  round, write_to_file, compile_to_share, load_and_output, use_library, finish,
}
unfoldable use nju_os_workbench.Crepl.Toolchain.{reference, AllAdmit}
use nju_os_workbench.Crepl.Toolchain.{
  Meaning, IsToolchain, World, with_library, without_library, Fate, works, no_memory, lines_of,
}
use nju_os_workbench.Crepl.Session.{main-reference}

-- The memory is the value of `x`, and each expression is `++x`.
abbrev meaning : Meaning
meaning = record {
  Memory = ℕ;
  well_formed = λ src. true;
  loadable = λ world src. true;
  initialised = λ world src. world.memory;
  closed = λ world src. true;
  value = λ world src. world.memory + 1;
  left_behind = λ world src. world.memory + 1;
}

-- the last file, the libraries, `x`, and the calls of malloc that are still granted
record Host : Type 0 where
  file : Text
  loaded : List Text
  x : ℕ
  room : ℕ

abbrev others : List Text → List Text
others [] = []
others (src ∷ rest) = rest

abbrev top : List Text → Option Text
top [] = none
top (src ∷ rest) = some src

abbrev host : Tools
host = record {
  State = Host;
  allocates = λ s. ltb 0 s.room;
  write_file = λ s path text. some (record s { file = text; room = s.room - 1 });
  compile = λ s c so. (s, true);
  dlopen = λ s so. (record s { loaded = s.file ∷ s.loaded }, some 0);
  dlsym = λ s h name. some 0;
  call = λ s f. (record s { x = s.x + 1 }, s.x + 1);
  dlclose = λ s h. record s { loaded = others s.loaded };
}

some-eq : {A : Type 0} {a b : A} → some a ≡ some b → a ≡ b
some-eq e = cc

false-true : true ≡ false → ⊥
false-true e = cc

abbrev world_of : Host → World ℕ
world_of s = record { sources = s.loaded; memory = s.x }

host-IsToolchain : IsToolchain host meaning
host-IsToolchain = record {
  world = world_of;
  known = λ s path. false;
  source = λ s path. some s.file;
  built = λ s path. some s.file;
  library = λ s h. top s.loaded;
  symbol = λ s f. top s.loaded;
  writes = λ s s' path text e. (sym (ap world_of (some-eq e)), refl);
  compiles = λ s c so. (λ done src e. e, refl, refl);
  loads = λ s so src e new load. (
    record s { loaded = s.file ∷ s.loaded },
    0,
    refl,
    e,
    ap (λ (t : Text). with_library meaning (world_of s) t) (some-eq e),
    λ p ne. refl,
  );
  refuses = λ s so src e new load. let never : true ≡ false = load in cc;
  finds = λ s h name line e. (0, refl, e);
  calls = λ s h f src before e e' is_world closed. (
    record s { x = s.x + 1 },
    ap (λ (w : World ℕ). (record s { x = s.x + 1 }, w.memory + 1)) is_world,
    ap
        (λ (w : World ℕ).
          without_library meaning (record { sources = others w.sources; memory = w.memory }) src)
        is_world,
    refl,
  );
}

abbrev digits : ℕ → Text
digits k = k ∷ []

digits_apart : (j k : ℕ) → digits j ≡ digits k → j ≡ k
digits_apart j k e = cc

abbrev define_x : Text
define_x = b'i' ∷ b'n' ∷ b't' ∷ b' ' ∷ b'x' ∷ b';' ∷ 10 ∷ []

abbrev next_x : Text
next_x = b'+' ∷ b'+' ∷ b'x' ∷ 10 ∷ []

abbrev session : List (Text × Fate)
session =
    (define_x, works)
    ∷ (next_x, works)
    ∷ (10 ∷ [], works)
    ∷ (next_x, works)
    ∷ (next_x, no_memory)
    ∷ []

abbrev fresh_host : Host
fresh_host = record { file = []; loaded = []; x = 0; room = 3 }

abbrev answers : List Output
answers =
    prompt
    ∷ defined
    ∷ prompt
    ∷ printed 1
    ∷ prompt
    ∷ not_written
    ∷ prompt
    ∷ printed 2
    ∷ prompt
    ∷ not_written
    ∷ prompt
    ∷ []

session_replies : reference digits meaning (world_of fresh_host) 0 session ≡ answers
unfolding reference
session_replies = refl

main-reference_example :
    main digits host (lines_of session) 0 fresh_host
    ≡ reference digits meaning (world_of fresh_host) 0 session
unfolding AllAdmit host-IsToolchain round write_to_file compile_to_share load_and_output use_library
    finish
main-reference_example =
    main-reference digits meaning digits_apart host host-IsToolchain session (world_of fresh_host) 0
      fresh_host (λ j lt. refl) refl
      (
        (omega arith, λ e. refl),
        λ full. (refl, record fresh_host { file = define_x; room = 2 }, refl, refl, refl),
        (
          (omega arith, λ e. refl),
          λ full. (refl, _, refl, refl, refl),
          (
            (omega arith, λ e. refl),
            λ blank. absurd (false-true blank),
            (
              (omega arith, λ e. refl),
              λ full. (refl, _, refl, refl, refl),
              ((omega arith, λ e. refl), λ full. refl, tt),
            ),
          ),
        ),
      )

too_long : main digits host (replicate 4070 b'1' ∷ []) 0 fresh_host ≡ prompt ∷ overflow ∷ []
unfolding main round write_to_file
too_long = refl
