-- ===== src/Crepl/Toolchain.antt =====
-- What M4-crepl/crepl.c relies on, and a reference for it that has no files.
use nju_os_workbench.Base.{
  ℕ, ◌+◌, ◌<◌, ◌≡◌, ◌≢◌, Bool, true, false, not, Option, none, some, List, [], ◌∷◌, if◌then◌else◌,
  length, map,
}
use nju_os_workbench.Crepl.{
  Text, Tools, Output, prompt, not_written, not_compiled, not_loaded, defined, printed, is_blank,
  is_function, wrapped, func_content, Step, crashes, goes_on, c_name, so_name, round,
}

-- What compiled C finds in the process: the sources of the libraries that are loaded, and the memory
-- with their variables.
pub record World (Memory : Type 0) : Type 0 where
  pub sources : List Text
  pub memory : Memory

-- What C and the system say of sources: whether one compiles; whether its library loads, and what the
-- memory is when its variables are there too; whether its function finds all that it uses, uses
-- nothing outside of the libraries, and returns; what it returns, and what it leaves in memory when
-- its library is closed again.
pub record Meaning : Type 1 where
  pub Memory : Type 0
  pub well_formed : Text → Bool
  pub loadable : World Memory → Text → Bool
  pub initialised : World Memory → Text → Memory
  pub closed : World Memory → Text → Bool
  pub value : World Memory → Text → ℕ
  pub left_behind : World Memory → Text → Memory

-- the process with one library more
abbrev pub with_library : (meaning : Meaning) → World meaning.Memory → Text → World meaning.Memory
with_library meaning world src = record {
  sources = src ∷ world.sources;
  memory = meaning.initialised world src;
}

-- the process when the function of a source was called and its library is closed
abbrev pub without_library :
    (meaning : Meaning) → World meaning.Memory → Text → World meaning.Memory
without_library meaning world src = record {
  sources = world.sources;
  memory = meaning.left_behind (with_library meaning world src) src;
}

-- What the manuals of gcc and of the loader say: `world` is what the libraries that are loaded have in
-- the process, `known` the names of which one has been loaded before. Files and memory may run out.
pub record IsToolchain (T : Tools) (meaning : Meaning) : Type 0 where
  pub world : T.State → World meaning.Memory
  pub known : T.State → Text → Bool
  pub source : T.State → Text → Option Text
  pub built : T.State → Text → Option Text
  pub library : T.State → ℕ → Option Text
  pub symbol : T.State → ℕ → Option Text
  pub writes :
      (s s' : T.State) (path text : Text)
      → T.write_file s path text ≡ some s'
      → (world s' ≡ world s) × (known s' ≡ known s)
  pub compiles :
      (s : T.State) (c so : Text)
      → let (s', done) = T.compile s c so in
        (done ≡ true → (src : Text) → source s c ≡ some src → built s' so ≡ some src)
        × (world s' ≡ world s)
        × (known s' ≡ known s)
  pub loads :
      (s : T.State) (so src : Text)
      → built s so ≡ some src
      → known s so ≡ false
      → meaning.loadable (world s) src ≡ true
      → (s' : T.State) × (h : ℕ) × (T.dlopen s so ≡ (s', some h))
        × (library s' h ≡ some src)
        × (world s' ≡ with_library meaning (world s) src)
        × ((p : Text) → p ≢ so → known s' p ≡ known s p)
  pub refuses :
      (s : T.State) (so src : Text)
      → built s so ≡ some src
      → known s so ≡ false
      → meaning.loadable (world s) src ≡ false
      → (s' : T.State) × (T.dlopen s so ≡ (s', none))
        × (world s' ≡ world s)
        × ((p : Text) → p ≢ so → known s' p ≡ known s p)
  pub finds :
      (s : T.State) (h : ℕ) (name line : Text)
      → library s h ≡ some (wrapped name line)
      → (f : ℕ) × (T.dlsym s h name ≡ some f) × (symbol s f ≡ some (wrapped name line))
  pub calls :
      (s : T.State) (h f : ℕ) (src : Text) (before : World meaning.Memory)
      → library s h ≡ some src
      → symbol s f ≡ some src
      → world s ≡ with_library meaning before src
      → meaning.closed (with_library meaning before src) src ≡ true
      → (s' : T.State) × (T.call s f ≡ (s', meaning.value (with_library meaning before src) src))
        × (world (T.dlclose s' h) ≡ without_library meaning before src)
        × (known (T.dlclose s' h) ≡ known s)

-- What becomes of a line that is not blank: malloc fails, fopen fails, gcc fails for want of memory or
-- room for its files, or none of these.
pub data Fate : Type 0 where
  no_memory no_file no_compiler works : Fate

abbrev pub lines_of : List (Text × Fate) → List Text
lines_of entries = map (λ entry. entry.0) entries

module _ (two_digits : ℕ → Text) (meaning : Meaning) where
  abbrev pub text_of : ℕ → Text → Text
  text_of k line = func_content two_digits (k + 1) line

  -- One line in the reference: the answer, the process then, and the number of files.
  abbrev pub reply : World meaning.Memory → ℕ → Text → Fate → Output × World meaning.Memory × ℕ
  reply world k line no_memory = (not_written, world, k)
  reply world k line no_file =
      if is_blank line then (not_written, world, k) else (not_written, world, k + 1)
  reply world k line no_compiler =
      if is_blank line then (not_written, world, k) else (not_compiled, world, k + 1)
  reply world k line works =
      if is_blank line
      then (not_written, world, k)
      else if not (meaning.well_formed (text_of k line))
      then (not_compiled, world, k + 1)
      else if not (meaning.loadable world (text_of k line))
      then (not_loaded, world, k + 1)
      else if is_function line
      then (defined, with_library meaning world (text_of k line), k + 1)
      else (
        printed (meaning.value (with_library meaning world (text_of k line)) (text_of k line)),
        without_library meaning world (text_of k line),
        k + 1,
      )

  unfoldable pub reference : World meaning.Memory → ℕ → List (Text × Fate) → List Output
  reference world k [] = prompt ∷ []
  reference world k ((line, fate) ∷ entries) =
      let (out, world', k') = reply world k line fate in prompt ∷ out ∷ reference world' k' entries

  -- What is written fits into `func_content`, and the function of an expression finds what it uses.
  abbrev pub Admits : World meaning.Memory → ℕ → Text → Type 0
  Admits world k line =
      (length (text_of k line) < 4096)
      × (is_function line ≡ false
          → meaning.closed (with_library meaning world (text_of k line)) (text_of k line) ≡ true)

  module _ (T : Tools) (tools : IsToolchain T meaning) where
    -- The system deals with the line as its fate says; where it works, the file holds the whole text.
    abbrev pub Happens : Fate → ℕ → Text → T.State → Type 0
    Happens no_memory k line s = T.allocates s ≡ false
    Happens no_file k line s =
        (T.allocates s ≡ true)
        × (T.write_file s (c_name two_digits (k + 1)) (text_of k line) ≡ none)
    Happens no_compiler k line s =
        (T.allocates s ≡ true)
        × (s1 : T.State) × (T.write_file s (c_name two_digits (k + 1)) (text_of k line) ≡ some s1)
        × ((T.compile s1 (c_name two_digits (k + 1)) (so_name two_digits (k + 1))).1 ≡ false)
    Happens works k line s =
        (T.allocates s ≡ true)
        × (s1 : T.State) × (T.write_file s (c_name two_digits (k + 1)) (text_of k line) ≡ some s1)
        × (tools.source s1 (c_name two_digits (k + 1)) ≡ some (text_of k line))
        × ((T.compile s1 (c_name two_digits (k + 1)) (so_name two_digits (k + 1))).1
            ≡ meaning.well_formed (text_of k line))

    abbrev pub state_after : Step two_digits T → T.State → T.State
    state_after crashes s = s
    state_after (goes_on out count s') s = s'

    unfoldable pub AllAdmit : World meaning.Memory → ℕ → T.State → List (Text × Fate) → Type 0
    AllAdmit world k s [] = Unit
    AllAdmit world k s ((line, fate) ∷ entries) =
        Admits world k line
        × (is_blank line ≡ false → Happens fate k line s)
        × AllAdmit (reply world k line fate).1 (reply world k line fate).2
            (state_after (round two_digits T line k s) s) entries
