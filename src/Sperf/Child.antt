-- ===== src/Sperf/Child.antt =====
-- The environment that `child_process` of M5-sperf/sperf.c makes for strace.
unfoldable use nju_os_workbench.Sperf.{exec_path}
use nju_os_workbench.Base.{
  none, some, if◌then◌else◌, ltb, suc, refl, true, false, Bool, ◌≡◌, min, ℕ, ◌≤◌, ◌↔◌, List, ◌∷◌,
  arith, length, take, length-take,
}

if-none : (b : Bool) (x : List ℕ) → ((if b then some x else none) ≡ none) ↔ (b ≡ false)
if-none true x = (λ e. cc, λ e. cc)
if-none false x = (λ e. refl, λ e. refl)

room : (m l : ℕ) → m ≡ min 1019 l → (ltb (suc (suc (suc (suc (suc m))))) 1024 ≡ false) ↔ (1019 ≤ l)
room m l e = (λ h. ground arith, λ h. ground arith)

-- `strncat` writes its NUL behind the array `path_str` exactly when PATH has 1019 characters or more.
pub exec_path-none_iff : (path : List ℕ) → (exec_path path ≡ none) ↔ (1019 ≤ length path)
unfolding exec_path
exec_path-none_iff path =
    let (there, back) = room (length (take 1019 path)) (length path) (length-take 1019 path) in
    let (there', back') =
      if-none (ltb (suc (suc (suc (suc (suc (length (take 1019 path))))))) 1024)
        (b'P' ∷ b'A' ∷ b'T' ∷ b'H' ∷ b'=' ∷ take 1019 path) in
    (λ e. there (there' e), λ long. back' (back long))
