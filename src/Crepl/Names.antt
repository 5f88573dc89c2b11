-- ===== src/Crepl/Names.antt =====
-- The names of the files in M4-crepl/crepl.c.
use nju_os_workbench.Base.{ℕ, ◌≡◌}
use mathlib.Core.List.{append_cancel_left, append_cancel_right}
use nju_os_workbench.Crepl.{Text, c_prefix, so_name}

-- Where %02d tells numbers apart, so do the names of the libraries.
pub so_name_inj :
    (two_digits : ℕ → Text)
    → ((j k : ℕ) → two_digits j ≡ two_digits k → j ≡ k)
    → (j k : ℕ) → so_name two_digits j ≡ so_name two_digits k
    → j ≡ k
so_name_inj two_digits apart j k e =
    apart j k
      (append_cancel_right (two_digits j) (two_digits k) _ (append_cancel_left c_prefix _ _ e))
