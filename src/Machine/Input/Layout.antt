-- ===== src/Machine/Input/Layout.antt =====
-- The keys of scan code set 1, row by row of the keyboard, against `keylut` of abstract-machine/am/src/x86/qemu/ioe.c.
use nju_os_workbench.Base.{
  ℕ, zero, suc, ◌+◌, ◌-◌, ◌<◌, ◌≡◌, refl, Bool, true, false, ◌&&◌, ◌||◌, List, [], ◌∷◌, ltb, leb,
  ◌==◌, if◌then◌else◌, length,
}
use nju_os_workbench.Base.Ranges.{all_below_sound}
unfoldable use nju_os_workbench.Base.Ranges.{all_below}
use nju_os_workbench.Machine.Input.{
  Key, key_none, key_escape, key_f1, key_f2, key_f3, key_f4, key_f5, key_f6, key_f7, key_f8, key_f9,
  key_f10, key_f11, key_f12, key_grave, key_1, key_2, key_3, key_4, key_5, key_6, key_7, key_8,
  key_9, key_0, key_minus, key_equals, key_backspace, key_tab, key_q, key_w, key_e, key_r, key_t,
  key_y, key_u, key_i, key_o, key_p, key_leftbracket, key_rightbracket, key_backslash, key_capslock,
  key_a, key_s, key_d, key_f, key_g, key_h, key_j, key_k, key_l, key_semicolon, key_apostrophe,
  key_return, key_lshift, key_z, key_x, key_c, key_v, key_b, key_n, key_m, key_comma, key_period,
  key_slash, key_rshift, key_lctrl, key_lalt, key_space,
}
unfoldable use nju_os_workbench.Machine.Input.{keylut}

unfoldable Key-discrete : Discrete Key
Key-discrete = hlevel

abbrev key_at : List Key → ℕ → Key
key_at [] i = key_none
key_at (key ∷ keys) zero = key
key_at (key ∷ keys) (suc i) = key_at keys i

-- Each row has the scan code of its first key.
abbrev rows : List (ℕ × List Key)
rows =
    (
      0x01,
      key_escape ∷ key_1 ∷ key_2 ∷ key_3 ∷ key_4 ∷ key_5 ∷ key_6 ∷ key_7 ∷ key_8 ∷ key_9 ∷ key_0
          ∷ key_minus ∷ key_equals ∷ key_backspace ∷ [],
    )
    ∷ (
      0x0f,
      key_tab ∷ key_q ∷ key_w ∷ key_e ∷ key_r ∷ key_t ∷ key_y ∷ key_u ∷ key_i ∷ key_o ∷ key_p
          ∷ key_leftbracket ∷ key_rightbracket ∷ key_return ∷ [],
    )
    ∷ (
      0x1d,
      key_lctrl ∷ key_a ∷ key_s ∷ key_d ∷ key_f ∷ key_g ∷ key_h ∷ key_j ∷ key_k ∷ key_l
          ∷ key_semicolon ∷ key_apostrophe ∷ key_grave ∷ [],
    )
    ∷ (
      0x2a,
      key_lshift ∷ key_backslash ∷ key_z ∷ key_x ∷ key_c ∷ key_v ∷ key_b ∷ key_n ∷ key_m ∷ key_comma
          ∷ key_period ∷ key_slash ∷ key_rshift ∷ [],
    )
    ∷ (0x38, key_lalt ∷ key_space ∷ key_capslock ∷ [])
    ∷ (
      0x3b,
      key_f1 ∷ key_f2 ∷ key_f3 ∷ key_f4 ∷ key_f5 ∷ key_f6 ∷ key_f7 ∷ key_f8 ∷ key_f9 ∷ key_f10 ∷ [],
    )
    ∷ (0x57, key_f11 ∷ key_f12 ∷ [])
    ∷ []

abbrev find_key : List (ℕ × List Key) → ℕ → Key
find_key [] code = key_none
find_key ((first, keys) ∷ rest) code =
    if leb first code && ltb code (first + length keys)
    then key_at keys (code - first)
    else find_key rest code

-- the key of a scan code in the main block and the row of function keys; the others have none
unfoldable pub key_of : ℕ → Key
key_of code = find_key rows code

-- The codes on which this says nothing or `keylut` differs: left Alt, the number pad with the arrows,
-- which share its codes, and the keys beside the space bar.
abbrev pub is_other : ℕ → Bool
is_other code =
    (code == 0x38) || (leb 0x47 code && leb code 0x53) || (code == 0x5b) || (code == 0x5d)

abbrev is_yes : {A : Type 0} → Dec A → Bool
is_yes (yes a) = true
is_yes (no n) = false

is_yes-sound : {A : Type 0} (d : Dec A) → is_yes d ≡ true → A
is_yes-sound (yes a) e = a
is_yes-sound (no n) e = cc

key_table :
    all_below 128 (λ code. is_other code || is_yes (Key-discrete (keylut code) (key_of code)))
    ≡ true
unfolding all_below keylut key_of Key-discrete
key_table = refl

pub keylut-key_of : (code : ℕ) → code < 128 → is_other code ≡ false → keylut code ≡ key_of code
keylut-key_of code lt main =
    let row =
      all_below_sound 128 (λ i. is_other i || is_yes (Key-discrete (keylut i) (key_of i))) code
        key_table lt in
    is_yes-sound (Key-discrete (keylut code) (key_of code)) (rw main at row)
