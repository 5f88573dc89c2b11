-- ===== src/Machine/Input.antt =====
-- The keyboard in abstract-machine/am/src/x86/qemu/ioe.c, and the keys of abstract-machine/am/include/amdev.h.
mod Tests
pub mod Layout
pub mod Keys
use nju_os_workbench.Base.{
  ℕ, zero, suc, ◌+◌, ◌-◌, ◌*◌, ◌/◌, ◌%◌, ◌^◌, ◌≤◌, ◌<◌, min, ◌≡◌, ◌≢◌, refl, sym, ap, ap₂, ◌∙◌,
  subst, fun_ext, ◌≡⟨◌⟩◌, ◌∎, ◌↔◌, ◌⊎◌, inl, inr, Bool, true, false, not, ◌&&◌, ◌||◌, Option, none,
  some, List, [], ◌∷◌, ◌++◌, map, append-nil, append_assoc, arith, ltb, leb, ◌==◌, if◌then◌else◌,
  tests, Bool-cases, Option-cases, ==_iff, length, length-append, get_elem?,
}
unfoldable use nju_os_workbench.Base.{dec_lt, dec_le, ℕ_discrete}
use nju_os_workbench.Machine.Ports.{Ports}

pub data Key : Type 0 where
  key_none key_escape key_f1 key_f2 key_f3 key_f4 key_f5 key_f6 key_f7 key_f8 key_f9 key_f10 key_f11
        key_f12 key_grave key_1 key_2 key_3 key_4 key_5 key_6 key_7 key_8 key_9 key_0 key_minus
        key_equals key_backspace key_tab key_q key_w key_e key_r key_t key_y key_u key_i key_o key_p
        key_leftbracket key_rightbracket key_backslash key_capslock key_a key_s key_d key_f key_g
        key_h key_j key_k key_l key_semicolon key_apostrophe key_return key_lshift key_z key_x key_c
        key_v key_b key_n key_m key_comma key_period key_slash key_rshift key_lctrl key_application
        key_lalt key_space key_ralt key_rctrl key_up key_down key_left key_right key_insert
        key_delete key_home key_end key_pageup key_pagedown :
      Key

-- an array with designated initialisers: of two for one index the later counts
unfoldable pub designate {ℓ} : {A : Type ℓ} → List (ℕ × A) → (ℕ → A) → ℕ → A
designate [] array i = array i
designate ((index, v) ∷ rest) array i = designate rest (λ j. if index == j then v else array j) i

abbrev pub key_entries : List (ℕ × Key)
key_entries =
    (0x01, key_escape)
    ∷ (0x02, key_1)
    ∷ (0x03, key_2)
    ∷ (0x04, key_3)
    ∷ (0x05, key_4)
    ∷ (0x06, key_5)
    ∷ (0x07, key_6)
    ∷ (0x08, key_7)
    ∷ (0x09, key_8)
    ∷ (0x0a, key_9)
    ∷ (0x0b, key_0)
    ∷ (0x0c, key_minus)
    ∷ (0x0d, key_equals)
    ∷ (0x0e, key_backspace)
    ∷ (0x0f, key_tab)
    ∷ (0x10, key_q)
    ∷ (0x11, key_w)
    ∷ (0x12, key_e)
    ∷ (0x13, key_r)
    ∷ (0x14, key_t)
    ∷ (0x15, key_y)
    ∷ (0x16, key_u)
    ∷ (0x17, key_i)
    ∷ (0x18, key_o)
    ∷ (0x19, key_p)
    ∷ (0x1a, key_leftbracket)
    ∷ (0x1b, key_rightbracket)
    ∷ (0x1c, key_return)
    ∷ (0x1d, key_lctrl)
    ∷ (0x1e, key_a)
    ∷ (0x1f, key_s)
    ∷ (0x20, key_d)
    ∷ (0x21, key_f)
    ∷ (0x22, key_g)
    ∷ (0x23, key_h)
    ∷ (0x24, key_j)
    ∷ (0x25, key_k)
    ∷ (0x26, key_l)
    ∷ (0x27, key_semicolon)
    ∷ (0x28, key_apostrophe)
    ∷ (0x29, key_grave)
    ∷ (0x2a, key_lshift)
    ∷ (0x2b, key_backslash)
    ∷ (0x2c, key_z)
    ∷ (0x2d, key_x)
    ∷ (0x2e, key_c)
    ∷ (0x2f, key_v)
    ∷ (0x30, key_b)
    ∷ (0x31, key_n)
    ∷ (0x32, key_m)
    ∷ (0x33, key_comma)
    ∷ (0x34, key_period)
    ∷ (0x35, key_slash)
    ∷ (0x36, key_rshift)
    ∷ (0x38, key_lalt)
    ∷ (0x38, key_ralt)
    ∷ (0x39, key_space)
    ∷ (0x3a, key_capslock)
    ∷ (0x3b, key_f1)
    ∷ (0x3c, key_f2)
    ∷ (0x3d, key_f3)
    ∷ (0x3e, key_f4)
    ∷ (0x3f, key_f5)
    ∷ (0x40, key_f6)
    ∷ (0x41, key_f7)
    ∷ (0x42, key_f8)
    ∷ (0x43, key_f9)
    ∷ (0x44, key_f10)
    ∷ (0x48, key_insert)
    ∷ (0x4b, key_home)
    ∷ (0x4d, key_end)
    ∷ (0x50, key_delete)
    ∷ (0x57, key_f11)
    ∷ (0x58, key_f12)
    ∷ (0x5b, key_application)
    ∷ []

unfoldable pub keylut : ℕ → Key
unfolding designate
keylut = designate key_entries (λ i. key_none)

pub record KeyEvent : Type 0 where
  pub keydown : Bool
  pub keycode : Key

unfoldable pub input_keybrd : (P : Ports) → P.State → KeyEvent × P.State
input_keybrd P s =
    let (status, s1) = P.inb s 0x64 in
    let (byte, s2) = P.inb s1 0x60 in
    let code = byte % 2 ^ 8 in
    if status % 2 == 1
    then (record { keydown = ltb code 128; keycode = keylut (code % 2 ^ 7) }, s2)
    else (record { keydown = false; keycode = key_none }, s1)
