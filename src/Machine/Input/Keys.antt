-- ===== src/Machine/Input/Keys.antt =====
-- What programs see of the keyboard through `input_keybrd` of abstract-machine/am/src/x86/qemu/ioe.c.
use nju_os_workbench.Base.{
  ℕ, zero, suc, ◌%◌, ◌^◌, ◌<◌, ◌≡◌, refl, ap, ap₂, ◌∙◌, inl, inr, Bool, true, false, not, List, [],
  ◌∷◌, arith, ltb, ◌==◌, Bool-cases,
}
use nju_os_workbench.Base.Ranges.{all_below_sound}
unfoldable use nju_os_workbench.Base.Ranges.{all_below}
use nju_os_workbench.Machine.Ports.{Ports}
use nju_os_workbench.Machine.Input.{
  Key, KeyEvent, key_none, key_lalt, key_up, key_down, key_left, key_right,
}
use nju_os_workbench.Machine.Input.Layout.{key_of, is_other, keylut-key_of}
unfoldable use nju_os_workbench.Machine.Input.{keylut, input_keybrd}

abbrev pub pending : List ℕ → ℕ
pending [] = 0
pending (byte ∷ rest) = 1

-- What the controller of the keyboard promises: the lowest bit of its status says whether a byte is
-- there, and a byte that is read is gone.
pub record IsController (P : Ports) : Type 0 where
  pub queue : P.State → List ℕ
  pub status :
      (s : P.State)
      → (queue (P.inb s 0x64).1 ≡ queue s) × ((P.inb s 0x64).0 % 2 ≡ pending (queue s))
  pub next :
      (s : P.State) (byte : ℕ) (rest : List ℕ)
      → queue s ≡ byte ∷ rest
      → ((P.inb s 0x60).0 ≡ byte) × (queue (P.inb s 0x60).1 ≡ rest)

-- `n` calls
unfoldable pub poll : ℕ → (P : Ports) → P.State → List KeyEvent
poll zero P s = []
poll (suc n) P s = let (event, s') = input_keybrd P s in event ∷ poll n P s'

-- what the keyboard says with a byte: a make code, or the break code of the same key 128 above it
abbrev pub event_of : ℕ → KeyEvent
event_of byte = record { keydown = ltb byte 128; keycode = key_of (byte % 128) }

-- the bytes of keys that are not in `is_other`
abbrev pub AllMain : List ℕ → Type 0
AllMain [] = Unit
AllMain (byte ∷ rest) = (byte < 256) × (is_other (byte % 128) ≡ false) × AllMain rest

event_of_code : ℕ → KeyEvent
event_of_code byte = record {
  keydown = ltb (byte % 2 ^ 8) 128;
  keycode = keylut (byte % 2 ^ 8 % 2 ^ 7);
}

event_same :
    (byte : ℕ) → byte < 256 → is_other (byte % 128) ≡ false → event_of_code byte ≡ event_of byte
unfolding event_of_code
event_same byte lt main =
    let whole : byte % 256 ≡ byte = omega arith in
    let key = keylut-key_of (byte % 128) (omega arith) main in rw (whole, key) refl

abbrev pub no_event : KeyEvent
no_event = record { keydown = false; keycode = key_none }

abbrev pub events : ℕ → List ℕ → List KeyEvent
events zero bytes = []
events (suc n) [] = no_event ∷ events n []
events (suc n) (byte ∷ bytes) = event_of byte ∷ events n bytes

-- Where the bytes are those of keys in the main block other than left Alt, or of function keys, as
-- many calls as one likes give, in order, for each the key that scan code set 1 has there, and
-- whether it went down or up; then none.
pub poll-events :
    (P : Ports) (keyboard : IsController P) (n : ℕ) (s : P.State) (bytes : List ℕ)
    → keyboard.queue s ≡ bytes
    → AllMain bytes
    → poll n P s ≡ events n bytes
unfolding poll input_keybrd event_of_code
poll-events P keyboard zero s bytes e main = refl
poll-events P keyboard (suc n) s [] e main =
    let (same, status) = keyboard.status s in
    let off : ((P.inb s 0x64).0 % 2 == 1) ≡ false =
      let clear : (P.inb s 0x64).0 % 2 ≡ 0 = status ∙ ap pending e in ground arith in
    rw off (
      ap₂ {C = List KeyEvent} ◌∷◌ refl (poll-events P keyboard n (P.inb s 0x64).1 [] (same ∙ e) tt))
poll-events P keyboard (suc n) s (byte ∷ bytes) e (lt, main, rest) =
    let (same, status) = keyboard.status s in
    let on : ((P.inb s 0x64).0 % 2 == 1) ≡ true =
      let there : (P.inb s 0x64).0 % 2 ≡ 1 = status ∙ ap pending e in ground arith in
    let (read, after) = keyboard.next (P.inb s 0x64).1 byte bytes (same ∙ e) in
    rw on (
      ap₂ {C = List KeyEvent} ◌∷◌ (ap event_of_code read ∙ event_same byte lt main)
        (poll-events P keyboard n (P.inb (P.inb s 0x64).1 0x60).1 bytes after rest))

-- left Alt and the four arrows
abbrev pub is_unreported : Key → Bool
is_unreported key_lalt = true
is_unreported key_up = true
is_unreported key_down = true
is_unreported key_left = true
is_unreported key_right = true
is_unreported key = false

unreported_table : all_below 128 (λ i. not (is_unreported (keylut i))) ≡ true
unfolding all_below keylut
unreported_table = refl

keylut-reported : (i : ℕ) → i < 128 → is_unreported (keylut i) ≡ false
keylut-reported i h =
    let table = all_below_sound 128 (λ i. not (is_unreported (keylut i))) i unreported_table h in
    ground arith

-- Whatever the ports hold, neither left Alt nor an arrow key is reported, though the interface has
-- names for them.
pub input_keybrd-reported :
    (P : Ports) (s : P.State) → is_unreported (input_keybrd P s).0.keycode ≡ false
unfolding input_keybrd
input_keybrd-reported P s = elim (Bool-cases ((P.inb s 0x64).0 % 2 == 1)) [
  | inl on ↦ rw on (keylut-reported ((P.inb (P.inb s 0x64).1 0x60).0 % 2 ^ 8 % 2 ^ 7) (omega arith))
  | inr off ↦ rw off refl
]
