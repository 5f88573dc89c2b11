-- ===== src/Machine/Ioe/Devices.antt =====
-- The table of abstract-machine/am/src/x86/qemu/ioe.c against the registers of
-- abstract-machine/am/include/amdev.h.
use nju_os_workbench.Base.{
  ℕ, ◌<◌, ◌≡◌, refl, inl, inr, Bool, true, false, not, ◌&&◌, ◌||◌, Option, none, some, ltb, leb,
  ◌==◌, if◌then◌else◌, Bool-cases,
}
use nju_os_workbench.Base.Ranges.{all_below_sound}
unfoldable use nju_os_workbench.Base.Ranges.{all_below}
use nju_os_workbench.Machine.Ioe.{Handler, Access, calls, panics}
unfoldable use nju_os_workbench.Machine.Ioe.{
  lut, fill_lut, ioe_init, reached, ioe_access, config_present,
}

-- The first register of the device that a register belongs to, which is its configuration.
unfoldable pub config_of : ℕ → ℕ
config_of reg =
    if ltb reg 4
    then 1
    else if ltb reg 7
    then 4
    else if ltb reg 9
    then 7
    else if ltb reg 14
    then 9
    else if ltb reg 18
    then 14
    else if ltb reg 21
    then 18
    else 21

unfoldable pub says_present : Access → Bool
unfolding config_present
says_present (calls handler) = elim (config_present handler) [ some b ↦ b | none ↦ false ]
says_present access = false

unfoldable pub is_call : Access → Bool
is_call (calls handler) = true
is_call access = false

unfoldable pub is_panic : Access → Bool
is_panic panics = true
is_panic access = false

-- The registers of amdev.h are 1 to 24. One of them is served if it is a configuration, or if the
-- configuration of its device says that the device is present.
unfoldable pub served : (ℕ → Option Handler) → ℕ → Bool
served table reg =
    leb 1 reg
    && leb reg 24
    && ((reg == config_of reg) || says_present (ioe_access table (config_of reg)))

same : Bool → Bool → Bool
same true b = b
same false b = not b

same-eq : (a b : Bool) → same a b ≡ true → a ≡ b
unfolding same
same-eq true true h = refl
same-eq true false h = cc
same-eq false true h = cc
same-eq false false h = refl

agrees : ℕ → Bool
agrees reg =
    let access = ioe_access (fill_lut 128 lut) reg in
    same (is_call access) (served (fill_lut 128 lut) reg)
    && same (is_panic access) (not (served (fill_lut 128 lut) reg))

agrees_table : all_below 128 agrees ≡ true
unfolding all_below agrees same served is_call is_panic says_present config_of ioe_access reached
    fill_lut lut
agrees_table = refl

and-parts : (a b : Bool) → a && b ≡ true → (a ≡ true) × (b ≡ true)
and-parts true b e = (refl, e)
and-parts false b e = cc

filled-agrees :
    (reg : ℕ)
    → reg < 128
    → (is_call (ioe_access (fill_lut 128 lut) reg) ≡ served (fill_lut 128 lut) reg)
      × (is_panic (ioe_access (fill_lut 128 lut) reg) ≡ not (served (fill_lut 128 lut) reg))
unfolding agrees
filled-agrees reg lt =
    let (a, b) = and-parts _ _ (all_below_sound 128 agrees reg agrees_table lt) in
    (same-eq _ _ a, same-eq _ _ b)

none-some : {A : Type 0} {a : A} → none ≡ some a → ⊥
none-some e = cc

some-table :
    {S : Type 0} (t t' : ℕ → Option Handler) (s s' : S)
    → ◌≡◌ {A = Option ((ℕ → Option Handler) × S)} (some (t, s)) (some (t', s'))
    → t' ≡ t
some-table t t' s s' e = cc

ioe_init-table :
    {S : Type 0} (uart timer gpu : S → S) (cpu : ℕ) (s s' : S) (table : ℕ → Option Handler)
    → ioe_init uart timer gpu cpu (lut, s) ≡ some (table, s')
    → table ≡ fill_lut 128 lut
unfolding ioe_init
ioe_init-table uart timer gpu cpu s s' table e = elim (Bool-cases (cpu == 0)) [
  | inl first ↦ some-table (fill_lut 128 lut) table (gpu (timer (uart s))) s' (rw first at e)
  | inr other ↦ absurd (none-some (rw other at e))
]

-- After `ioe_init` an access to any register below 128 calls a handler exactly if the register is
-- served, so that a program that asks the configurations first never runs into the panic; an access
-- to any other register panics, and none goes through NULL.
pub ioe_access-served :
    {S : Type 0} (uart timer gpu : S → S) (cpu : ℕ) (s s' : S) (table : ℕ → Option Handler)
    (reg : ℕ)
    → ioe_init uart timer gpu cpu (lut, s) ≡ some (table, s')
    → reg < 128
    → (is_call (ioe_access table reg) ≡ served table reg)
      × (is_panic (ioe_access table reg) ≡ not (served table reg))
ioe_access-served uart timer gpu cpu s s' table reg e lt =
    rw (ioe_init-table uart timer gpu cpu s s' table e) (filled-agrees reg lt)
