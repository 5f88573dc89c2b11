-- ===== src/Machine/Idt.antt =====
-- The interrupt descriptor table of abstract-machine/am/src/x86/qemu/cte.c for 64 bits.
pub mod Gates
use nju_os_workbench.Base.{
  ℕ, zero, suc, ◌+◌, ◌-◌, ◌*◌, ◌/◌, ◌%◌, ◌^◌, ◌≤◌, ◌<◌, min, ◌≡◌, ◌≢◌, refl, sym, ap, ap₂, ◌∙◌,
  subst, fun_ext, ◌≡⟨◌⟩◌, ◌∎, ◌↔◌, ◌⊎◌, inl, inr, Bool, true, false, not, ◌&&◌, ◌||◌, Option, none,
  some, List, [], ◌∷◌, ◌++◌, map, append-nil, append_assoc, arith, ltb, leb, ◌==◌, if◌then◌else◌,
  tests, Bool-cases, Option-cases, ==_iff, length, length-append, get_elem?,
}
unfoldable use nju_os_workbench.Base.{dec_lt, dec_le, ℕ_discrete}
use nju_os_workbench.Machine.Cte.{ksel}

-- `GateDesc64` without the fields that are always 0
pub record Gate : Type 0 where
  pub off_15_0 : ℕ
  pub gate_cs : ℕ
  pub gate_type : ℕ
  pub dpl : ℕ
  pub present : ℕ
  pub off_31_16 : ℕ
  pub off_63_32 : ℕ

abbrev pub gate64 : (type cs entry dpl : ℕ) → Gate
gate64 type cs entry dpl = record {
  off_15_0 = entry % 2 ^ 16;
  gate_cs = cs;
  gate_type = type;
  dpl = dpl;
  present = 1;
  off_31_16 = entry / 2 ^ 16 % 2 ^ 16;
  off_63_32 = entry / 2 ^ 32;
}

-- `IRQS`: the vectors with a handler of their own, and their DPL
abbrev pub irqs : List (ℕ × ℕ)
irqs =
    (0, 0)
    ∷ (1, 0)
    ∷ (2, 0)
    ∷ (3, 0)
    ∷ (4, 0)
    ∷ (5, 0)
    ∷ (6, 0)
    ∷ (7, 0)
    ∷ (8, 0)
    ∷ (9, 0)
    ∷ (10, 0)
    ∷ (11, 0)
    ∷ (12, 0)
    ∷ (13, 0)
    ∷ (14, 0)
    ∷ (15, 0)
    ∷ (16, 0)
    ∷ (19, 0)
    ∷ (31, 0)
    ∷ (32, 0)
    ∷ (33, 0)
    ∷ (34, 0)
    ∷ (35, 0)
    ∷ (36, 0)
    ∷ (37, 0)
    ∷ (38, 0)
    ∷ (39, 0)
    ∷ (40, 0)
    ∷ (41, 0)
    ∷ (42, 0)
    ∷ (43, 0)
    ∷ (44, 0)
    ∷ (45, 0)
    ∷ (46, 0)
    ∷ (47, 0)
    ∷ (128, 3)
    ∷ (129, 3)
    ∷ []

abbrev pub set_gate : ℕ → Gate → (ℕ → Gate) → ℕ → Gate
set_gate id gate idt i = if i == id then gate else idt i

module _ (irqall : ℕ) (irq : ℕ → ℕ) where
  unfoldable pub fill_loop : (k i : ℕ) → (ℕ → Gate) → ℕ → Gate
  fill_loop zero i idt = idt
  fill_loop (suc k) i idt = fill_loop k (i + 1) (set_gate i (gate64 15 (ksel 1) irqall 0) idt)

  unfoldable pub install : List (ℕ × ℕ) → (ℕ → Gate) → ℕ → Gate
  install [] idt = idt
  install ((id, dpl) ∷ entries) idt =
      install entries (set_gate id (gate64 15 (ksel 1) (irq id) dpl) idt)

  -- `irqall` and `irq id` are the addresses of the handlers; a failed `panic_on` is `none`.
  unfoldable pub cte_init : (cpu_current handler : ℕ) → (ℕ → Gate) → Option (ℕ → Gate)
  cte_init cpu_current handler idt =
      if not (cpu_current == 0)
      then none
      else if handler == 0
      then none
      else some (install irqs (fill_loop 256 0 idt))
