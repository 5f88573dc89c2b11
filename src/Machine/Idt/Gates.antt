-- ===== src/Machine/Idt/Gates.antt =====
-- The interrupt descriptor table that `cte_init` of abstract-machine/am/src/x86/qemu/cte.c makes.
use nju_os_workbench.Base.{
  ℕ, zero, suc, ◌+◌, ◌*◌, ◌^◌, ◌≤◌, ◌<◌, ◌≡◌, ◌≢◌, refl, sym, ap, ◌∙◌, subst, ◌↔◌, ◌⊎◌, inl, inr,
  Bool, true, false, not, leb, ◌&&◌, ◌||◌, Option, none, some, List, [], ◌∷◌, arith, ◌==◌,
  if◌then◌else◌, Bool-cases, Option-cases, ==_iff,
}
unfoldable use nju_os_workbench.Base.{ℕ_discrete}
unfoldable use nju_os_workbench.Base.Ranges.{all_below}
use nju_os_workbench.Base.Ranges.{all_below_sound}
use nju_os_workbench.Machine.Cte.{ksel}
use nju_os_workbench.Machine.Idt.{Gate, gate64, set_gate, irqs}
unfoldable use nju_os_workbench.Machine.Idt.{fill_loop, install, cte_init}

-- the address that the processor puts together from a gate
abbrev pub gate_offset : Gate → ℕ
gate_offset gate = gate.off_15_0 + gate.off_31_16 * 2 ^ 16 + gate.off_63_32 * 2 ^ 32

-- the DPL that the last line for a vector gives it
unfoldable pub last_dpl : ℕ → List (ℕ × ℕ) → Option ℕ
last_dpl i [] = none
last_dpl i ((id, dpl) ∷ entries) = elim (last_dpl i entries) [
  | some d ↦ some d
  | none ↦ if i == id then some dpl else none
]

-- the vectors that have a handler of their own: the exceptions 0 to 16 and 19, the spurious
-- interrupt 31, the 16 interrupts of devices from 32 on, and the traps 128 and 129
abbrev pub has_handler : ℕ → Bool
has_handler i = leb i 16 || (i == 19) || (leb 31 i && leb i 47) || (i == 128) || (i == 129)

abbrev is_listed : Option ℕ → Bool
is_listed (some dpl) = true
is_listed none = false

abbrev agree : Bool → Bool → Bool
agree true b = b
agree false b = not b

agree-≡ : (a b : Bool) → agree a b ≡ true → a ≡ b
agree-≡ true true e = refl
agree-≡ true false e = cc
agree-≡ false true e = cc
agree-≡ false false e = refl

handler_table : all_below 256 (λ i. agree (is_listed (last_dpl i irqs)) (has_handler i)) ≡ true
unfolding all_below last_dpl
handler_table = refl

listed-has_handler : (i : ℕ) → i < 256 → is_listed (last_dpl i irqs) ≡ has_handler i
listed-has_handler i lt = agree-≡ (is_listed (last_dpl i irqs)) (has_handler i) (
    all_below_sound 256 (λ j. agree (is_listed (last_dpl j irqs)) (has_handler j)) i handler_table
      lt)

none-some : {A : Type 0} {a : A} → none ≡ some a → ⊥
none-some e = cc

-- only the vectors 128 and 129 have DPL 3
abbrev right_dpl : ℕ → ℕ → Bool
right_dpl id dpl = (dpl == 0) || ((dpl == 3) && ((id == 128) || (id == 129)))

abbrev all_right : List (ℕ × ℕ) → Bool
all_right [] = true
all_right ((id, dpl) ∷ entries) = right_dpl id dpl && all_right entries

and-parts : (a b : Bool) → a && b ≡ true → (a ≡ true) × (b ≡ true)
and-parts true b e = (refl, e)
and-parts false b e = cc

last_dpl-user :
    (i : ℕ) (entries : List (ℕ × ℕ))
    → all_right entries ≡ true
    → last_dpl i entries ≡ some 3
    → (i ≡ 128) ⊎ (i ≡ 129)
unfolding last_dpl
last_dpl-user i [] ok e = absurd (none-some e)
last_dpl-user i ((id, dpl) ∷ entries) ok e =
    let rest : all_right entries ≡ true = (and-parts (right_dpl id dpl) (all_right entries) ok).1 in
    let first : right_dpl id dpl ≡ true = (and-parts (right_dpl id dpl) (all_right entries) ok).0 in
    elim (Option-cases (last_dpl i entries)) [
      | inr (d, found) ↦
          let is : some d ≡ some 3 = ground arith in last_dpl-user i entries rest (found ∙ is)
      | inl missing ↦ elim (Bool-cases (i == id)) [
        | inl here ↦
            let three : dpl ≡ 3 = ground arith in
            let id_is : (id == 128) || (id == 129) ≡ true = ground arith in
            elim (Bool-cases (id == 128)) [
              | inl a ↦ inl (ground arith)
              | inr b ↦ inr (ground arith)
            ]
        | inr away ↦ absurd (ground arith)
      ]
    ]

user-last_dpl : (i : ℕ) → (i ≡ 128) ⊎ (i ≡ 129) → last_dpl i irqs ≡ some 3
unfolding last_dpl
user-last_dpl i (inl e) = subst (λ x. last_dpl x irqs ≡ some 3) (sym e) refl
user-last_dpl i (inr e) = subst (λ x. last_dpl x irqs ≡ some 3) (sym e) refl

some_inj : {a b : ℕ} → some a ≡ some b → a ≡ b
some_inj e = cc

gate64-offset : (type cs entry dpl : ℕ) → gate_offset (gate64 type cs entry dpl) ≡ entry
gate64-offset type cs entry dpl = omega arith

module _ (irqall : ℕ) (irq : ℕ → ℕ) where
  fill_loop-gate :
      (k i : ℕ) (idt : ℕ → Gate) (j : ℕ)
      → (j < i) ⊎ (i + k ≤ j)
      → fill_loop irqall irq k i idt j ≡ idt j
  unfolding fill_loop
  fill_loop-gate zero i idt j h = refl
  fill_loop-gate (suc k) i idt j h =
      let away : (j == i) ≡ false = elim h [
        | inl before ↦ ground arith
        | inr behind ↦ ground arith
      ] in
      fill_loop-gate k (i + 1) (set_gate i (gate64 15 (ksel 1) irqall 0) idt) j
        (elim h [ inl before ↦ inl (omega arith) | inr behind ↦ inr (omega arith) ])
      ∙ rw away refl

  fill_loop-inside :
      (k i : ℕ) (idt : ℕ → Gate) (j : ℕ)
      → i ≤ j
      → j < i + k
      → fill_loop irqall irq k i idt j ≡ gate64 15 (ksel 1) irqall 0
  unfolding fill_loop
  fill_loop-inside zero i idt j le lt = absurd (omega arith)
  fill_loop-inside (suc k) i idt j le lt = elim (ℕ_discrete i j) [
    | yes here ↦
        let same : (j == i) ≡ true = ground arith in
        fill_loop-gate k (i + 1) (set_gate i (gate64 15 (ksel 1) irqall 0) idt) j
          (inl (omega arith))
        ∙ rw same refl
    | no later ↦
        fill_loop-inside k (i + 1) (set_gate i (gate64 15 (ksel 1) irqall 0) idt) j (omega arith)
          (omega arith)
  ]

  install-gate :
      (entries : List (ℕ × ℕ)) (idt : ℕ → Gate) (i : ℕ)
      → install irqall irq entries idt i
        ≡ elim (last_dpl i entries) [ some dpl ↦ gate64 15 (ksel 1) (irq i) dpl | none ↦ idt i ]
  unfolding install last_dpl
  install-gate [] idt i = refl
  install-gate ((id, dpl) ∷ entries) idt i =
      install-gate entries (set_gate id (gate64 15 (ksel 1) (irq id) dpl) idt) i
      ∙ (elim (Option-cases (last_dpl i entries)) [
        | inr (d, found) ↦ rw found refl
        | inl missing ↦ elim (Bool-cases (i == id)) [
          | inl here ↦ rw (missing, here, sym ((==_iff i id).0 here)) refl
          | inr away ↦ rw (missing, away) refl
        ]
      ])

  gates : (ℕ → Gate) → ℕ → Gate
  gates idt = install irqall irq irqs (fill_loop irqall irq 256 0 idt)

  cte_init-some :
      (handler : ℕ) (idt : ℕ → Gate)
      → handler ≢ 0
      → cte_init irqall irq 0 handler idt ≡ some (gates idt)
  unfolding cte_init gates
  cte_init-some handler idt some_handler =
      let test : (handler == 0) ≡ false = ground arith in rw test refl

  gates-gate :
      (idt : ℕ → Gate) (i : ℕ)
      → i < 256
      → gates idt i ≡ elim (last_dpl i irqs) [
        | some dpl ↦ gate64 15 (ksel 1) (irq i) dpl
        | none ↦ gate64 15 (ksel 1) irqall 0
      ]
  unfolding gates
  gates-gate idt i lt =
      install-gate irqs (fill_loop irqall irq 256 0 idt) i
      ∙ ap (λ g. elim (last_dpl i irqs) [ some dpl ↦ gate64 15 (ksel 1) (irq i) dpl | none ↦ g ])
          (fill_loop-inside 256 0 idt i (omega arith) (omega arith))

  gate_facts :
      (g : Gate) (i : ℕ)
      → g ≡ elim (last_dpl i irqs) [
        | some dpl ↦ gate64 15 (ksel 1) (irq i) dpl
        | none ↦ gate64 15 (ksel 1) irqall 0
      ]
      → i < 256
      → (g.present ≡ 1)
        × (g.gate_cs ≡ 8)
        × (g.gate_type ≡ 0xf)
        × (gate_offset g ≡ (if has_handler i then irq i else irqall))
        × ((g.dpl ≡ 3) ↔ ((i ≡ 128) ⊎ (i ≡ 129)))
  gate_facts g i e lt = elim (Option-cases (last_dpl i irqs)) [
    | inl missing ↦
        let own : has_handler i ≡ false = sym (listed-has_handler i lt) ∙ ap is_listed missing in
        let is : g ≡ gate64 15 (ksel 1) irqall 0 = e ∙ rw missing refl in
        (
          ap (λ (x : Gate). x.present) is,
          ap (λ (x : Gate). x.gate_cs) is,
          ap (λ (x : Gate). x.gate_type) is,
          ap gate_offset is ∙ gate64-offset 15 8 irqall 0 ∙ rw own refl,
          (
            λ h. let zero_dpl = ap (λ (x : Gate). x.dpl) is in absurd (omega arith),
            λ user. absurd (none-some (sym missing ∙ user-last_dpl i user)),
          ),
        )
    | inr (d, found) ↦
        let own : has_handler i ≡ true = sym (listed-has_handler i lt) ∙ ap is_listed found in
        let is : g ≡ gate64 15 (ksel 1) (irq i) d = e ∙ rw found refl in
        let dpl_is = ap (λ (x : Gate). x.dpl) is in
        (
          ap (λ (x : Gate). x.present) is,
          ap (λ (x : Gate). x.gate_cs) is,
          ap (λ (x : Gate). x.gate_type) is,
          ap gate_offset is ∙ gate64-offset 15 8 (irq i) d ∙ rw own refl,
          (
            λ h. last_dpl-user i irqs refl (found ∙ ap (λ (x : ℕ). some x) (sym dpl_is ∙ h)),
            λ user. dpl_is ∙ some_inj (sym found ∙ user-last_dpl i user),
          ),
        )
  ]

  -- What `cte_init` makes on the first processor: each of the 256 gates is a present trap gate, whose
  -- selector is that of the kernel's code segment and whose offset is the handler of its vector, or
  -- `__am_irqall` where the vector has none of its own; user code may use the gates 128 and 129 and
  -- no other.
  pub cte_init-gates :
      (handler : ℕ) (idt : ℕ → Gate)
      → handler ≢ 0
      → (idt' : ℕ → Gate) × (cte_init irqall irq 0 handler idt ≡ some idt')
        × ((i : ℕ)
            → i < 256
            → ((idt' i).present ≡ 1)
              × ((idt' i).gate_cs ≡ 8)
              × ((idt' i).gate_type ≡ 0xf)
              × (gate_offset (idt' i) ≡ (if has_handler i then irq i else irqall))
              × (((idt' i).dpl ≡ 3) ↔ ((i ≡ 128) ⊎ (i ≡ 129))))
  cte_init-gates handler idt some_handler = (
    gates idt,
    cte_init-some handler idt some_handler,
    λ i lt. gate_facts (gates idt i) i (gates-gate idt i lt) lt,
  )
