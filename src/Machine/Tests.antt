-- ===== src/Machine/Tests.antt =====
-- An address space of vme.c with a table at 4096, to which the word at 8 points, with one entry of the
-- kernel, and four free pages; an interrupt of the timer.
use nju_os_workbench.Machine.Vme.Owners.{Mine}
use nju_os_workbench.Base.{
  ℕ, ◌+◌, ◌*◌, ◌<◌, ◌≡◌, ◌≢◌, refl, sym, subst, ◌↔◌, ◌⊎◌, inl, inr, true, Option, none, some, List,
  [], ◌∷◌, arith, ◌==◌, if◌then◌else◌, Bool-cases,
}
use nju_os_workbench.Machine.Cte.{zero_context, TrapFrame, Cpu}
use nju_os_workbench.Machine.Idt.{Gate, cte_init}
use nju_os_workbench.Machine.Idt.Gates.{cte_init-gates, gate_offset, has_handler}
use nju_os_workbench.Machine.Vme.{Machine, ok, is_present, put}
unfoldable use nju_os_workbench.Machine.Vme.{map_page}
unfoldable use nju_os_workbench.Machine.Vme.Entries.{entry_at}
use nju_os_workbench.Machine.Vme.Spaces.{InUser, IsSpace, entry_of, page_of}
use nju_os_workbench.Machine.Vme.Mapping.{map_page-maps, map_page-unmaps}

abbrev machine : Machine
machine = record {
  words = put 4096 0x2003 (put 8 4101 (λ a. 0));
  pages = 8192 ∷ 12288 ∷ 16384 ∷ 20480 ∷ [];
  freed = [];
}

abbrev own : ℕ → Option (List ℕ)
own c = if c == 4096 then some [] else none

own-root : (c : ℕ) (path : List ℕ) → own c ≡ some path → c ≡ 4096
own-root c path e = ground arith

own-path : (c : ℕ) (path : List ℕ) → own c ≡ some path → path ≡ []
own-path c path e = elim (Bool-cases (c == 4096)) [
  | inl here ↦ let is : some [] ≡ some path = ground arith in cc
  | inr away ↦ absurd (let is : none ≡ some path = ground arith in cc)
]

zero_entry : (c i : ℕ) → c ≡ 4096 → i ≡ 32 → machine.words (c + 8 * i) ≡ 0
zero_entry c i e e' = ground arith

zero_missing : (v : ℕ) → v ≡ 0 → is_present v ≡ true → ⊥
zero_missing v e h = ground arith

machine-IsSpace : IsSpace 8 own machine
machine-IsSpace = record {
  on = refl;
  root = refl;
  apart = refl;
  owned = record {
    aligned = λ c path e. omega (arith, own-root c path e);
    child = λ c path i e mine inner lt present. absurd (
        zero_missing _
          (zero_entry c i (own-root c path e) (subst (λ p. Mine p i) (own-path c path e) mine))
          present);
  };
  free = (
    refl,
    omega arith,
    refl,
    λ e. omega arith,
    (λ e. omega arith, (λ e. omega arith, (λ e. omega arith, tt))),
    (
      refl,
      omega arith,
      refl,
      λ e. omega arith,
      (λ e. omega arith, (λ e. omega arith, tt)),
      (
        refl,
        omega arith,
        refl,
        λ e. omega arith,
        (λ e. omega arith, tt),
        (refl, omega arith, refl, λ e. omega arith, tt, tt),
      ),
    ),
  );
}

map_page-maps_example :
    (m' : Machine) × (own' : ℕ → Option (List ℕ)) × (map_page 8 0x100000003000 0x5000 3 machine
      ≡ ok tt m')
    × IsSpace 8 own' m'
    × (entry_of 8 0x100000003000 m' ≡ 0x5007)
    × ((addr : ℕ)
        → InUser addr
        → page_of addr ≢ page_of 0x100000003000
        → entry_of 8 addr m' ≡ entry_of 8 addr machine)
unfolding entry_at
map_page-maps_example =
    map_page-maps 8 0x100000003000 0x5000 3 own machine machine-IsSpace (omega arith) (omega arith)
      (omega arith) refl refl (λ e. omega arith) refl

mapped :
    (m' : Machine) × (own' : ℕ → Option (List ℕ)) × (map_page 8 0x100000003000 0x5000 3 machine
      ≡ ok tt m')
    × IsSpace 8 own' m'
    × (entry_of 8 0x100000003000 m' ≡ 0x5007)
    × ((addr : ℕ)
        → InUser addr
        → page_of addr ≢ page_of 0x100000003000
        → entry_of 8 addr m' ≡ entry_of 8 addr machine)
unfolding entry_at
mapped =
    map_page-maps 8 0x100000003000 0x5000 3 own machine machine-IsSpace (omega arith) (omega arith)
      (omega arith) refl refl (λ e. omega arith) refl

map_page-unmaps_example :
    (m' : Machine) × (own' : ℕ → Option (List ℕ)) × (map_page 8 0x100000003000 0 0 mapped.0
      ≡ ok tt m')
    × IsSpace 8 own' m'
    × (entry_of 8 0x100000003000 m' ≡ 0)
    × ((addr : ℕ)
        → InUser addr
        → page_of addr ≢ page_of 0x100000003000
        → entry_of 8 addr m' ≡ entry_of 8 addr mapped.0)
map_page-unmaps_example =
    map_page-unmaps 8 0x100000003000 0 mapped.1 mapped.0 mapped.3 (omega arith) (omega arith) refl
      refl (subst (λ v. is_present v ≡ true) (sym mapped.4) refl)

abbrev empty_gate : Gate
empty_gate = record {
  off_15_0 = 0;
  gate_cs = 0;
  gate_type = 0;
  dpl = 0;
  present = 0;
  off_31_16 = 0;
  off_63_32 = 0;
}

-- the handlers at 0x100000 and, for a vector `id`, 16 `id` bytes behind 0x200000
cte_init-gates_example :
    (idt' : ℕ → Gate) × (cte_init 0x100000 (λ id. 0x200000 + 16 * id) 0 1 (λ i. empty_gate)
      ≡ some idt')
    × ((i : ℕ)
        → i < 256
        → ((idt' i).present ≡ 1)
          × ((idt' i).gate_cs ≡ 8)
          × ((idt' i).gate_type ≡ 0xf)
          × (gate_offset (idt' i) ≡ (if has_handler i then 0x200000 + 16 * i else 0x100000))
          × (((idt' i).dpl ≡ 3) ↔ ((i ≡ 128) ⊎ (i ≡ 129))))
cte_init-gates_example =
    cte_init-gates 0x100000 (λ id. 0x200000 + 16 * id) 1 (λ i. empty_gate) (λ e. omega arith)

abbrev timer : TrapFrame
timer = record {
  saved_context = zero_context;
  irq = 32;
  errcode = 0;
  frame_rip = 7;
  frame_cs = 8;
  frame_rflags = 0x200;
  frame_rsp = 4096;
  frame_ss = 0;
}

abbrev cpu : Cpu
cpu = record { cpu_cr2 = 0; cpu_cr3 = 4096; tss_rsp0 = 8192 }
