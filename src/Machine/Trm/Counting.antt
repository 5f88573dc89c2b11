-- ===== src/Machine/Trm/Counting.antt =====
-- `__am_lapic_init` of abstract-machine/am/src/x86/qemu/trm.c on a table of processors as the MultiProcessor
-- Specification lays it out.
use nju_os_workbench.Base.{
  ℕ, zero, suc, ◌+◌, ◌-◌, ◌*◌, ◌/◌, ◌≤◌, ◌<◌, ◌≡◌, ◌≢◌, refl, ap, ◌∙◌, inl, inr, true, false, some,
  List, [], ◌∷◌, arith, ltb, leb, ◌==◌, if◌then◌else◌, Bool-cases, ==_iff, length,
}
unfoldable use nju_os_workbench.Base.{dec_lt}
use nju_os_workbench.Base.Memory.{Mem}
use nju_os_workbench.Machine.Disk.{load32}
use nju_os_workbench.Machine.Trm.{
  Processors, processors, too_many, max_cpu, mp_magic, desc_conf, conf_length, conf_lapicaddr,
  conf_size, bios_start, bios_stop,
}
unfoldable use nju_os_workbench.Machine.Trm.{count_loop, count_processors, search_table, lapic_init}

-- an entry of the table: a processor, of 20 bytes and type 0, or another, of 8 bytes
pub data Entry : Type 0 where
  cpu other : Entry

abbrev pub size : List Entry → ℕ
size [] = 0
size (cpu ∷ es) = 20 + size es
size (other ∷ es) = 8 + size es

abbrev pub cpus : List Entry → ℕ
cpus [] = 0
cpus (cpu ∷ es) = suc (cpus es)
cpus (other ∷ es) = cpus es

abbrev pub Laid : Mem → ℕ → List Entry → Type 0
Laid m p [] = Unit
Laid m p (cpu ∷ es) = (m p ≡ 0) × Laid m (p + 20) es
Laid m p (other ∷ es) = (m p ≢ 0) × Laid m (p + 8) es

abbrev pub counted : (lapic n : ℕ) → Processors
counted lapic n = if leb n max_cpu then processors lapic n else too_many

count_loop_cpu :
    (fuel lapic ptr stop n : ℕ) (m : Mem)
    → ptr < stop
    → m ptr ≡ 0
    → count_loop (suc fuel) lapic ptr stop n m
      ≡ (if ltb 8 (n + 1) then some too_many else count_loop fuel lapic (ptr + 20) stop (n + 1) m)
unfolding count_loop
count_loop_cpu fuel lapic ptr stop n m lt e =
    let go : ltb ptr stop ≡ true = ground arith in
    rw (go, count_loop)
      (rw ((==_iff (m ptr) 0).1 e, count_loop)
        (elim (Bool-cases (ltb 8 (n + 1))) [
          | inl many ↦ rw (many, count_loop) refl
          | inr few ↦
              let step : ptr + 12 + 8 ≡ ptr + 20 = omega arith in
              rw (few, count_loop) (ap (λ (p : ℕ). count_loop fuel lapic p stop (n + 1) m) step)
        ]))

count_loop_other :
    (fuel lapic ptr stop n : ℕ) (m : Mem)
    → ptr < stop
    → m ptr ≢ 0
    → count_loop (suc fuel) lapic ptr stop n m ≡ count_loop fuel lapic (ptr + 8) stop n m
unfolding count_loop
count_loop_other fuel lapic ptr stop n m lt ne =
    let go : ltb ptr stop ≡ true = ground arith in
    let kind : (m ptr == 0) ≡ false = ground arith in
    rw (go, count_loop) (rw (kind, count_loop) refl)

count_loop_end :
    (fuel lapic ptr n : ℕ) (m : Mem)
    → count_loop (suc fuel) lapic ptr ptr n m ≡ some (processors lapic n)
unfolding count_loop
count_loop_end fuel lapic ptr n m =
    let over : ltb ptr ptr ≡ false = ground arith in rw (over, count_loop) refl

count_loop_lem :
    (es : List Entry) (fuel lapic ptr n : ℕ) (m : Mem)
    → size es < 8 * fuel
    → n ≤ 8
    → Laid m ptr es
    → count_loop fuel lapic ptr (ptr + size es) n m ≡ some (counted lapic (n + cpus es))
count_loop_lem es zero lapic ptr n m lt le laid = absurd (omega arith)
count_loop_lem [] (suc fuel) lapic ptr n m lt le laid =
    let stop : ptr + 0 ≡ ptr = omega arith in
    let all : n + 0 ≡ n = omega arith in
    let fits : leb n 8 ≡ true = ground arith in
    rw (stop, all, fits) (count_loop_end fuel lapic ptr n m)
count_loop_lem (cpu ∷ es) (suc fuel) lapic ptr n m lt le (zero_type, laid) =
    let stop : ptr + (20 + size es) ≡ ptr + 20 + size es = omega arith in
    let all : n + suc (cpus es) ≡ n + 1 + cpus es = omega arith in
    count_loop_cpu fuel lapic ptr (ptr + (20 + size es)) n m (omega arith) zero_type
    ∙ rw (stop, all)
        (elim (dec_lt 8 (n + 1)) [
          | yes many ↦
              let over : ltb 8 (n + 1) ≡ true = ground arith in
              let over' : leb (n + 1 + cpus es) 8 ≡ false = ground arith in rw (over, over') refl
          | no few ↦
              let under : ltb 8 (n + 1) ≡ false = ground arith in
              rw under
                (count_loop_lem es fuel lapic (ptr + 20) (n + 1) m (omega arith) (omega arith) laid)
        ])
count_loop_lem (other ∷ es) (suc fuel) lapic ptr n m lt le (type, laid) =
    let stop : ptr + (8 + size es) ≡ ptr + 8 + size es = omega arith in
    count_loop_other fuel lapic ptr (ptr + (8 + size es)) n m (omega arith) type
    ∙ rw stop (count_loop_lem es fuel lapic (ptr + 8) n m (omega arith) le laid)

search_table_lem :
    (rounds st at : ℕ) (m : Mem)
    → st ≤ at
    → at < st + rounds
    → ((q : ℕ) → st ≤ q → q < at → load32 m q ≢ mp_magic)
    → load32 m at ≡ mp_magic
    → search_table rounds st m ≡ count_processors at m
unfolding search_table
search_table_lem zero st at m le lt before found = absurd (omega arith)
search_table_lem (suc rounds) st at m le lt before found = elim (dec_lt st at) [
  | yes earlier ↦
      let ne : (load32 m st == mp_magic) ≡ false =
        ground (arith, before st (omega arith) earlier) in
      rw (ne, search_table)
        (search_table_lem rounds (st + 1) at m (omega arith) (omega arith)
          (λ q lo hi. before q (omega arith) hi) found)
  | no here ↦
      let e : st ≡ at = omega arith in rw (ap (load32 m) e ∙ found, search_table) (rw e refl)
]

count_processors_lem :
    (at : ℕ) (es : List Entry) (m : Mem)
    → conf_length m (desc_conf m at) ≡ conf_size + size es
    → Laid m (desc_conf m at + conf_size) es
    → count_processors at m ≡ some (counted (conf_lapicaddr m (desc_conf m at)) (cpus es))
unfolding count_processors
count_processors_lem at es m length laid =
    let stop : desc_conf m at + conf_length m (desc_conf m at)
        ≡ desc_conf m at + conf_size + size es =
      omega arith in
    let none_yet : 0 + cpus es ≡ cpus es = omega arith in
    rw stop (
      count_loop_lem es (conf_length m (desc_conf m at) / 8 + 1) (conf_lapicaddr m (desc_conf m at))
        (desc_conf m at + conf_size) 0 m (omega arith) (omega arith) laid
      ∙ ap (λ (n : ℕ). some (counted (conf_lapicaddr m (desc_conf m at)) n)) none_yet)

-- With a descriptor in the BIOS, the first of which leads to a table laid out as the specification
-- says, every processor of this table is counted, up to eight of them, and the address of the
-- local APIC is taken from it; with more processors the call panics.
pub lapic_init-counts :
    (at : ℕ) (es : List Entry) (m : Mem)
    → bios_start ≤ at
    → at < bios_stop
    → ((q : ℕ) → bios_start ≤ q → q < at → load32 m q ≢ mp_magic)
    → load32 m at ≡ mp_magic
    → conf_length m (desc_conf m at) ≡ conf_size + size es
    → Laid m (desc_conf m at + conf_size) es
    → lapic_init m ≡ some (counted (conf_lapicaddr m (desc_conf m at)) (cpus es))
unfolding lapic_init
lapic_init-counts at es m lo hi before found length laid =
    search_table_lem (bios_stop - bios_start) bios_start at m lo (omega arith) before found
    ∙ count_processors_lem at es m length laid
