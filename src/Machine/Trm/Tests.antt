-- ===== src/Machine/Trm/Tests.antt =====
-- A table with a processor and another entry; and what `halt` prints on processor 1 for the code 26.
use nju_os_workbench.Base.{◌≡◌, refl, ◌||◌, some, [], ◌∷◌, arith, ◌==◌, if◌then◌else◌}
use nju_os_workbench.Base.Memory.{Mem}
unfoldable use nju_os_workbench.Machine.Disk.{load32}
use nju_os_workbench.Machine.Trm.{lapic_init}
unfoldable use nju_os_workbench.Machine.Trm.{halt_text}
use nju_os_workbench.Machine.Trm.Counting.{cpu, other, counted, lapic_init-counts}

abbrev memory : Mem
memory q =
    if (q == 0xf0000) || (q == 0xf0003)
    then 0x5f
    else if q == 0xf0001
    then 0x4d
    else if q == 0xf0002
    then 0x50
    else if q == 0xf0005
    then 0x10
    else if q == 0x1004
    then 72
    else if q == 0x1040
    then 2
    else 0

lapic_init-counts_example : lapic_init memory ≡ some (counted 0 1)
unfolding load32
lapic_init-counts_example =
    lapic_init-counts 0xf0000 (cpu ∷ other ∷ []) memory (omega arith) (omega arith)
      (λ q lo hi. absurd (omega arith)) refl refl (refl, (λ e. omega (arith, e), tt))

halt_text_26 :
    halt_text 1 26 (b'#' ∷ b'$' ∷ b' ' ∷ b'(' ∷ b'4' ∷ b'0' ∷ b')' ∷ [])
    ≡ b'#' ∷ b'1' ∷ b' ' ∷ b'(' ∷ b'1' ∷ b'a' ∷ b')' ∷ []
unfolding halt_text
halt_text_26 = refl
