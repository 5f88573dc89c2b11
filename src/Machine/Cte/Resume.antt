-- ===== src/Machine/Cte/Resume.antt =====
-- What an interrupt leaves unchanged, by `__am_irq_handle` of
-- abstract-machine/am/src/x86/qemu/cte.c.
use nju_os_workbench.Base.{◌≡◌, refl, inl, inr, ◌&&◌, Option, some, ltb, leb, ◌==◌, Bool-cases}
use nju_os_workbench.Machine.Cte.{event_of, Context, TrapFrame, Cpu, Event, iret, saved}
unfoldable use nju_os_workbench.Machine.Cte.{irq_handle}

-- Where the handler returns the context that it is given, the interrupted code goes on with the
-- registers that the frame has saved and with the page tables and the kernel stack of before, and the
-- local APIC is told exactly of the vectors from 32 to 63.
pub irq_handle-resumes :
    (user_handler : Event → Context → Option Context) (tf : TrapFrame) (cpu : Cpu)
    → ((ev : Event) (ctx : Context) → user_handler ev ctx ≡ some ctx)
    → irq_handle user_handler tf cpu ≡ iret (leb 32 tf.irq && ltb tf.irq 64) cpu (saved tf cpu)
unfolding irq_handle
irq_handle-resumes user_handler tf cpu same =
    let back = same (event_of tf.irq tf.errcode cpu.cpu_cr2) (saved tf cpu) in
    elim (Bool-cases (cpu.cpu_cr3 == 0)) [
      | inl none_there ↦ rw (back, none_there, irq_handle) refl
      | inr there ↦ rw (back, there, irq_handle) refl
    ]
