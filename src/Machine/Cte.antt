-- ===== src/Machine/Cte.antt =====
-- abstract-machine/am/src/x86/qemu/cte.c for 64 bits: interrupts and contexts; and `ucontext` of vme.c.
-- What `__am_iret` restores is the context that a run ends with.
pub mod Resume
use nju_os_workbench.Base.{
  ℕ, zero, suc, ◌+◌, ◌-◌, ◌*◌, ◌/◌, ◌%◌, ◌^◌, ◌≤◌, ◌<◌, min, ◌≡◌, ◌≢◌, refl, sym, ap, ap₂, ◌∙◌,
  subst, fun_ext, ◌≡⟨◌⟩◌, ◌∎, ◌↔◌, ◌⊎◌, inl, inr, Bool, true, false, not, ◌&&◌, ◌||◌, Option, none,
  some, List, [], ◌∷◌, ◌++◌, map, append-nil, append_assoc, arith, ltb, leb, ◌==◌, if◌then◌else◌,
  tests, Bool-cases, Option-cases, ==_iff, length, length-append, get_elem?,
}
unfoldable use nju_os_workbench.Base.{dec_lt, dec_le, ℕ_discrete}
use nju_os_workbench.Machine.Vme.{uvm_end}
use nju_os_workbench.Klib.Stdlib.{Area}

pub record Context : Type 0 where
  pub cr3 : ℕ
  pub rax : ℕ
  pub rbx : ℕ
  pub rcx : ℕ
  pub rdx : ℕ
  pub rbp : ℕ
  pub rsi : ℕ
  pub rdi : ℕ
  pub r8 : ℕ
  pub r9 : ℕ
  pub r10 : ℕ
  pub r11 : ℕ
  pub r12 : ℕ
  pub r13 : ℕ
  pub r14 : ℕ
  pub r15 : ℕ
  pub rip : ℕ
  pub cs : ℕ
  pub rflags : ℕ
  pub rsp : ℕ
  pub ss : ℕ
  pub rsp0 : ℕ

-- `(Context) { 0 }`
abbrev pub zero_context : Context
zero_context = record {
  cr3 = 0;
  rax = 0;
  rbx = 0;
  rcx = 0;
  rdx = 0;
  rbp = 0;
  rsi = 0;
  rdi = 0;
  r8 = 0;
  r9 = 0;
  r10 = 0;
  r11 = 0;
  r12 = 0;
  r13 = 0;
  r14 = 0;
  r15 = 0;
  rip = 0;
  cs = 0;
  rflags = 0;
  rsp = 0;
  ss = 0;
  rsp0 = 0;
}

pub record TrapFrame : Type 0 where
  pub saved_context : Context
  pub irq : ℕ
  pub errcode : ℕ
  pub frame_rip : ℕ
  pub frame_cs : ℕ
  pub frame_rflags : ℕ
  pub frame_rsp : ℕ
  pub frame_ss : ℕ

pub data EventKind : Type 0 where
  event_yield event_syscall event_pagefault event_error event_irq_timer event_irq_iodev : EventKind

-- without the message
pub record Event : Type 0 where
  pub event : EventKind
  pub cause : ℕ
  pub ref : ℕ

abbrev pub plain : EventKind → Event
plain kind = record { event = kind; cause = 0; ref = 0 }

-- the `switch`; `ev.cause |= MMAP_NONE` adds nothing
unfoldable pub event_of : (irq errcode cr2 : ℕ) → Event
event_of irq errcode cr2 =
    if irq == 32
    then plain event_irq_timer
    else if (irq == 33) || (irq == 36)
    then plain event_irq_iodev
    else if irq == 0x80
    then plain event_syscall
    else if irq == 0x81
    then plain event_yield
    else if (irq == 0)
        || (irq == 6)
        || (irq == 7)
        || (irq == 8)
        || (irq == 10)
        || (irq == 11)
        || (irq == 12)
        || (irq == 13)
    then plain event_error
    else if irq == 14
    then record {
      event = event_pagefault;
      cause = if errcode / 2 % 2 == 1 then 2 else 1;
      ref = cr2;
    }
    else record { event = event_error; cause = errcode; ref = 0 }

-- the registers of the processor that are not in the frame
pub record Cpu : Type 0 where
  pub cpu_cr2 : ℕ
  pub cpu_cr3 : ℕ
  pub tss_rsp0 : ℕ

-- what an interrupt does: whether the local APIC was told, and what `__am_iret` goes on with
pub data Handled : Type 0 where
  iret : (eoi : Bool) → Cpu → Context → Handled
  null_context : Handled

abbrev pub saved : TrapFrame → Cpu → Context
saved tf cpu = record tf.saved_context {
  rip = tf.frame_rip;
  cs = tf.frame_cs;
  rflags = tf.frame_rflags;
  rsp = tf.frame_rsp;
  rsp0 = cpu.tss_rsp0;
  ss = tf.frame_ss;
  cr3 = cpu.cpu_cr3;
}

-- The handler may return NULL, which is `none`.
unfoldable pub irq_handle : (Event → Context → Option Context) → TrapFrame → Cpu → Handled
irq_handle user_handler tf cpu =
    let eoi = leb 32 tf.irq && ltb tf.irq 64 in
    elim (user_handler (event_of tf.irq tf.errcode cpu.cpu_cr2) (saved tf cpu)) [
      | none ↦ null_context
      | some ctx ↦
          if ctx.cr3 == 0
          then iret eoi cpu ctx
          else iret eoi (record cpu { cpu_cr3 = ctx.cr3; tss_rsp0 = ctx.rsp0 }) ctx
    ]

abbrev pub ksel : ℕ → ℕ
ksel seg = seg * 8

abbrev pub usel : ℕ → ℕ
usel seg = seg * 8 + 3

abbrev pub fl_if : ℕ
fl_if = 0x200

-- `start` is the address of `__am_kcontext_start`; the context stands below `kstack.end`.
unfoldable pub kcontext : (start : ℕ) → (kstack : Area) → (entry arg : ℕ) → Context
kcontext start kstack entry arg = record zero_context {
  cs = ksel 1;
  rip = start;
  rflags = fl_if;
  rsp = kstack.stop;
  rdi = arg;
  rsi = entry;
}

unfoldable pub ucontext : (as_ptr : ℕ) → (kstack : Area) → (entry : ℕ) → Context
ucontext as_ptr kstack entry = record zero_context {
  cs = usel 3;
  ss = usel 4;
  rip = entry;
  rflags = fl_if;
  rsp = uvm_end;
  rsp0 = kstack.stop;
  cr3 = as_ptr;
}
