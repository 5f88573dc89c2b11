-- ===== src/Machine.antt =====
-- abstract-machine/am/src/x86/qemu: the abstract machine for the 64-bit x86 of QEMU.
mod Tests
pub mod Vme
pub mod Cte
pub mod Idt
pub mod Ports
pub mod Disk
pub mod Boot
pub mod Gpu
pub mod Timer
pub mod Apic
pub mod Trm
pub mod Input
pub mod Ioe
