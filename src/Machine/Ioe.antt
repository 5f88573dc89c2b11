-- ===== src/Machine/Ioe.antt =====
-- The device registers of abstract-machine/am/src/x86/qemu/ioe.c: the serial port, the configurations, and the
-- table of handlers through which `ioe_read` and `ioe_write` go. The numbers of the registers are
-- those of abstract-machine/am/include/amdev.h.
mod Tests
pub mod Devices
use nju_os_workbench.Base.{
  ℕ, zero, suc, ◌+◌, ◌-◌, ◌*◌, ◌/◌, ◌%◌, ◌^◌, ◌≤◌, ◌<◌, min, ◌≡◌, ◌≢◌, refl, sym, ap, ap₂, ◌∙◌,
  subst, fun_ext, ◌≡⟨◌⟩◌, ◌∎, ◌↔◌, ◌⊎◌, inl, inr, Bool, true, false, not, ◌&&◌, ◌||◌, Option, none,
  some, List, [], ◌∷◌, ◌++◌, map, append-nil, append_assoc, arith, ltb, leb, ◌==◌, if◌then◌else◌,
  tests, Bool-cases, Option-cases, ==_iff, length, length-append, get_elem?,
}
unfoldable use nju_os_workbench.Base.{dec_lt, dec_le, ℕ_discrete}
use nju_os_workbench.Machine.Disk.{blksz}
use nju_os_workbench.Machine.Input.{designate}
use nju_os_workbench.Machine.Ports.{Ports}

abbrev pub com1 : ℕ
com1 = 0x3f8

module _ (P : Ports) where
  open P use {State, inb, outb}

  unfoldable pub uart_init : State → State
  uart_init s =
      let s1 = outb (outb s (com1 + 2) 0) (com1 + 3) 0x80 in
      let s2 = outb (outb s1 (com1 + 0) (115200 / 9600)) (com1 + 1) 0 in
      let s3 = outb (outb (outb s2 (com1 + 3) 0x03) (com1 + 4) 0) (com1 + 1) 0x01 in
      (inb (inb s3 (com1 + 2)).1 (com1 + 0)).1

  unfoldable pub uart_tx : ℕ → State → State
  uart_tx c s = outb s com1 c

  -- the bit pattern of the char, that of -1 if nothing is there
  unfoldable pub uart_rx : State → ℕ × State
  uart_rx s =
      let (status, s1) = inb s (com1 + 5) in if status % 2 == 1 then inb s1 com1 else (255, s1)

-- what the configurations tell of a device
pub record GpuConfig : Type 0 where
  pub gpu_present : Bool
  pub has_accel : Bool
  pub width : ℕ
  pub height : ℕ
  pub vmemsz : ℕ

pub record DiskConfig : Type 0 where
  pub disk_present : Bool
  pub disk_blksz : ℕ
  pub blkcnt : ℕ

abbrev pub vmem_size : ℕ
vmem_size = 512 * 2 ^ 10

abbrev pub disksz : ℕ
disksz = 64 * 2 ^ 20

-- `present`
abbrev pub uart_config : Bool
uart_config = true

-- `present` and `has_rtc`
abbrev pub timer_config : Bool × Bool
timer_config = (true, true)

abbrev pub input_config : Bool
input_config = true

abbrev pub audio_config : Bool
audio_config = false

abbrev pub net_config : Bool
net_config = false

unfoldable pub gpu_config : (display_w display_h : ℕ) → GpuConfig
gpu_config display_w display_h = record {
  gpu_present = true;
  has_accel = false;
  width = display_w;
  height = display_h;
  vmemsz = vmem_size;
}

unfoldable pub disk_config : DiskConfig
disk_config = record { disk_present = true; disk_blksz = blksz; blkcnt = disksz / blksz }

-- `ready`
abbrev pub gpu_status : Bool
gpu_status = true

abbrev pub disk_status : Bool
disk_status = true

-- the functions of the table; `fail` panics
pub data Handler : Type 0 where
  handle_uart_config handle_uart_tx handle_uart_rx : Handler
  handle_timer_config handle_timer_rtc handle_timer_uptime : Handler
  handle_input_config handle_input_keybrd : Handler
  handle_gpu_config handle_gpu_fbdraw handle_gpu_status handle_gpu_memcpy handle_gpu_render :
      Handler
  handle_audio_config : Handler
  handle_disk_config handle_disk_status handle_disk_blkio : Handler
  handle_net_config : Handler
  fail : Handler

abbrev pub lut_entries : List (ℕ × Option Handler)
lut_entries =
    (1, some handle_uart_config)
    ∷ (2, some handle_uart_tx)
    ∷ (3, some handle_uart_rx)
    ∷ (4, some handle_timer_config)
    ∷ (5, some handle_timer_rtc)
    ∷ (6, some handle_timer_uptime)
    ∷ (7, some handle_input_config)
    ∷ (8, some handle_input_keybrd)
    ∷ (9, some handle_gpu_config)
    ∷ (11, some handle_gpu_fbdraw)
    ∷ (10, some handle_gpu_status)
    ∷ (12, some handle_gpu_memcpy)
    ∷ (13, some handle_gpu_render)
    ∷ (14, some handle_audio_config)
    ∷ (18, some handle_disk_config)
    ∷ (19, some handle_disk_status)
    ∷ (20, some handle_disk_blkio)
    ∷ (21, some handle_net_config)
    ∷ []

-- `none` is NULL
unfoldable pub lut : ℕ → Option Handler
unfolding designate
lut = designate lut_entries (λ i. none)

-- the loop of `ioe_init` over the `n` entries of the table
unfoldable pub fill_lut : (n : ℕ) → (ℕ → Option Handler) → ℕ → Option Handler
fill_lut n table i =
    if ltb i n then (elim (table i) [ none ↦ some fail | some handler ↦ some handler ]) else table i

-- `none`: not on the processor that started. The order is that of the source.
unfoldable pub ioe_init :
    {S : Type 0} (uart timer gpu : S → S) (cpu : ℕ)
    → (ℕ → Option Handler) × S
    → Option ((ℕ → Option Handler) × S)
ioe_init uart timer gpu cpu (table, s) =
    if cpu == 0 then some (fill_lut 128 table, gpu (timer (uart s))) else none

pub data Access : Type 0 where
  calls : Handler → Access
  panics : Access
  -- through NULL or past the table
  wild : Access

unfoldable pub reached : Option Handler → Access
reached none = wild
reached (some fail) = panics
reached (some handler) = calls handler

-- `ioe_read` and `ioe_write`, which are the same
unfoldable pub ioe_access : (ℕ → Option Handler) → ℕ → Access
ioe_access table reg = if ltb reg 128 then reached (table reg) else wild

-- `present`, where a handler sets it
unfoldable pub config_present : Handler → Option Bool
unfolding gpu_config disk_config
config_present handle_uart_config = some uart_config
config_present handle_timer_config = some timer_config.0
config_present handle_input_config = some input_config
config_present handle_gpu_config = some (gpu_config 0 0).gpu_present
config_present handle_audio_config = some audio_config
config_present handle_disk_config = some disk_config.disk_present
config_present handle_net_config = some net_config
config_present handler = none
