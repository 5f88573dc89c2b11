-- ===== src/Machine/Timer/Tests.antt =====
-- A clock with 100 cycles for a second, the last of them for its update, and one for the reading of a
-- register.
use nju_os_workbench.Base.{ℕ, ◌+◌, ◌*◌, ◌/◌, ◌%◌, ◌≤◌, ◌≡◌, refl, some, arith, ◌==◌, if◌then◌else◌}
use nju_os_workbench.Machine.Ports.{Ports}
unfoldable use nju_os_workbench.Machine.Timer.{read_rtc, read_rtc_async}
use nju_os_workbench.Machine.Timer.{Rtc, timer_rtc}
use nju_os_workbench.Machine.Timer.Snapshot.{IsClock, IsDate, timer_rtc-IsDate}

record Cmos : Type 0 where
  chosen : ℕ
  ticks : ℕ

abbrev shown : ℕ → ℕ → ℕ
shown reg t = if reg == 0 then t % 60 else t / 60 % 60

abbrev cmos : Ports
cmos = record {
  State = Cmos;
  inb = λ s port.
      let t : ℕ = shown s.chosen ((s.ticks + 1) / 100) in
      (
        if (s.ticks + 1) % 100 == 99 then 0xff else t / 10 * 16 + t % 10,
        record s { ticks = s.ticks + 1 },
      );
  outb = λ s port v. record s { chosen = v };
  inl = λ s port. (0, s);
  outl = λ s port v. s;
}

clock : IsClock cmos 100 1 1
clock = record {
  cycle = λ s. s.ticks;
  time = λ s. s.ticks / 100;
  field = shown;
  digits = λ reg t. ground arith;
  seconds = λ t. refl;
  runs = λ s. omega arith;
  takes = λ s reg. (omega arith, omega arith);
  shows = λ s reg quiet. ground arith;
}

-- The reading begins just before the end of a minute, and the hours are read in the update.
abbrev late : Cmos
late = record { chosen = 0; ticks = 5996 }

timer_rtc-IsDate_example :
    (rtc : Rtc) × (s' : Cmos) × (t : ℕ) × (timer_rtc cmos 2 late ≡ some (rtc, s'))
    × (clock.time late ≤ t)
    × (t ≤ clock.time s')
    × IsDate cmos 100 1 1 clock rtc t
unfolding read_rtc read_rtc_async clock
timer_rtc-IsDate_example =
    timer_rtc-IsDate cmos 100 1 1 clock 0 late (omega arith) (omega arith, omega arith)
      (omega arith, omega arith)
