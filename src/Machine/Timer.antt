-- ===== src/Machine/Timer.antt =====
-- The clock in abstract-machine/am/src/x86/qemu/ioe.c: the date in the CMOS, and the time stamp counter.
mod Tests
pub mod Snapshot
use nju_os_workbench.Base.{
  ℕ, zero, suc, ◌+◌, ◌-◌, ◌*◌, ◌/◌, ◌%◌, ◌^◌, ◌≤◌, ◌<◌, min, ◌≡◌, ◌≢◌, refl, sym, ap, ap₂, ◌∙◌,
  subst, fun_ext, ◌≡⟨◌⟩◌, ◌∎, ◌↔◌, ◌⊎◌, inl, inr, Bool, true, false, not, ◌&&◌, ◌||◌, Option, none,
  some, List, [], ◌∷◌, ◌++◌, map, append-nil, append_assoc, arith, ltb, leb, ◌==◌, if◌then◌else◌,
  tests, Bool-cases, Option-cases, ==_iff, length, length-append, get_elem?,
}
unfoldable use nju_os_workbench.Base.{dec_lt, dec_le, ℕ_discrete}
use nju_os_workbench.Machine.Ports.{Ports}

pub record Rtc : Type 0 where
  pub year : ℕ
  pub month : ℕ
  pub day : ℕ
  pub hour : ℕ
  pub minute : ℕ
  pub second : ℕ

module _ (P : Ports) where
  open P use {State, inb, outb}

  -- two binary coded digits
  unfoldable pub read_rtc : ℕ → State → ℕ × State
  read_rtc reg s = let (ret, s') = inb (outb s 0x70 reg) 0x71 in (ret % 16 + ret / 2 ^ 4 * 10, s')

  unfoldable pub read_rtc_async : State → Rtc × State
  read_rtc_async s =
      let (sec, s1) = read_rtc 0 s in
      let (min, s2) = read_rtc 2 s1 in
      let (hrs, s3) = read_rtc 4 s2 in
      let (dom, s4) = read_rtc 7 s3 in
      let (mon, s5) = read_rtc 8 s4 in
      let (yrs, s6) = read_rtc 9 s5 in
      (
        record {
          second = sec;
          minute = min;
          hour = hrs;
          day = dom;
          month = mon;
          year = yrs + 2000;
        },
        s6,
      )

  -- `none` means that the fuel ran out.
  unfoldable pub timer_rtc : ℕ → State → Option (Rtc × State)
  timer_rtc zero s = none
  timer_rtc (suc fuel) s =
      let (rtc, s1) = read_rtc_async s in
      let (tmp, s2) = read_rtc 0 s1 in
      let rest = timer_rtc fuel s2 in if tmp == rtc.second then some (rtc, s2) else rest

  -- `spin` is the empty loop of 100000 rounds.
  module _ (spin : State → State) (rdtsc : State → ℕ × State) where
    unfoldable pub wait_sec : ℕ → State → Option (Rtc × State)
    wait_sec zero s = none
    wait_sec (suc fuel) s =
        let (t0, s1) = read_rtc_async s in
        let (t1, s2) = read_rtc_async (spin s1) in
        let rest = wait_sec fuel s2 in if t0.second == t1.second then rest else some (t1, s2)

    -- `attempts` bounds the calls of itself, `fuel` the rounds of each wait.
    unfoldable pub estimate_freq : (attempts fuel : ℕ) → State → Option (ℕ × State)
    estimate_freq zero fuel s = none
    estimate_freq (suc attempts) fuel s = elim (wait_sec fuel s) [
      | none ↦ none
      | some (rtc1, s1) ↦
          let (tsc1, s2) = rdtsc s1 in
          let t1 = rtc1.minute * 60 + rtc1.second in
          elim (wait_sec fuel s2) [
            | none ↦ none
            | some (rtc2, s3) ↦
                let (tsc2, s4) = rdtsc s3 in
                let t2 = rtc2.minute * 60 + rtc2.second in
                elim (leb t2 t1) [
                  | true ↦ estimate_freq attempts fuel s4
                  | false ↦ some ((tsc2 + 2 ^ 64 - tsc1) % 2 ^ 64 / 2 ^ 20 / (t2 - t1) % 2 ^ 32, s4)
                ]
          ]
    ]

    -- `freq_mhz`, `boot_date` and `uptsc`
    unfoldable pub timer_init : (attempts fuel : ℕ) → State → Option (ℕ × Rtc × ℕ × State)
    timer_init attempts fuel s = elim (estimate_freq attempts fuel s) [
      | none ↦ none
      | some (freq_mhz, s1) ↦ elim (timer_rtc fuel s1) [
        | none ↦ none
        | some (boot_date, s2) ↦ let (uptsc, s3) = rdtsc s2 in some (freq_mhz, boot_date, uptsc, s3)
      ]
    ]

    unfoldable pub timer_uptime : (freq_mhz uptsc : ℕ) → State → ℕ × State
    timer_uptime freq_mhz uptsc s =
        let (tsc, s') = rdtsc s in ((tsc + 2 ^ 64 - uptsc) % 2 ^ 64 / freq_mhz, s')
