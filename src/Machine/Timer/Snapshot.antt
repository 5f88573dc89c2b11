-- ===== src/Machine/Timer/Snapshot.antt =====
-- The loop of `timer_rtc` of abstract-machine/am/src/x86/qemu/ioe.c against a clock that goes on while it is read.
use nju_os_workbench.Base.{
  ℕ, suc, ◌+◌, ◌*◌, ◌/◌, ◌%◌, ◌≤◌, ◌<◌, ◌≡◌, ◌≢◌, refl, sym, ap, ◌∙◌, some, arith, ==_iff,
}
unfoldable use nju_os_workbench.Base.{dec_lt, ℕ_discrete}
use nju_os_workbench.Machine.Ports.{Ports}
use nju_os_workbench.Machine.Timer.{Rtc}
unfoldable use nju_os_workbench.Machine.Timer.{read_rtc, read_rtc_async, timer_rtc}

-- What the manual of the MC146818 says of the clock behind ports 0x70 and 0x71, of which the reading
-- of a register takes at most `cost` of the `hz` cycles of a second. `field reg t` is what register
-- `reg` shows in second `t`; in the last `busy` cycles of a second the clock brings its registers up to
-- date, and what is read then is undefined.
pub record IsClock (P : Ports) (hz cost busy : ℕ) : Type 0 where
  pub cycle : P.State → ℕ
  pub time : P.State → ℕ
  pub field : ℕ → ℕ → ℕ
  pub digits : (reg t : ℕ) → field reg t < 100
  pub seconds : (t : ℕ) → field 0 t ≡ t % 60
  pub runs : (s : P.State) → (time s * hz ≤ cycle s) × (cycle s < time s * hz + hz)
  pub takes :
      (s : P.State) (reg : ℕ)
      → let (v, s') = P.inb (P.outb s 0x70 reg) 0x71 in
        (cycle s ≤ cycle s') × (cycle s' ≤ cycle s + cost)
  pub shows :
      (s : P.State) (reg : ℕ)
      → let (v, s') = P.inb (P.outb s 0x70 reg) 0x71 in
        cycle s' + busy < time s' * hz + hz
        → v ≡ field reg (time s') / 10 * 16 + field reg (time s') % 10

mul_mono : (a b n : ℕ) → a < b → a * n + n ≤ b * n
mul_mono a b n lt = grind arith

module _ (P : Ports) (hz cost busy : ℕ) (clock : IsClock P hz cost busy) where
  open clock use {cycle, time, field, digits, seconds, runs, takes, shows}

  -- outside of an update
  abbrev pub IsQuiet : P.State → Type 0
  IsQuiet s = cycle s + busy < time s * hz + hz

  -- Neither the first nor the last reading of a round, both of the seconds, meets an update.
  abbrev pub IsQuietRound : P.State → Type 0
  IsQuietRound s = IsQuiet (read_rtc P 0 s).1 × IsQuiet (read_rtc P 0 (read_rtc_async P s).1).1

  -- all six registers in one second
  pub record IsDate (rtc : Rtc) (t : ℕ) : Type 0 where
    pub second_of : rtc.second ≡ field 0 t
    pub minute_of : rtc.minute ≡ field 2 t
    pub hour_of : rtc.hour ≡ field 4 t
    pub day_of : rtc.day ≡ field 7 t
    pub month_of : rtc.month ≡ field 8 t
    pub year_of : rtc.year ≡ field 9 t + 2000

  time_mono : (s s' : P.State) → cycle s ≤ cycle s' → time s ≤ time s'
  time_mono s s' le = elim (dec_lt (time s') (time s)) [
    | yes back ↦ absurd (omega (arith, runs s, runs s', mul_mono (time s') (time s) hz back))
    | no on ↦ omega arith
  ]

  time_near : (s s' : P.State) → cycle s' < cycle s + hz → time s' ≤ time s + 1
  time_near s s' lt = elim (dec_lt (time s + 1) (time s')) [
    | yes far ↦
        let next : (time s + 1) * hz ≡ time s * hz + hz = grind arith in
        absurd (omega (arith, runs s, runs s', mul_mono (time s + 1) (time s') hz far))
    | no on ↦ omega arith
  ]

  read_rtc-cycle :
      (reg : ℕ) (s : P.State)
      → (cycle s ≤ cycle (read_rtc P reg s).1) × (cycle (read_rtc P reg s).1 ≤ cycle s + cost)
  unfolding read_rtc
  read_rtc-cycle reg s = takes s reg

  read_rtc_lem :
      (reg : ℕ) (s : P.State)
      → IsQuiet (read_rtc P reg s).1
      → (read_rtc P reg s).0 ≡ field reg (time (read_rtc P reg s).1)
  unfolding read_rtc
  read_rtc_lem reg s quiet =
      let shown = shows s reg quiet in
      rw shown (omega (arith, digits reg (time (P.inb (P.outb s 0x70 reg) 0x71).1)))

  -- A state between two quiet ones of the same second is quiet.
  IsQuiet-between :
      (s s' t : P.State)
      → cycle s ≤ cycle t
      → time s ≡ time s'
      → cycle t ≤ cycle s'
      → IsQuiet s'
      → IsQuiet t
  IsQuiet-between s s' t lo same hi quiet =
      let up = time_mono s t lo in
      let down = time_mono t s' hi in
      let equal : time t ≡ time s' = omega arith in rw equal (omega arith)

  -- One round of the loop: `first` and `last` are the seconds of its first and its last reading.
  record IsRound (s : P.State) (rtc : Rtc) (tmp : ℕ) (s' : P.State) : Type 0 where
    first : ℕ
    last : ℕ
    first_read : rtc.second ≡ first % 60
    last_read : tmp ≡ last % 60
    begun : time s ≤ first
    ordered : first ≤ last
    ended : last ≡ time s'
    near : 7 * cost < hz → last ≤ first + 1
    short : cycle s' ≤ cycle s + 7 * cost
    whole : first ≡ last → IsDate rtc first

  round :
      (s : P.State)
      → IsQuietRound s
      → let (rtc, s1) = read_rtc_async P s in
        let (tmp, s2) = read_rtc P 0 s1 in IsRound s rtc tmp s2
  unfolding read_rtc_async
  round s (quiet1, quiet7) =
      let s1 = (read_rtc P 0 s).1 in
      let s2 = (read_rtc P 2 s1).1 in
      let s3 = (read_rtc P 4 s2).1 in
      let s4 = (read_rtc P 7 s3).1 in
      let s5 = (read_rtc P 8 s4).1 in
      let s6 = (read_rtc P 9 s5).1 in
      let s7 = (read_rtc P 0 s6).1 in
      let (lo1, hi1) = read_rtc-cycle 0 s in
      let (lo2, hi2) = read_rtc-cycle 2 s1 in
      let (lo3, hi3) = read_rtc-cycle 4 s2 in
      let (lo4, hi4) = read_rtc-cycle 7 s3 in
      let (lo5, hi5) = read_rtc-cycle 8 s4 in
      let (lo6, hi6) = read_rtc-cycle 9 s5 in
      let (lo7, hi7) = read_rtc-cycle 0 s6 in
      let v1 = read_rtc_lem 0 s quiet1 in
      let v7 = read_rtc_lem 0 s6 quiet7 in
      let m2 = time_mono s1 s2 lo2 in
      let m3 = time_mono s2 s3 lo3 in
      let m4 = time_mono s3 s4 lo4 in
      let m5 = time_mono s4 s5 lo5 in
      let m6 = time_mono s5 s6 lo6 in
      let m7 = time_mono s6 s7 lo7 in
      record {
        first = time s1;
        last = time s7;
        first_read = v1 ∙ seconds (time s1);
        last_read = v7 ∙ seconds (time s7);
        begun = time_mono s s1 lo1;
        ordered = omega arith;
        ended = refl;
        near = λ small. time_near s1 s7 (omega arith);
        short = omega arith;
        whole = λ same. record {
          second_of = v1;
          minute_of =
              read_rtc_lem 2 s1 (IsQuiet-between s1 s7 s2 (omega arith) same (omega arith) quiet7)
              ∙ ap (field 2) (omega arith);
          hour_of =
              read_rtc_lem 4 s2 (IsQuiet-between s1 s7 s3 (omega arith) same (omega arith) quiet7)
              ∙ ap (field 4) (omega arith);
          day_of =
              read_rtc_lem 7 s3 (IsQuiet-between s1 s7 s4 (omega arith) same (omega arith) quiet7)
              ∙ ap (field 7) (omega arith);
          month_of =
              read_rtc_lem 8 s4 (IsQuiet-between s1 s7 s5 (omega arith) same (omega arith) quiet7)
              ∙ ap (field 8) (omega arith);
          year_of = omega (
            arith,
            read_rtc_lem 9 s5 (IsQuiet-between s1 s7 s6 (omega arith) same (omega arith) quiet7),
            ap (field 9) (let same_time : time s6 ≡ time s1 = omega arith in same_time),
          );
        };
      }

  timer_rtc_stops :
      (fuel : ℕ) (s : P.State)
      → (read_rtc P 0 (read_rtc_async P s).1).0 ≡ (read_rtc_async P s).0.second
      → timer_rtc P (suc fuel) s
        ≡ some ((read_rtc_async P s).0, (read_rtc P 0 (read_rtc_async P s).1).1)
  unfolding timer_rtc
  timer_rtc_stops fuel s e = rw ((==_iff _ _).1 e) refl

  timer_rtc_again :
      (fuel : ℕ) (s : P.State)
      → (read_rtc P 0 (read_rtc_async P s).1).0 ≢ (read_rtc_async P s).0.second
      → timer_rtc P (suc fuel) s ≡ timer_rtc P fuel (read_rtc P 0 (read_rtc_async P s).1).1
  unfolding timer_rtc
  timer_rtc_again fuel s ne = ground arith

  -- Where fourteen readings take less than a second and no reading of the seconds in the first two
  -- rounds meets an update of the clock, the loop ends in two rounds at most, and the date is that of
  -- one second between the call and the return, also where the clock moves on meanwhile and the
  -- readings of other registers meet the update.
  pub timer_rtc-IsDate :
      (fuel : ℕ) (s : P.State)
      → 14 * cost < hz
      → IsQuietRound s
      → IsQuietRound (read_rtc P 0 (read_rtc_async P s).1).1
      → (rtc : Rtc) × (s' : P.State) × (t : ℕ) × (timer_rtc P (suc (suc fuel)) s ≡ some (rtc, s'))
        × (time s ≤ t)
        × (t ≤ time s')
        × IsDate rtc t
  timer_rtc-IsDate fuel s small quiet quiet' =
      let s1 = (read_rtc P 0 (read_rtc_async P s).1).1 in
      let one = round s quiet in
      let two = round s1 quiet' in
      elim (ℕ_discrete (read_rtc P 0 (read_rtc_async P s).1).0 (read_rtc_async P s).0.second) [
        | yes e ↦
            let same : one.first ≡ one.last =
              omega (arith, one.first_read, one.last_read, one.near, one.ordered, e) in
            (
              (read_rtc_async P s).0,
              s1,
              one.first,
              timer_rtc_stops (suc fuel) s e,
              one.begun,
              omega (arith, one.ended, one.ordered),
              one.whole same,
            )
        | no moved ↦
            let s2 = (read_rtc P 0 (read_rtc_async P s1).1).1 in
            let crossed : one.first ≢ one.last =
              λ q. moved (one.last_read ∙ ap (λ (n : ℕ). n % 60) (sym q) ∙ sym one.first_read) in
            let within : time s2 ≤ time s + 1 =
              time_near s s2 (omega (arith, one.short, two.short)) in
            let same : two.first ≡ two.last =
              omega (arith, one.begun, one.ordered, one.ended, two.begun, two.ordered, two.ended) in
            let e : (read_rtc P 0 (read_rtc_async P s1).1).0 ≡ (read_rtc_async P s1).0.second =
              two.last_read ∙ ap (λ (n : ℕ). n % 60) (sym same) ∙ sym two.first_read in
            (
              (read_rtc_async P s1).0,
              s2,
              two.first,
              timer_rtc_again (suc fuel) s moved ∙ timer_rtc_stops fuel s1 e,
              omega (arith, one.begun, one.ordered, one.ended, two.begun),
              omega (arith, two.ended, two.ordered),
              two.whole same,
            )
      ]
