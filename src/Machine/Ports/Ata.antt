-- ===== src/Machine/Ports/Ata.antt =====
-- A drive that does what the ATA standard says and nothing else; its status is busy once for each command
-- and for each block that it takes.
use nju_os_workbench.Base.{
  ℕ, ◌+◌, ◌-◌, ◌≤◌, ◌<◌, ◌≡◌, ◌≢◌, refl, false, arith, ◌==◌, if◌then◌else◌, ==_iff, bit_and,
}
use nju_os_workbench.Machine.Ports.{
  Ports, Phase, waiting, giving, taking, Drive, set_register, lba, write_word, IsDrive,
}

unfoldable pub status : Drive → ℕ × Drive
status d = if d.busy == 0 then (0x40, d) else (0x80, record d { busy = d.busy - 1 })

unfoldable pub control : Drive → ℕ → ℕ → Drive
control d port v =
    if port == 0x1f7
    then record d { phase = if v == 0x20 then giving (lba d) 0 else taking (lba d) 0; busy = 1 }
    else set_register port v d

unfoldable pub give : Drive → Phase → ℕ × Drive
give d (giving b i) =
    (d.word b i, record d { phase = if i == 127 then waiting else giving b (i + 1) })
give d phase = (0, d)

unfoldable pub take : Drive → Phase → ℕ → Drive
take d (taking b i) v = record d {
  phase = if i == 127 then waiting else taking b (i + 1);
  busy = if i == 127 then 1 else 0;
  word = write_word d.word b i v;
}
take d phase v = d

abbrev pub ata : Ports
ata = record {
  State = Drive;
  inb = λ d port. status d;
  outb = control;
  inl = λ d port. give d d.phase;
  outl = λ d port v. take d d.phase v;
}

set_elsewhere : (port v : ℕ) (d : Drive) → port ≤ 0x1f6 → control d port v ≡ set_register port v d
unfolding control
set_elsewhere port v d hi = let other : (port == 0x1f7) ≡ false = ground arith in rw other refl

busy_poll : (d : Drive) → 0 < d.busy → status d ≡ (0x80, record d { busy = d.busy - 1 })
unfolding status
busy_poll d more = let not_yet : (d.busy == 0) ≡ false = ground arith in rw not_yet refl

ready_poll : (d : Drive) → d.busy ≡ 0 → status d ≡ (0x40, d)
unfolding status
ready_poll d idle = rw ((==_iff d.busy 0).1 idle) refl

table : ◌≢◌ {A = ℕ} (bit_and 0x80 0xc0) 0x40
table e = omega (arith, e)

pub ata-IsDrive : IsDrive ata (λ d. d) 1
unfolding control give take
ata-IsDrive = record {
  delay = λ d. 1;
  delay-le = λ d. omega arith;
  ready = λ d idle. rw (ready_poll d idle) (refl, refl);
  not_ready = λ d more. rw (busy_poll d more) (table, refl);
  registers = λ d port v idle lo hi. set_elsewhere port v d hi;
  read_command = λ d idle addressed. refl;
  write_command = λ d idle addressed. refl;
  gives = λ d b i phase idle. rw phase (refl, refl);
  takes = λ d b i v phase idle. rw phase refl;
}

-- block `b` holds the word `b` at each place
abbrev pub numbered : Drive
numbered = record {
  count = 0;
  lba0 = 0;
  lba1 = 0;
  lba2 = 0;
  device = 0;
  phase = waiting;
  busy = 1;
  word = λ b i. b;
}
