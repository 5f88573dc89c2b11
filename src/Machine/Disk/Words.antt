-- ===== src/Machine/Disk/Words.antt =====
-- The 128 words of a block that pass between the memory and the drive of
-- abstract-machine/am/src/x86/qemu/ioe.c.
use nju_os_workbench.Base.{
  ℕ, zero, suc, ◌+◌, ◌-◌, ◌*◌, ◌/◌, ◌%◌, ◌≤◌, ◌<◌, ◌≡◌, refl, sym, ap, ◌∙◌, ◌&&◌, arith, ltb, leb,
  ◌==◌, if◌then◌else◌,
}
unfoldable use nju_os_workbench.Base.{dec_lt}
use nju_os_workbench.Base.Memory.{Mem}
use nju_os_workbench.Machine.Ports.{
  Ports, Drive, IsDrive, Phase, waiting, giving, taking, write_word,
}
use nju_os_workbench.Machine.Disk.{byte_of}
unfoldable use nju_os_workbench.Machine.Disk.{read_words, write_words, store32, load32}

-- the k-th byte of the disk
abbrev pub disk_byte : (ℕ → ℕ → ℕ) → ℕ → ℕ
disk_byte word k = byte_of (word (k / 512) (k % 512 / 4)) (k % 4)

-- the phase after `i` words
abbrev pub phase_at : (ℕ → Phase) → ℕ → Phase
phase_at phase i = if i == 128 then waiting else phase i

split_read :
    (row : ℕ → ℕ) (m : Mem) (i ptr rounds q value : ℕ)
    → value ≡ row i
    → (if leb (ptr + 4) q && ltb q (ptr + 4 + 4 * rounds)
        then byte_of (row (i + 1 + (q - (ptr + 4)) / 4)) ((q - (ptr + 4)) % 4)
        else store32 m ptr value q)
      ≡ (if leb ptr q && ltb q (ptr + 4 * suc rounds)
          then byte_of (row (i + (q - ptr) / 4)) ((q - ptr) % 4)
          else m q)
unfolding store32
split_read row m i ptr rounds q value e = elim (dec_lt q ptr) [
  | yes below ↦ ground arith
  | no above ↦ elim (dec_lt q (ptr + 4)) [
    | yes here ↦
        let first : i + (q - ptr) / 4 ≡ i = omega arith in
        let digit : (q - ptr) % 4 ≡ q - ptr = omega arith in rw (first, digit, e) (ground arith)
    | no past ↦
        let word_no : i + 1 + (q - (ptr + 4)) / 4 ≡ i + (q - ptr) / 4 = omega arith in
        let digit : (q - (ptr + 4)) % 4 ≡ (q - ptr) % 4 = omega arith in
        rw (word_no, digit) (ground arith)
  ]
]

split_write :
    (word : ℕ → ℕ → ℕ) (m : Mem) (i b ptr b' i' : ℕ)
    → i < 128
    → (if (b' == b) && leb (i + 1) i' && ltb i' 128
        then load32 m (ptr + 4 + 4 * (i' - (i + 1)))
        else write_word word b i (load32 m ptr) b' i')
      ≡ (if (b' == b) && leb i i' && ltb i' 128 then load32 m (ptr + 4 * (i' - i)) else word b' i')
split_write word m i b ptr b' i' lt = elim (dec_lt i i') [
  | yes past ↦
      let place : ptr + 4 + 4 * (i' - (i + 1)) ≡ ptr + 4 * (i' - i) = omega arith in
      rw place (ground arith)
  | no before ↦
      let place : i' ≡ i → ptr + 4 * (i' - i) ≡ ptr = λ e. omega arith in
      ground (arith, λ (e : i' ≡ i). ap (load32 m) (place e))
]

last_word :
    (word : ℕ → ℕ → ℕ) (m : Mem) (i b ptr b' i' : ℕ)
    → i ≡ 127
    → write_word word b i (load32 m ptr) b' i'
      ≡ (if (b' == b) && leb i i' && ltb i' 128 then load32 m (ptr + 4 * (i' - i)) else word b' i')
last_word word m i b ptr b' i' e =
    sym (ground arith) ∙ split_write word m i b ptr b' i' (omega arith)

module _ (P : Ports) (drive : P.State → Drive) (patience : ℕ) (law : IsDrive P drive patience) where
  pub read_words-copies :
      (rounds i b ptr : ℕ) (m : Mem) (s : P.State)
      → i + rounds ≡ 128
      → (drive s).busy ≡ 0
      → (drive s).phase ≡ phase_at (giving b) i
      → let (m', s') = read_words P rounds ptr m s in
        ((drive s').phase ≡ waiting)
        × ((drive s').busy ≡ 0)
        × ((drive s').word ≡ (drive s).word)
        × ((q : ℕ)
            → m' q ≡ (
                if leb ptr q && ltb q (ptr + 4 * rounds)
                then byte_of ((drive s).word b (i + (q - ptr) / 4)) ((q - ptr) % 4)
                else m q))
  unfolding read_words
  read_words-copies zero i b ptr m s n idle at = (at ∙ ground arith, idle, refl, λ q. ground arith)
  read_words-copies (suc rounds) i b ptr m s n idle at =
      let now : (drive s).phase ≡ giving b i = at ∙ ground arith in
      let (value, next) = law.gives s b i now idle in
      let s1 = (P.inl s 0x1f0).1 in
      let (done, idle', same, copied) =
        read_words-copies rounds (i + 1) b (ptr + 4) (store32 m ptr (P.inl s 0x1f0).0) s1
          (omega arith) (ap (λ (d : Drive). d.busy) next ∙ idle)
          (ap (λ (d : Drive). d.phase) next ∙ ground arith) in
      let word_same : (drive s1).word ≡ (drive s).word = ap (λ (d : Drive). d.word) next in
      (
        done,
        idle',
        same ∙ word_same,
        λ q.
            copied q
            ∙ ap
                (λ (w : ℕ → ℕ → ℕ).
                  if leb (ptr + 4) q && ltb q (ptr + 4 + 4 * rounds)
                  then byte_of (w b (i + 1 + (q - (ptr + 4)) / 4)) ((q - (ptr + 4)) % 4)
                  else store32 m ptr (P.inl s 0x1f0).0 q)
                word_same
            ∙ split_read ((drive s).word b) m i ptr rounds q (P.inl s 0x1f0).0 value,
      )

  pub write_words-stores :
      (rounds i b ptr : ℕ) (m : Mem) (s : P.State)
      → i + rounds ≡ 128
      → 0 < rounds
      → (drive s).busy ≡ 0
      → (drive s).phase ≡ taking b i
      → let s' = write_words P rounds ptr m s in
        ((drive s').phase ≡ waiting)
        × ((drive s').busy ≤ patience)
        × ((b' i' : ℕ)
            → (drive s').word b' i' ≡ (
                if (b' == b) && leb i i' && ltb i' 128
                then load32 m (ptr + 4 * (i' - i))
                else (drive s).word b' i'))
  unfolding write_words
  write_words-stores zero i b ptr m s n more idle at = elim more [ ]
  write_words-stores (suc zero) i b ptr m s n more idle at =
      let next = law.takes s b i (load32 m ptr) at idle in
      let last : i ≡ 127 = omega arith in
      let free : (drive (P.outl s 0x1f0 (load32 m ptr))).busy ≡ law.delay s =
        ap (λ (d : Drive). d.busy) next ∙ ground arith in
      (
        ap (λ (d : Drive). d.phase) next ∙ ground arith,
        rw free (law.delay-le s),
        λ b' i'.
            ap (λ (d : Drive). d.word b' i') next ∙ last_word (drive s).word m i b ptr b' i' last,
      )
  write_words-stores (suc (suc rounds)) i b ptr m s n more idle at =
      let next = law.takes s b i (load32 m ptr) at idle in
      let (done, free, stored) =
        write_words-stores (suc rounds) (i + 1) b (ptr + 4) m (P.outl s 0x1f0 (load32 m ptr))
          (omega arith) (omega arith) (ap (λ (d : Drive). d.busy) next ∙ ground arith)
          (ap (λ (d : Drive). d.phase) next ∙ ground arith) in
      (
        done,
        free,
        λ b' i'.
            stored b' i'
            ∙ ap
                (λ (d : Drive).
                  if (b' == b) && leb (i + 1) i' && ltb i' 128
                  then load32 m (ptr + 4 + 4 * (i' - (i + 1)))
                  else d.word b' i')
                next
            ∙ split_write (drive s).word m i b ptr b' i' (omega arith),
      )
