-- ===== src/Machine/Gpu/Positions.antt =====
-- The arithmetic of the addresses that `gpu_fbdraw` of abstract-machine/am/src/x86/qemu/ioe.c steps through.
use nju_os_workbench.Base.{
  ℕ, suc, ◌+◌, ◌-◌, ◌*◌, ◌≤◌, ◌<◌, ◌≡◌, refl, ap, ◌⊎◌, inl, inr, Bool, ◌&&◌, arith, ltb, leb, ◌==◌,
  if◌then◌else◌, Bool-cases, ==_iff,
}
unfoldable use nju_os_workbench.Base.{dec_lt}
use nju_os_workbench.Base.Int.{pos}
unfoldable use nju_os_workbench.Base.Int.{◌+ℤ◌, ◌*ℤ◌}
use nju_os_workbench.Machine.Gpu.{Pixel}

pub pos-add : (a b : ℕ) → pos a +ℤ pos b ≡ pos (a + b)
unfolding ◌+ℤ◌
pos-add a b = ground arith

pub pos-mul : (a b : ℕ) → pos a *ℤ pos b ≡ pos (a * b)
unfolding ◌*ℤ◌
pos-mul a b = ground arith

-- A row on or after row `a + 1` is past the whole of row `a`.
pub row_past : (a b w : ℕ) → a < b → a * w + w ≤ b * w
row_past a b w lt = grind arith

abbrev pub in_span : (from n k : ℕ) → Bool
in_span from n k = leb from k && ltb k (from + n)

-- the positions that a row of `len` pixels from column `x` on covers
pub row_test :
    (x len w c a r : ℕ)
    → c < w
    → (x + len ≤ w) ⊎ (len ≡ 0)
    → in_span (x + a * w) len (c + r * w) ≡ ((r == a) && in_span x len c)
row_test x len w c a r lt fits = elim (dec_lt r a) [
  | yes before ↦
      let past = row_past r a w before in elim fits [ inl h ↦ ground arith | inr h ↦ ground arith ]
  | no from ↦ elim (dec_lt a r) [
    | yes behind ↦
        let past = row_past a r w behind in
        elim fits [ inl h ↦ ground arith | inr h ↦ ground arith ]
    | no same ↦ let e : r ≡ a = omega arith in rw e (ground arith)
  ]
]

pub row_step :
    (colour : ℕ → Pixel) (px src n k : ℕ) (old : Pixel)
    → (if in_span (px + 1) n k
        then colour (src + 1 + (k - (px + 1)))
        else if px == k
        then colour src
        else old)
      ≡ (if in_span px (suc n) k then colour (src + (k - px)) else old)
row_step colour px src n k old = elim (dec_lt px k) [
  | yes past ↦
      let place : src + 1 + (k - (px + 1)) ≡ src + (k - px) = omega arith in rw place (ground arith)
  | no upto ↦
      let place : px ≡ k → colour src ≡ colour (src + (k - px)) = λ e. ap colour (omega arith) in
      ground (arith, place)
]

-- one row drawn, seen from column `c` of row `r`
pub row_seen :
    (colour : ℕ → Pixel) (x len w c a r src : ℕ) (old : Pixel)
    → c < w
    → (x + len ≤ w) ⊎ (len ≡ 0)
    → (if in_span (x + a * w) len (c + r * w)
        then colour (src + (c + r * w - (x + a * w)))
        else old)
      ≡ (if (r == a) && in_span x len c then colour (src + (c - x)) else old)
row_seen colour x len w c a r src old lt fits = elim (Bool-cases (r == a)) [
  | inl same ↦
      let e : r ≡ a = (==_iff r a).0 same in
      let place : c + r * w - (x + a * w) ≡ c - x = rw e (omega arith) in
      rw (row_test x len w c a r lt fits, place) refl
  | inr other ↦ rw (row_test x len w c a r lt fits, other) refl
]

pub rows_step :
    (colour : ℕ → Pixel) (inside : Bool) (y j n h w src r d : ℕ) (old : Pixel)
    → (if in_span (y + (j + 1)) n r && ltb r h && inside
        then colour (src + w + (r - (y + (j + 1))) * w + d)
        else if ltb (y + j) h && ((r == j + y) && inside)
        then colour (src + d)
        else old)
      ≡ (if in_span (y + j) (suc n) r && ltb r h && inside
          then colour (src + (r - (y + j)) * w + d)
          else old)
rows_step colour inside y j n h w src r d old = elim (dec_lt (y + j) r) [
  | yes past ↦
      let count : r - (y + j) ≡ suc (r - (y + (j + 1))) = omega arith in
      let place : src + w + (r - (y + (j + 1))) * w + d ≡ src + (r - (y + j)) * w + d =
        rw count (omega arith) in
      rw place (ground arith)
  | no upto ↦
      let here : r ≡ y + j → src + d ≡ src + (r - (y + j)) * w + d =
        λ e. let none_past : r - (y + j) ≡ 0 = omega arith in rw none_past (omega arith) in
      let seen : r ≡ y + j → colour (src + d) ≡ colour (src + (r - (y + j)) * w + d) =
        λ e. ap colour (here e) in
      elim (Bool-cases inside) [ inl e ↦ rw e (ground (arith, seen)) | inr e ↦ rw e (ground arith) ]
]

pub cut :
    (colour : ℕ → Pixel) (x len w y h c r display_h : ℕ) (old : Pixel)
    → in_span x len c ≡ in_span x w c
    → (if in_span (y + 0) h r && ltb r display_h && in_span x len c
        then colour (0 + (r - (y + 0)) * w + (c - x))
        else old)
      ≡ (if in_span x w c && in_span y h r && ltb r display_h
          then colour ((r - y) * w + (c - x))
          else old)
cut colour x len w y h c r display_h old e =
    let top : y + 0 ≡ y = omega arith in
    let place : 0 + (r - y) * w + (c - x) ≡ (r - y) * w + (c - x) = omega arith in
    rw (e, top, place)
      (elim (Bool-cases (in_span x w c)) [
        | inl h ↦ rw h (ground arith)
        | inr h ↦ rw h (ground arith)
      ])
