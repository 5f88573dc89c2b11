-- ===== src/Machine/Gpu.antt =====
-- The frame buffer in abstract-machine/am/src/x86/qemu/ioe.c. Positions and sizes are the signed
-- integers of the source, without overflow; an address in the frame buffer or in the pixels that are
-- drawn is its distance from the first one, which may be negative.
mod Tests
pub mod Positions
pub mod Drawing
use nju_os_workbench.Base.Memory.{Mem}
use nju_os_workbench.Machine.Disk.{load32}
use nju_os_workbench.Base.{
  ℕ, zero, suc, ◌+◌, ◌-◌, ◌*◌, ◌/◌, ◌%◌, ◌^◌, ◌≤◌, ◌<◌, min, ◌≡◌, ◌≢◌, refl, sym, ap, ap₂, ◌∙◌,
  subst, fun_ext, ◌≡⟨◌⟩◌, ◌∎, ◌↔◌, ◌⊎◌, inl, inr, Bool, true, false, not, ◌&&◌, ◌||◌, Option, none,
  some, List, [], ◌∷◌, ◌++◌, map, append-nil, append_assoc, arith, ltb, leb, ◌==◌, if◌then◌else◌,
  tests, Bool-cases, Option-cases, ==_iff, length, length-append, get_elem?,
}
unfoldable use nju_os_workbench.Base.{dec_lt, dec_le, ℕ_discrete}
use nju_os_workbench.Base.Int.{ℤ, pos, negsuc, pos_part, ◌+ℤ◌, ◌-ℤ◌, ◌*ℤ◌, ltb_ℤ}

pub record Pixel : Type 0 where
  pub b : ℕ
  pub g : ℕ
  pub r : ℕ

abbrev pub Frame : Type 0
Frame = ℤ → Pixel

-- `R(p)`, `G(p)` and `B(p)`
abbrev pub pixel_of : ℕ → Pixel
pixel_of p = record { b = p % 2 ^ 8; g = p / 2 ^ 8 % 2 ^ 8; r = p / 2 ^ 16 % 2 ^ 8 }

abbrev pub eq_ℤ : ℤ → ℤ → Bool
eq_ℤ (pos m) (pos n) = m == n
eq_ℤ (negsuc m) (negsuc n) = m == n
eq_ℤ _ _ = false

unfoldable pub put_pixel : Frame → ℤ → Pixel → Frame
put_pixel fb at p k = if eq_ℤ at k then p else fb k

-- The dimensions are those that `gpu_init` reads.
module _ (display_w display_h : ℕ) (pixels : ℤ → ℕ) where
  -- the loop over `i`
  unfoldable pub draw_row : (rounds : ℕ) → (px src : ℤ) → Frame → Frame
  draw_row zero px src fb = fb
  draw_row (suc rounds) px src fb =
      draw_row rounds (px +ℤ pos 1) (src +ℤ pos 1) (put_pixel fb px (pixel_of (pixels src)))

  -- the loop over `j`; `src` is where `pixels` points
  unfoldable pub draw_rows : (rounds j : ℕ) → (x y w len src : ℤ) → Frame → Frame
  draw_rows zero j x y w len src fb = fb
  draw_rows (suc rounds) j x y w len src fb = draw_rows rounds (j + 1) x y w len (src +ℤ w) (
      if ltb_ℤ (y +ℤ pos j) (pos display_h)
      then draw_row (pos_part len) (x +ℤ (pos j +ℤ y) *ℤ pos display_w) src fb
      else fb)

  unfoldable pub gpu_fbdraw : (x y w h : ℤ) → Frame → Frame
  gpu_fbdraw x y w h fb =
      let len = if ltb_ℤ (x +ℤ w) (pos display_w) then w else pos display_w -ℤ x in
      draw_rows (pos_part h) 0 x y w len (pos 0) fb

-- `struct vbe_info` at address `p`, which is packed
pub record VbeInfo : Type 0 where
  pub width : ℕ
  pub height : ℕ
  pub framebuffer : ℕ

abbrev pub vbe_info : Mem → ℕ → VbeInfo
vbe_info m p = record {
  width = m (p + 18) + m (p + 19) * 256;
  height = m (p + 20) + m (p + 21) * 256;
  framebuffer = load32 m (p + 40);
}

-- the dimensions of the display and the address of the frame buffer
unfoldable pub gpu_init : Mem → VbeInfo
gpu_init m = vbe_info m 0x4000
