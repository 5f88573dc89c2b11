-- ===== src/Machine/Gpu/Drawing.antt =====
-- `gpu_fbdraw` of abstract-machine/am/src/x86/qemu/ioe.c draws the part of a rectangle that is on the display.
use nju_os_workbench.Machine.Gpu.Positions.{
  pos-add, pos-mul, in_span, row_step, row_seen, rows_step, cut,
}
use nju_os_workbench.Base.{
  ℕ, zero, suc, ◌+◌, ◌-◌, ◌*◌, ◌≤◌, ◌<◌, ◌≡◌, refl, ap, ◌∙◌, ◌⊎◌, inl, inr, true, false, ◌&&◌,
  arith, ltb, ◌==◌, if◌then◌else◌, Bool-cases,
}
unfoldable use nju_os_workbench.Base.{dec_lt}
use nju_os_workbench.Base.Int.{ℤ, pos, negsuc, pos_part, ltb_ℤ}
unfoldable use nju_os_workbench.Base.Int.{◌+ℤ◌, ◌-ℤ◌}
use nju_os_workbench.Machine.Gpu.{Pixel, Frame, pixel_of}
unfoldable use nju_os_workbench.Machine.Gpu.{put_pixel, draw_row, draw_rows, gpu_fbdraw}

module _ (display_w display_h : ℕ) (pixels : ℤ → ℕ) where
  draw_row_pixels :
      (n px src : ℕ) (fb : Frame) (k : ℕ)
      → draw_row display_w display_h pixels n (pos px) (pos src) fb (pos k)
        ≡ (if in_span px n k then pixel_of (pixels (pos (src + (k - px)))) else fb (pos k))
  unfolding draw_row put_pixel
  draw_row_pixels zero px src fb k = ground arith
  draw_row_pixels (suc n) px src fb k =
      rw (pos-add px 1, pos-add src 1)
        (draw_row_pixels n (px + 1) (src + 1) (put_pixel fb (pos px) (pixel_of (pixels (pos src))))
            k
          ∙ row_step (λ (i : ℕ). pixel_of (pixels (pos i))) px src n k (fb (pos k)))

  abbrev row_drawn : (j x y : ℕ) → ℤ → (src : ℕ) → Frame → Frame
  row_drawn j x y len src fb =
      if ltb_ℤ (pos (y + j)) (pos display_h)
      then draw_row display_w display_h pixels (pos_part len) (pos (x + (j + y) * display_w))
          (pos src) fb
      else fb

  row_drawn_pixels :
      (j x y : ℕ) (len : ℤ) (src : ℕ) (fb : Frame) (c r : ℕ)
      → c < display_w
      → (x + pos_part len ≤ display_w) ⊎ (pos_part len ≡ 0)
      → row_drawn j x y len src fb (pos (c + r * display_w)) ≡ (
          if ltb (y + j) display_h && ((r == j + y) && in_span x (pos_part len) c)
          then pixel_of (pixels (pos (src + (c - x))))
          else fb (pos (c + r * display_w)))
  row_drawn_pixels j x y len src fb c r lt fits = elim (dec_lt (y + j) display_h) [
    | yes on ↦
        let test : ltb (y + j + 0) (display_h + 0) ≡ true = ground arith in
        let test' : ltb (y + j) display_h ≡ true = ground arith in
        rw (test, test')
          (draw_row_pixels (pos_part len) (x + (j + y) * display_w) src fb (c + r * display_w)
            ∙ row_seen (λ (i : ℕ). pixel_of (pixels (pos i))) x (pos_part len) display_w c (j + y) r
                src (fb (pos (c + r * display_w))) lt fits)
    | no off ↦
        let test : ltb (y + j + 0) (display_h + 0) ≡ false = ground arith in
        let test' : ltb (y + j) display_h ≡ false = ground arith in rw (test, test') refl
  ]

  draw_rows_pixels :
      (n j x y w : ℕ) (len : ℤ) (src : ℕ) (fb : Frame) (c r : ℕ)
      → c < display_w
      → (x + pos_part len ≤ display_w) ⊎ (pos_part len ≡ 0)
      → draw_rows display_w display_h pixels n j
          (pos x)
          (pos y)
          (pos w)
          len
          (pos src)
          fb
          (pos (c + r * display_w))
        ≡ (if in_span (y + j) n r && ltb r display_h && in_span x (pos_part len) c
            then pixel_of (pixels (pos (src + (r - (y + j)) * w + (c - x))))
            else fb (pos (c + r * display_w)))
  unfolding draw_rows
  draw_rows_pixels zero j x y w len src fb c r lt fits = ground arith
  draw_rows_pixels (suc n) j x y w len src fb c r lt fits =
      rw
        (
          pos-add y j,
          pos-add j y,
          pos-mul (j + y) display_w,
          pos-add x ((j + y) * display_w),
          pos-add src w,
        )
        (draw_rows_pixels n (j + 1) x y w len (src + w) (row_drawn j x y len src fb) c r lt fits
          ∙ ap
              (λ (old : Pixel).
                if in_span (y + (j + 1)) n r && ltb r display_h && in_span x (pos_part len) c
                then pixel_of (pixels (pos (src + w + (r - (y + (j + 1))) * w + (c - x))))
                else old)
              (row_drawn_pixels j x y len src fb c r lt fits)
          ∙ rows_step (λ (i : ℕ). pixel_of (pixels (pos i))) (in_span x (pos_part len) c) y j n
              display_h w src r (c - x) (fb (pos (c + r * display_w))))

  len_of :
      (x w : ℕ)
      → (pos_part (if ltb_ℤ (pos x +ℤ pos w) (pos display_w) then pos w else pos display_w -ℤ pos x)
            ≡ w)
          × (x + w < display_w)
        ⊎ (pos_part
              (if ltb_ℤ (pos x +ℤ pos w) (pos display_w) then pos w else pos display_w -ℤ pos x)
            ≡ display_w - x)
          × (display_w ≤ x + w)
  unfolding ◌-ℤ◌
  len_of x w = elim (dec_lt (x + w) display_w) [
    | yes fits ↦ inl (rw (pos-add x w) (ground arith), fits)
    | no over ↦ inr (rw (pos-add x w) (ground arith), omega arith)
  ]

  draw_row_before :
      (n px src : ℕ) (fb : Frame) (k : ℕ)
      → draw_row display_w display_h pixels n (pos px) (pos src) fb (negsuc k) ≡ fb (negsuc k)
  unfolding draw_row put_pixel
  draw_row_before zero px src fb k = refl
  draw_row_before (suc n) px src fb k =
      rw (pos-add px 1, pos-add src 1) (draw_row_before n (px + 1) (src + 1) _ k)

  draw_rows_before :
      (n j x y w : ℕ) (len : ℤ) (src : ℕ) (fb : Frame) (k : ℕ)
      → draw_rows display_w display_h pixels n j (pos x) (pos y) (pos w) len (pos src) fb (negsuc k)
        ≡ fb (negsuc k)
  unfolding draw_rows
  draw_rows_before zero j x y w len src fb k = refl
  draw_rows_before (suc n) j x y w len src fb k =
      rw
        (
          pos-add y j,
          pos-add j y,
          pos-mul (j + y) display_w,
          pos-add x ((j + y) * display_w),
          pos-add src w,
        )
        (draw_rows_before n (j + 1) x y w len (src + w) (row_drawn j x y len src fb) k
          ∙ elim (Bool-cases (ltb (y + j + 0) (display_h + 0))) [
            | inl on ↦ rw on (draw_row_before (pos_part len) (x + (j + y) * display_w) src fb k)
            | inr off ↦ rw off refl
          ])

  -- A rectangle at a position that is not negative: a pixel of the display that lies in it gets the
  -- colour at its place in `pixels`, and all else in the memory, before, in and behind the frame
  -- buffer, keeps its value. (`c + r * display_w` with `c` below `display_w` is any address.)
  pub gpu_fbdraw-draws :
      (x y w h : ℕ) (fb : Frame)
      → ((c r : ℕ)
          → c < display_w
          → gpu_fbdraw display_w display_h pixels
              (pos x)
              (pos y)
              (pos w)
              (pos h)
              fb
              (pos (c + r * display_w))
            ≡ (if in_span x w c && in_span y h r && ltb r display_h
                then pixel_of (pixels (pos ((r - y) * w + (c - x))))
                else fb (pos (c + r * display_w))))
        × ((k : ℕ)
            → gpu_fbdraw display_w display_h pixels (pos x) (pos y) (pos w) (pos h) fb (negsuc k)
              ≡ fb (negsuc k))
  unfolding gpu_fbdraw
  gpu_fbdraw-draws x y w h fb =
      let len : ℤ =
        if ltb_ℤ (pos x +ℤ pos w) (pos display_w) then pos w else pos display_w -ℤ pos x in
      (
        λ c r lt.
            let fits : (x + pos_part len ≤ display_w) ⊎ (pos_part len ≡ 0) = elim (len_of x w) [
              | inl (e, within) ↦ inl (rw e (omega arith))
              | inr (e, over) ↦ elim (dec_lt display_w x) [
                | yes off ↦ inr (e ∙ omega arith)
                | no on ↦ inl (rw e (omega arith))
              ]
            ] in
            draw_rows_pixels h 0 x y w len 0 fb c r lt fits
            ∙ cut (λ (i : ℕ). pixel_of (pixels (pos i))) x (pos_part len) w y h c r display_h
                (fb (pos (c + r * display_w)))
                (elim (len_of x w) [
                  | inl (e, within) ↦ rw e refl
                  | inr (e, over) ↦ rw e (ground arith)
                ]),
        λ k. draw_rows_before h 0 x y w len 0 fb k,
      )
