-- ===== src/Machine/Gpu/Tests.antt =====
-- A rectangle that the right and the lower border of a display of 4 by 3 pixels cut; and one at a
-- negative position, whose pixel lands at the end of the row above.
use nju_os_workbench.Base.{ℕ, ◌+◌, ◌-◌, ◌*◌, ◌<◌, ◌≡◌, refl, ◌&&◌, ltb, if◌then◌else◌}
use nju_os_workbench.Base.Int.{ℤ, pos, negsuc}
unfoldable use nju_os_workbench.Base.Int.{◌+ℤ◌, ◌-ℤ◌, ◌*ℤ◌}
use nju_os_workbench.Machine.Gpu.{Frame, pixel_of}
unfoldable use nju_os_workbench.Machine.Gpu.{gpu_fbdraw, draw_rows, draw_row, put_pixel}
use nju_os_workbench.Machine.Gpu.Positions.{in_span}
use nju_os_workbench.Machine.Gpu.Drawing.{gpu_fbdraw-draws}

abbrev black : Frame
black k = pixel_of 0

abbrev white : ℤ → ℕ
white k = 0xffffff

gpu_fbdraw-draws_example :
    ((c r : ℕ)
      → c < 4
      → gpu_fbdraw 4 3 white (pos 2) (pos 1) (pos 5) (pos 5) black (pos (c + r * 4)) ≡ (
          if in_span 2 5 c && in_span 1 5 r && ltb r 3
          then pixel_of (white (pos ((r - 1) * 5 + (c - 2))))
          else pixel_of 0))
    × ((k : ℕ) → gpu_fbdraw 4 3 white (pos 2) (pos 1) (pos 5) (pos 5) black (negsuc k) ≡ pixel_of 0)
gpu_fbdraw-draws_example = gpu_fbdraw-draws 4 3 white 2 1 5 5 black

left_of_the_display :
    (gpu_fbdraw 4 3 white (negsuc 0) (pos 1) (pos 2) (pos 1) black (pos 3) ≡ pixel_of 0xffffff)
    × (gpu_fbdraw 4 3 white (negsuc 0) (pos 0) (pos 2) (pos 1) black (negsuc 0) ≡ pixel_of 0xffffff)
unfolding gpu_fbdraw draw_rows draw_row put_pixel ◌+ℤ◌ ◌-ℤ◌ ◌*ℤ◌
left_of_the_display = (refl, refl)
