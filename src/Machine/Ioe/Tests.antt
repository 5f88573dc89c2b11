-- ===== src/Machine/Ioe/Tests.antt =====
-- The register of the disk after the initialisation.
use nju_os_workbench.Base.{ℕ, ◌+◌, ◌≡◌, refl, not, arith}
use nju_os_workbench.Machine.Ioe.{ioe_access, lut}
unfoldable use nju_os_workbench.Machine.Ioe.{ioe_init, fill_lut}
use nju_os_workbench.Machine.Ioe.Devices.{ioe_access-served, is_call, is_panic, served}

ioe_access-served_example :
    (is_call (ioe_access (fill_lut 128 lut) 20) ≡ served (fill_lut 128 lut) 20)
    × (is_panic (ioe_access (fill_lut 128 lut) 20) ≡ not (served (fill_lut 128 lut) 20))
unfolding ioe_init
ioe_access-served_example =
    ioe_access-served {S = ℕ} (λ s. s) (λ s. s + 1) (λ s. s) 0 0 1 (fill_lut 128 lut) 20 refl
      (omega arith)
