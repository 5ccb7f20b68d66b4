-- ===== src/Contention/Examples.antt =====
-- A box with an idle renderer, with stall figures in thousandths of a percent.
use tflw_tests.Prelude.{
  ℕ, ◌≡◌, refl, ◌↔◌, Bool, true, false, none, some, [], ◌∷◌, leb, codes, text_eq,
}
use tflw_tests.Contention.{Tenant, gpu_render, reading, read_box}
use tflw_tests.Contention.Clear.{IsClear, read_box-IsClear}

abbrev renderer : Tenant
renderer = record {
  id = codes "r";
  label = none;
  class = gpu_render;
  running = true;
  queue_running = 0;
  queue_pending = 0;
}

abbrev above_one : ℕ → Bool
above_one thousandths = leb 1000 thousandths

idle_renderer : read_box ℕ above_one false (reading (renderer ∷ [])) (reading (some 20)) ≡ []
unfolding read_box text_eq
idle_renderer = refl

read_box-IsClear_example :
    (read_box ℕ above_one false (reading (renderer ∷ [])) (reading (some 20)) ≡ [])
    ↔ IsClear ℕ above_one (reading (renderer ∷ [])) (reading (some 20))
read_box-IsClear_example =
    read_box-IsClear ℕ above_one (reading (renderer ∷ [])) (reading (some 20))
