-- ===== src/Tests/Tracing.antt =====
-- The theorems on the tracing of a scene at a concrete scene and driver.
use pathological_v.Prelude.{ℕ, ◌+◌, ◌*◌, true, codes, some, List, [], ◌∷◌, arith}
use pathological_v.Prelude.Result.{ok}
use pathological_v.Prelude.Run.{IsSafe}
use pathological_v.Gpu.Calls.{TracerDriver, continue}
use pathological_v.Gpu.Validity.{fresh_gpu}
use pathological_v.Gpu.Validity.Steps.{AreValid}
use pathological_v.Gpu.Tracer.Repeated.{save_again-Invalid}
use pathological_v.Gpu.Tracer.Images.{save_image, trace_scene}
use pathological_v.Tests.Gpu.{handles, table_driver, table_driver-IsSound, handles-IsSupported}

-- Each call succeeds.
abbrev tracer_driver : TracerDriver
tracer_driver = record {
  answer = λ calls c. ok tt;
  build_sizes = λ geometry count. (256 + 64 * count, 128);
  tables = table_driver;
  writes_png = λ filename. true;
  read_file = λ path. some (3 ∷ 2 ∷ 35 ∷ 7 ∷ []);
  shader_directory = ok (codes "/opt/worker/shaders");
  radians = λ x. x;
  minus = λ a b. a;
  cross = λ a b. a;
  normalize = λ a. a;
}

-- One triangle, and its material.
abbrev three : List ℕ
three = 0 ∷ 1 ∷ 2 ∷ []

abbrev one_material : List ℕ
one_material = 0 ∷ []

save_again-Invalid_example :
    IsSafe
      (λ r. ¬ AreValid fresh_gpu (r.1))
      (continue
        (trace_scene tracer_driver handles three three one_material one_material 640 480 16 256
          (codes "out.png")
          [])
        (λ t. save_image tracer_driver t (codes "again.png")))
save_again-Invalid_example =
    save_again-Invalid tracer_driver handles 5 6 three three one_material one_material 640 480 16
      256 (codes "out.png") (codes "again.png") table_driver-IsSound handles-IsSupported
      (omega arith) (omega arith)
