-- ===== src/Gpu/Tracer/Descriptors.antt =====
-- The pipeline and the descriptor set that the constructor of a tracer creates: each call is valid.
use pathological_v.Prelude.{ℕ, refl, inl, inr, Bytes, List, Option, none, some, arith, ℕ_discrete}
use pathological_v.Prelude.Run.{IsSafe, IsSafe-of_result, of_result}
use pathological_v.Gpu.ShaderTable.{ShaderTable}
use pathological_v.Gpu.Calls.{
  raygen, shader_module_info, descriptor_set_layout_info, pipeline_layout_info,
  descriptor_pool_info, descriptor_set_info, Call, create, fill_table, update_descriptor_sets,
  TracerDriver, Calling, continue,
}
use pathological_v.Gpu.Validity.{GpuState}
use pathological_v.Gpu.Validity.Steps.{call_step}
use pathological_v.Gpu.Validity.Tracking.{Tracks, call-IsSafe, note-IsSafe, run-IsSafe}
use pathological_v.Gpu.Tracer.{PathTracer}
use pathological_v.Gpu.Tracer.Pipelines.{
  opened, load_shader, layout_bindings, push_constants_size, ray_pipeline_info,
  create_ray_tracing_pipeline, pool_sizes, descriptor_writes, create_descriptor_sets,
}
use pathological_v.Gpu.Tracer.Setup.{Counts, IsSized, scene_of}
use pathological_v.Gpu.Tracer.Creation.{Ends, top_state, tracer_with_structures}

opened-IsSafe :
    {B : Type 0} (P : B × List Call → Type 0) (calls : List Call) (name : Bytes) (o : Option Bytes)
    (f : Bytes → Calling B)
    → ((code : Bytes) → IsSafe P (f code calls))
    → IsSafe P (continue (opened name o calls) f)
opened-IsSafe P calls name none f next = tt
opened-IsSafe P calls name (some code) f next = next code

load_shader-IsSafe :
    {B : Type 0} (P : B × List Call → Type 0) (d : TracerDriver) (calls : List Call) (name : Bytes)
    (f : Bytes → Calling B)
    → ((code : Bytes) → IsSafe P (f code calls))
    → IsSafe P (continue (load_shader d name calls) f)
unfolding load_shader
load_shader-IsSafe P d calls name f next = opened-IsSafe P calls name (d.read_file name) f next

-- The codes of the three shaders.
abbrev pub ShaderCodes : Type 0
ShaderCodes = Bytes × Bytes × Bytes

abbrev pub pipeline_state : TracerDriver → Counts → (width height : ℕ) → ShaderCodes → GpuState
pipeline_state d n w h m = call_step (create (ray_pipeline_info 21 22 23 25)) (
    call_step (create (pipeline_layout_info 24 raygen 0 push_constants_size)) (
      call_step (create (descriptor_set_layout_info layout_bindings)) (
        call_step (create (shader_module_info (m.2))) (
          call_step (create (shader_module_info (m.1)))
            (call_step (create (shader_module_info (m.0))) (top_state d n w h))))))

abbrev pub tracer_with_pipeline : (width height : ℕ) → PathTracer
tracer_with_pipeline w h = record (tracer_with_structures w h) {
  descriptor_set_layout = some 24;
  pipeline_layout = some 25;
  pipeline = some 26;
}

abbrev pub PipelineEnds :
    TracerDriver → Counts → (width height : ℕ) → PathTracer × List Call → Type 0
PipelineEnds d n w h p =
    (m : ShaderCodes) × Ends (IsSized d n w h) (tracer_with_pipeline w h) (pipeline_state d n w h m)
      p

pub create_ray_tracing_pipeline-Ends :
    (d : TracerDriver) (n : Counts) (w h : ℕ) (calls : List Call)
    → Tracks (IsSized d n w h) (top_state d n w h) calls
    → IsSafe
        (PipelineEnds d n w h)
        (create_ray_tracing_pipeline d (tracer_with_structures w h) calls)
unfolding create_ray_tracing_pipeline ℕ_discrete
create_ray_tracing_pipeline-Ends d n w h calls start =
    let end = PipelineEnds d n w h in
    run-IsSafe _ end calls (of_result d.shader_directory) _ (IsSafe-of_result d.shader_directory)
      λ directory got. load_shader-IsSafe end d calls _ _ λ m0.
        load_shader-IsSafe end d calls _ _ λ m1. load_shader-IsSafe end d calls _ _ λ m2.
          call-IsSafe end d _ calls _ _ start (λ z. tt)
            λ c1 h1.
              call-IsSafe end d _ c1 _ _ h1 (λ z. tt)
                λ c2 h2.
                  call-IsSafe end d _ c2 _ _ h2 (λ z. tt)
                    λ c3 h3.
                      call-IsSafe end d _ c3 _ _ h3 (λ z. tt)
                        λ c4 h4.
                          call-IsSafe end d _ c4 _ _ h4 (λ z. tt)
                            λ c5 h5.
                              call-IsSafe end d _ c5 _ _ h5
                                (λ z.
                                  ((tt, (tt, (tt, tt))), (inl refl, (inr refl, (refl, tt))), tt))
                                λ c6 h6. ((m0, m1, m2), (refl, h6))

abbrev pub table_state :
    TracerDriver → Counts → (width height : ℕ) → ShaderCodes → ShaderTable → GpuState
table_state d n w h m table = call_step (fill_table 26 table) (pipeline_state d n w h m)

abbrev pub set_state :
    TracerDriver → Counts → (width height : ℕ) → ShaderCodes → ShaderTable → GpuState
set_state d n w h m table =
    call_step (update_descriptor_sets (descriptor_writes (scene_of n) 29 18 9)) (
      call_step (create (descriptor_set_info 28 24))
        (call_step (create (descriptor_pool_info 1 pool_sizes)) (table_state d n w h m table)))

abbrev pub whole_tracer : (width height : ℕ) → ShaderTable → PathTracer
whole_tracer w h table = record (tracer_with_pipeline w h) {
  table = some table;
  descriptor_pool = some 28;
  descriptor_set = some 29;
}

pub create_descriptor_sets-Ends :
    (d : TracerDriver) (n : Counts) (w h : ℕ) (m : ShaderCodes) (table : ShaderTable)
    (calls : List Call)
    → Tracks (IsSized d n w h) (table_state d n w h m table) calls
    → IsSafe (Ends (IsSized d n w h) (whole_tracer w h table) (set_state d n w h m table)) (
        create_descriptor_sets d
          (scene_of n)
          (record (tracer_with_pipeline w h) { table = some table })
          calls)
unfolding create_descriptor_sets descriptor_writes ℕ_discrete
create_descriptor_sets-Ends d n w h m table calls start =
    call-IsSafe _ d _ calls _ _ start (λ z. tt)
      λ c1 h1.
        call-IsSafe _ d _ c1 _ _ h1 (λ z. (omega arith, (omega arith, omega arith, omega arith)))
          λ c2 h2.
            note-IsSafe _ _ c2 _ _ h2
              (λ z. (
                (inl (refl, refl, refl), refl),
                (
                  (inr (inl (refl, refl, refl)), (refl, inl refl)),
                  (
                    (inr (inr (inl (refl, refl, refl))), inr (inr (inr (inl refl)))),
                    (
                      (inr (inr (inr (inl (refl, refl, refl)))), inr (inr (inr (inl refl)))),
                      (
                        (inr (inr (inr (inr (inl (refl, refl, refl))))), inl refl),
                        ((inr (inr (inr (inr (inr (inl (refl, refl, refl)))))), inl refl), tt),
                      ),
                    ),
                  ),
                ),
              ))
              λ c3 h3. (refl, h3)
