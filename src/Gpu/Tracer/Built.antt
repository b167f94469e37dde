-- ===== src/Gpu/Tracer/Built.antt =====
-- The tracer that the constructor gives, ready for its launches.
use pathological_v.Prelude.{ℕ, ◌≡◌, refl, List, [], some, arith, ℕ_discrete}
use pathological_v.Prelude.Run.{IsSafe, IsSafe-map}
use pathological_v.Gpu.Context.{RtProperties}
use pathological_v.Gpu.ShaderTable.{ShaderTable, IsSound, create_shader_binding_table}
use pathological_v.Gpu.ShaderTable.Layout.{
  IsSupported, IsTable, create_shader_binding_table-IsTable,
}
use pathological_v.Gpu.Calls.{Call, TracerDriver}
use pathological_v.Gpu.Validity.Tracking.{Tracks, continue-IsSafe, run-IsSafe, note-IsSafe}
use pathological_v.Gpu.Tracer.{PathTracer}
use pathological_v.Gpu.Tracer.Structures.{instance_of}
use pathological_v.Gpu.Tracer.Pipelines.{descriptor_writes, create_descriptor_sets}
use pathological_v.Gpu.Tracer.Images.{with_table, new_path_tracer}
use pathological_v.Gpu.Tracer.Setup.{Counts, IsSized, scene_state, scene_of}
use pathological_v.Gpu.Tracer.Creation.{
  Ends, image_state, tracer_with_image, create_output_image-Ends, top_state, tracer_with_structures,
  create_acceleration_structures-Ends,
}
use pathological_v.Gpu.Tracer.Descriptors.{
  ShaderCodes, pipeline_state, tracer_with_pipeline, PipelineEnds, create_ray_tracing_pipeline-Ends,
  table_state, set_state, whole_tracer, create_descriptor_sets-Ends,
}
use pathological_v.Gpu.Tracer.Launches.{IsReady, Shows}

set_state-IsReady :
    (d : TracerDriver) (n : Counts) (w h : ℕ) (m : ShaderCodes) (table : ShaderTable)
    → IsReady w h table (set_state d n w h m table)
unfolding descriptor_writes ℕ_discrete
set_state-IsReady d n w h m table = record {
  image = refl;
  can_bind = tt;
  can_bind_set = refl;
  can_push = λ pc. (refl, refl, refl);
  bindings = (refl, (refl, ((_, refl), ((_, refl), ((_, refl), ((_, refl), tt))))));
  target = refl;
  layout = refl;
  late = omega arith;
  reads = record {
    structure = 18;
    instance_buffer = 15;
    instance_ = instance_of 12;
    format = _;
    vertex_data = 0;
    max_vertex = _;
    index_data = 2;
    materials = 4;
    material_count = _;
    material_indices = 6;
    material_index_count = _;
    has_structure = refl;
    has_instances = refl;
    has_instance = refl;
    has_triangles = refl;
    reads_vertices = refl;
    reads_indices = refl;
    reads_materials = refl;
    are_materials = refl;
    reads_material_indices = refl;
    are_material_indices = refl;
    apart = λ e. omega (arith, e);
  };
  groups = (refl, refl, refl);
  tables = refl;
  unsaved = refl;
}

-- The tracer that the constructor gives: whole, with its shader binding table, and ready to launch.
abbrev pub IsBuilt :
    TracerDriver → (j k handle_size : ℕ) → Counts → (w h : ℕ) → PathTracer × List Call → Type 0
IsBuilt d j k hs n w h r =
    (table : ShaderTable) × (r.0 ≡ whole_tracer w h table)
    × IsTable d.tables j k hs 26 table
    × Shows (IsSized d n w h) w h table [] (r.1)

abbrev pub TableEnds :
    TracerDriver
    → (j k handle_size : ℕ) → Counts
    → (w h : ℕ) → ShaderCodes
    → PathTracer × List Call
    → Type 0
TableEnds d j k hs n w h m r =
    (table : ShaderTable) × IsTable d.tables j k hs 26 table
    × Ends (IsSized d n w h) (record (tracer_with_pipeline w h) { table = some table })
        (table_state d n w h m table) r

module _ (d : TracerDriver) (p : RtProperties) (j k : ℕ) (sound : IsSound d.tables)
    (supported : IsSupported j k p) where
  abbrev pub Built : Counts → (w h : ℕ) → PathTracer × List Call → Type 0
  Built = IsBuilt d j k p.shader_group_handle_size

  pub with_table-Ends :
      (n : Counts) (w h : ℕ) (m : ShaderCodes) (calls : List Call)
      → Tracks (IsSized d n w h) (pipeline_state d n w h m) calls
      → IsSafe
          (TableEnds d j k p.shader_group_handle_size n w h m)
          (with_table d p (tracer_with_pipeline w h) calls)
  unfolding ℕ_discrete
  with_table-Ends n w h m calls start =
      let end = TableEnds d j k p.shader_group_handle_size n w h m in
      run-IsSafe (IsTable d.tables j k p.shader_group_handle_size 26) end calls
        (create_shader_binding_table d.tables p (some 26)) _
        (create_shader_binding_table-IsTable d.tables p j k 26 sound supported)
        λ table is_table.
          note-IsSafe end _ calls _ _ start (λ z. tt) λ c1 h1. (table, is_table, (refl, h1))

  sets-Built :
      (n : Counts) (w h : ℕ) (m : ShaderCodes) (table : ShaderTable) (calls : List Call)
      → IsTable d.tables j k p.shader_group_handle_size 26 table
      → Tracks (IsSized d n w h) (table_state d n w h m table) calls
      → IsSafe (Built n w h) (
          create_descriptor_sets d
            (scene_of n)
            (record (tracer_with_pipeline w h) { table = some table })
            calls)
  unfolding descriptor_writes
  sets-Built n w h m table calls is_table start =
      IsSafe-map (Ends (IsSized d n w h) (whole_tracer w h table) (set_state d n w h m table))
        (Built n w h) _ (create_descriptor_sets-Ends d n w h m table calls start)
        λ r q. (
          table,
          q.0,
          is_table,
          (set_state d n w h m table, q.1, set_state-IsReady d n w h m table, refl),
        )

  pub new_path_tracer-Built :
      (n : Counts) (w h : ℕ) (calls : List Call)
      → Tracks (IsSized d n w h) (scene_state n) calls
      → IsSafe (Built n w h) (new_path_tracer d p (scene_of n) w h calls)
  unfolding new_path_tracer
  new_path_tracer-Built n w h calls start =
      continue-IsSafe (Ends (IsSized d n w h) (tracer_with_image w h) (image_state n w h))
        (Built n w h) _ _ (create_output_image-Ends d n w h calls start)
        λ t1 c1 q1. rw (q1.0) (
          continue-IsSafe (Ends (IsSized d n w h) (tracer_with_structures w h) (top_state d n w h))
            (Built n w h) _ _ (create_acceleration_structures-Ends d n w h c1 (q1.1))
            λ t2 c2 q2. rw (q2.0) (
              continue-IsSafe (PipelineEnds d n w h) (Built n w h) _ _
                (create_ray_tracing_pipeline-Ends d n w h c2 (q2.1))
                λ t3 c3 q3. rw (q3.1.0) (
                  continue-IsSafe (TableEnds d j k p.shader_group_handle_size n w h (q3.0))
                    (Built n w h) _ _ (with_table-Ends n w h (q3.0) c3 (q3.1.1))
                    λ t4 c4 q4. rw (q4.2.0) (sets-Built n w h (q3.0) (q4.0) c4 (q4.1) (q4.2.1)))))
