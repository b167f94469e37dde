-- ===== src/Gpu/Tracer/Creation.antt =====
-- The image and the acceleration structures that the constructor of a tracer creates: each call is valid.
use pathological_v.Prelude.{
  ℕ, ◌+◌, ◌*◌, ◌/◌, ◌<◌, ◌≤◌, ◌≡◌, refl, ap, inl, inr, u32, List, [], ◌∷◌, some, arith, ℕ_discrete,
}
use pathological_v.Prelude.Run.{IsSafe}
use pathological_v.Gpu.Calls.{
  r8g8b8a8_unorm, StructureType, bottom_level, top_level, image_view_info, structure_info, Geometry,
  instances, Call, create, upload_instance, submit, TracerDriver,
}
use pathological_v.Gpu.Validity.{GpuState}
use pathological_v.Gpu.Validity.Steps.{call_step}
use pathological_v.Gpu.Validity.Tracking.{Tracks, call-IsSafe, note-IsSafe, continue-IsSafe}
use pathological_v.Gpu.Tracer.{triangle_count, PathTracer, empty_tracer}
use pathological_v.Gpu.Tracer.Structures.{
  output_info, to_general, create_output_image, structure_buffer, scratch_buffer, build_command,
  create_structure, scene_geometry, instance_buffer_info, instance_of,
  create_acceleration_structures,
}
use pathological_v.Gpu.Tracer.Setup.{Counts, IsSized, scene_state, scene_of}

-- The value and the state that a run ends with; its calls are valid where `H` holds.
abbrev pub Ends : (H : Type 0) {A : Type 0} → A → GpuState → A × List Call → Type 0
Ends H a s p = (p.0 ≡ a) × Tracks H s (p.1)

abbrev pub image_state : Counts → (width height : ℕ) → GpuState
image_state n w h = call_step (submit (to_general 8 ∷ [])) (
    call_step (create (image_view_info 8 r8g8b8a8_unorm))
      (call_step (create (output_info w h)) (scene_state n)))

abbrev pub tracer_with_image : (width height : ℕ) → PathTracer
tracer_with_image w h = record (empty_tracer w h) {
  output_image = some 8;
  output_image_view = some 9;
}

pub create_output_image-Ends :
    (d : TracerDriver) (n : Counts) (w h : ℕ) (calls : List Call)
    → Tracks (IsSized d n w h) (scene_state n) calls
    → IsSafe
        (Ends (IsSized d n w h) (tracer_with_image w h) (image_state n w h))
        (create_output_image d (empty_tracer w h) calls)
unfolding create_output_image ℕ_discrete
create_output_image-Ends d n w h calls start =
    call-IsSafe _ d _ calls _ _ start (λ z. (refl, z.some_columns, z.some_rows))
      λ c1 h1.
        call-IsSafe _ d _ c1 _ _ h1 (λ z. refl)
          λ c2 h2. call-IsSafe _ d _ c2 _ _ h2 (λ z. ((tt, tt), tt)) λ c3 h3. (refl, h3)

-- The calls of one structure, the first of them number `k`.
abbrev pub structure_state :
    TracerDriver → (k : ℕ) → StructureType → Geometry → ℕ → GpuState → GpuState
structure_state d k type geometry primitives s =
    call_step (submit (build_command type geometry (k + 1) (k + 2) primitives ∷ [])) (
      call_step (create (scratch_buffer ((d.build_sizes geometry primitives).1))) (
        call_step (create (structure_info k ((d.build_sizes geometry primitives).0) type))
          (call_step (create (structure_buffer ((d.build_sizes geometry primitives).0))) s)))

abbrev pub bottom_state : TracerDriver → Counts → (width height : ℕ) → GpuState
bottom_state d n w h =
    structure_state d 11 bottom_level (scene_geometry (scene_of n)) (u32 (n.1) / 3)
      (image_state n w h)

abbrev pub instance_state : TracerDriver → Counts → (width height : ℕ) → GpuState
instance_state d n w h =
    call_step (upload_instance 15 (instance_of 12))
      (call_step (create instance_buffer_info) (bottom_state d n w h))

abbrev pub top_state : TracerDriver → Counts → (width height : ℕ) → GpuState
top_state d n w h = structure_state d 17 top_level (instances 15) 1 (instance_state d n w h)

abbrev pub tracer_with_structures : (width height : ℕ) → PathTracer
tracer_with_structures w h = record (tracer_with_image w h) {
  blas_buffer = some 11;
  blas = some 12;
  instance_buffer = some 15;
  tlas_buffer = some 17;
  tlas = some 18;
}

last_vertex : (n : ℕ) → 0 < n → n < 4294967296 → n ≡ u32 (u32 n + 4294967295) + 1
last_vertex n present few = omega arith

whole_triangles : (n : ℕ) → n < 4294967296 → u32 n / 3 * 3 ≤ n
whole_triangles n few = omega arith

bottom-Ends :
    (d : TracerDriver) (n : Counts) (w h : ℕ) (calls : List Call)
    → Tracks (IsSized d n w h) (image_state n w h) calls
    → IsSafe
        (Ends (IsSized d n w h) (11, 12) (bottom_state d n w h))
        (create_structure d bottom_level (scene_geometry (scene_of n)) (u32 (n.1) / 3) calls)
unfolding create_structure ℕ_discrete
bottom-Ends d n w h calls start =
    call-IsSafe _ d _ calls _ _ start (λ z. (z.sizes _ _).0)
      λ c1 h1.
        call-IsSafe _ d _ c1 _ _ h1 (λ z. (inl refl, omega arith))
          λ c2 h2.
            call-IsSafe _ d _ c2 _ _ h2 (λ z. (z.sizes _ _).1)
              λ c3 h3.
                call-IsSafe _ d _ c3 _ _ h3
                  (λ z. (
                    (
                      refl,
                      inl refl,
                      (
                        refl,
                        omega arith,
                        inr (inr (inl refl)),
                        inr (inr (inl refl)),
                        ap (λ (m : ℕ). some (16, m))
                            (last_vertex (n.0) z.some_vertices z.few_vertices),
                        (n.1, refl, whole_triangles (n.1) z.few_indices),
                      ),
                    ),
                    tt,
                  ))
                  λ c4 h4. (refl, h4)

top-Ends :
    (d : TracerDriver) (n : Counts) (w h : ℕ) (calls : List Call)
    → Tracks (IsSized d n w h) (instance_state d n w h) calls
    → IsSafe
        (Ends (IsSized d n w h) (17, 18) (top_state d n w h))
        (create_structure d top_level (instances 15) 1 calls)
unfolding create_structure ℕ_discrete
top-Ends d n w h calls start =
    call-IsSafe _ d _ calls _ _ start (λ z. (z.sizes _ _).0)
      λ c1 h1.
        call-IsSafe _ d _ c1 _ _ h1 (λ z. (inl refl, omega arith))
          λ c2 h2.
            call-IsSafe _ d _ c2 _ _ h2 (λ z. (z.sizes _ _).1)
              λ c3 h3.
                call-IsSafe _ d _ c3 _ _ h3 (λ z. ((refl, inl refl, (refl, inl refl, refl)), tt))
                  λ c4 h4. (refl, h4)

pub create_acceleration_structures-Ends :
    (d : TracerDriver) (n : Counts) (w h : ℕ) (calls : List Call)
    → Tracks (IsSized d n w h) (image_state n w h) calls
    → IsSafe
        (Ends (IsSized d n w h) (tracer_with_structures w h) (top_state d n w h))
        (create_acceleration_structures d (scene_of n) (tracer_with_image w h) calls)
unfolding create_acceleration_structures triangle_count ℕ_discrete
create_acceleration_structures-Ends d n w h calls start =
    let end = Ends (IsSized d n w h) (tracer_with_structures w h) (top_state d n w h) in
    continue-IsSafe (Ends (IsSized d n w h) (11, 12) (bottom_state d n w h)) end _ _
      (bottom-Ends d n w h calls start)
      λ bottom c1 q1. rw (q1.0) (
        call-IsSafe end d _ c1 _ _ (q1.1) (λ z. omega arith)
          λ c2 h2.
            note-IsSafe end _ c2 _ _ h2 (λ z. (refl, omega arith))
              λ c3 h3.
                continue-IsSafe (Ends (IsSized d n w h) (17, 18) (top_state d n w h)) end _ _
                  (top-Ends d n w h c3 h3) λ top c4 q4. rw (q4.0) (refl, q4.1))
