-- ===== src/Gpu/Tracer/Setup.antt =====
-- The buffers of a scene and the objects of a tracer, with the state of the GPU after them.
use pathological_v.Prelude.{ℕ, ◌*◌, ◌<◌, ◌≡◌, refl, u32, List, [], ◌∷◌, length, arith, ℕ_discrete}
use pathological_v.Prelude.Run.{IsSafe}
use pathological_v.Gpu.ShaderTable.{u64}
use pathological_v.Gpu.Calls.{
  BufferUsage, vertex_buffer, index_buffer, storage_buffer, shader_device_address,
  acceleration_structure_build_input_read_only, cpu_to_gpu, buffer_info, Call, create, upload,
  Geometry, TracerDriver, Calling, continue,
}
use pathological_v.Gpu.Validity.{GpuState, fresh_gpu}
use pathological_v.Gpu.Validity.Steps.{call_step, CanCall}
use pathological_v.Gpu.Validity.Tracking.{Tracks, call-IsSafe, note-IsSafe, continue-IsSafe}
use pathological_v.Gpu.Tracer.{Scene, uploaded_buffer, new_scene}

abbrev uploaded_state : (size count : ℕ) → List BufferUsage → GpuState → GpuState
uploaded_state size count usage s =
    call_step (upload s.next size count)
      (call_step (create (buffer_info (u64 (size * count)) usage cpu_to_gpu)) s)

uploaded_buffer-IsSafe :
    {B H : Type 0} (P : B × List Call → Type 0) (d : TracerDriver) (s : GpuState)
    (calls : List Call) (size count : ℕ) (usage : List BufferUsage) (f : ℕ → Calling B)
    → Tracks H s calls
    → (H → 0 < u64 (size * count))
    → (H
        → CanCall
            (call_step (create (buffer_info (u64 (size * count)) usage cpu_to_gpu)) s)
            (upload s.next size count))
    → ((calls' : List Call)
        → Tracks H (uploaded_state size count usage s) calls'
        → IsSafe P (f s.next calls'))
    → IsSafe P (continue (uploaded_buffer d size count usage calls) f)
unfolding uploaded_buffer
uploaded_buffer-IsSafe {H = H} P d s calls size count usage f h positive can next =
    let n = u64 (size * count) in
    let buffer = buffer_info n usage cpu_to_gpu in
    continue-IsSafe (λ p. (p.0 ≡ s.next) × Tracks H (uploaded_state size count usage s) (p.1)) P _ f
      (call-IsSafe _ d s calls (create buffer) _ h positive λ calls1 h1.
        note-IsSafe _ _ calls1 (upload s.next size count) _ h1 can λ calls2 h2. (refl, h2))
      (λ a calls' q. rw (q.0) (next calls' (q.1)))

abbrev pub vertex_usage : List BufferUsage
vertex_usage =
    vertex_buffer ∷ shader_device_address ∷ acceleration_structure_build_input_read_only
    ∷ storage_buffer ∷ []

abbrev pub index_usage : List BufferUsage
index_usage =
    index_buffer ∷ shader_device_address ∷ acceleration_structure_build_input_read_only
    ∷ storage_buffer ∷ []

abbrev pub material_usage : List BufferUsage
material_usage = storage_buffer ∷ shader_device_address ∷ []

-- The numbers of vertices, indices, materials and material indices.
abbrev pub Counts : Type 0
Counts = ℕ × ℕ × ℕ × ℕ

abbrev pub scene_state : Counts → GpuState
scene_state n = uploaded_state 4 (n.3) material_usage (
    uploaded_state 32 (n.2) material_usage
      (uploaded_state 4 (n.1) index_usage (uploaded_state 16 (n.0) vertex_usage fresh_gpu)))

abbrev pub scene_of : Counts → Scene
scene_of n = record {
  vertex_buffer_of = 0;
  index_buffer_of = 2;
  material_buffer_of = 4;
  material_index_buffer_of = 6;
  vertex_count = u32 (n.0);
  index_count = u32 (n.1);
}

-- Each array of the scene has elements, and fewer than 2^32; the image has pixels, and the driver gives
-- a size to each structure and its scratch memory.
pub record IsSized (d : TracerDriver) (n : Counts) (w h : ℕ) : Type 0 where
  pub some_vertices : 0 < n.0
  pub some_indices : 0 < n.1
  pub some_materials : 0 < n.2
  pub some_material_indices : 0 < n.3
  pub few_vertices : n.0 < 4294967296
  pub few_indices : n.1 < 4294967296
  pub few_materials : n.2 < 4294967296
  pub few_material_indices : n.3 < 4294967296
  pub some_columns : 0 < w
  pub some_rows : 0 < h
  pub sizes : (g : Geometry) (c : ℕ) → (0 < (d.build_sizes g c).0) × (0 < (d.build_sizes g c).1)

fresh-Tracks : (H : Type 0) → Tracks H fresh_gpu []
fresh-Tracks H = record { valid = λ z. tt; reached = refl; counted = refl }

pub new_scene-Tracks :
    {V M : Type 0} (d : TracerDriver) (vs : List V) (is : List ℕ) (ms : List M) (mis : List ℕ)
    (w h : ℕ)
    → IsSafe
        (λ p.
          (p.0 ≡ scene_of (length vs, length is, length ms, length mis))
          × Tracks
              (IsSized d (length vs, length is, length ms, length mis) w h)
              (scene_state (length vs, length is, length ms, length mis))
              (p.1))
        (new_scene d vs is ms mis [])
unfolding new_scene ℕ_discrete
new_scene-Tracks d vs is ms mis w h =
    let n : Counts = (length vs, length is, length ms, length mis) in
    uploaded_buffer-IsSafe _ d fresh_gpu [] 16 (length vs) vertex_usage _
      (fresh-Tracks (IsSized d n w h)) (λ z. omega (arith, z.some_vertices, z.few_vertices))
      (λ z. (refl, omega (arith, z.few_vertices)))
      λ c1 h1.
        uploaded_buffer-IsSafe _ d _ c1 4 (length is) index_usage _ h1
          (λ z. omega (arith, z.some_indices, z.few_indices))
          (λ z. (refl, omega (arith, z.few_indices)))
          λ c2 h2.
            uploaded_buffer-IsSafe _ d _ c2 32 (length ms) material_usage _ h2
              (λ z. omega (arith, z.some_materials, z.few_materials))
              (λ z. (refl, omega (arith, z.few_materials)))
              λ c3 h3.
                uploaded_buffer-IsSafe _ d _ c3 4 (length mis) material_usage _ h3
                  (λ z. omega (arith, z.some_material_indices, z.few_material_indices))
                  (λ z. (refl, omega (arith, z.few_material_indices))) λ c4 h4. (refl, h4)
