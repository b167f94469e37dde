-- ===== src/Gpu/Tracer/Returning.antt =====
-- No step of the tracing of a scene throws by itself: where nothing outside refuses, it returns.
use pathological_v.Prelude.{
  ℕ, zero, suc, ◌+◌, ◌*◌, ◌<◌, ◌≡◌, Bytes, List, [], ◌∷◌, length, some, arith, u32, Bool, true,
  false, if◌then◌else◌,
}
use pathological_v.Prelude.Result.{ok}
use pathological_v.Prelude.Run.{Run, ◌>>=◌, done, throws, faults, out_of_fuel, IsSafe, Returns}
use pathological_v.Tiles.{Tile}
use pathological_v.Gpu.Context.{RtProperties}
use pathological_v.Gpu.ShaderTable.{
  Memory, memcpy, ShaderTable, copy_handles, table_of, create_shader_binding_table,
}
use pathological_v.Gpu.Calls.{
  BufferUsage, StructureType, Geometry, Call, TracerDriver, Calling, continue, call, note, run,
}
use pathological_v.Gpu.Tracer.{Scene, PathTracer, uploaded_buffer, new_scene}
use pathological_v.Gpu.Tracer.Structures.{
  create_output_image, create_structure, create_acceleration_structures,
}
use pathological_v.Gpu.Tracer.Descriptors.{tracer_with_pipeline, whole_tracer}
use pathological_v.Gpu.Tracer.Pipelines.{
  load_shader, create_ray_tracing_pipeline, create_descriptor_sets,
}
use pathological_v.Gpu.Tracer.Images.{with_table, launch_tile, launch_tiles, save_image}

-- Nothing outside refuses: each call succeeds, the shaders' files are there, stb writes files, and
-- the buffer of a table of less than 2^32 bytes can be made.
pub record Accepts (d : TracerDriver) : Type 0 where
  pub answers : (calls : List Call) (c : Call) → d.answer calls c ≡ ok tt
  pub directory : (path : Bytes) × (d.shader_directory ≡ ok path)
  pub files : (name : Bytes) → (code : Bytes) × (d.read_file name ≡ some code)
  pub handles :
      (pipeline first count n : ℕ)
      → (m : Memory) × (d.tables.get_handles pipeline first count n ≡ ok m)
  pub writes : (name : Bytes) → d.writes_png name ≡ true
  pub buffers : (n : ℕ) → n < 4294967296 → (b : ℕ × Memory) × (d.tables.create_buffer n ≡ ok b)

abbrev pub NotThrown : {A : Type 0} → Run A → Type 0
NotThrown (throws e) = ⊥
NotThrown (done a) = Unit
NotThrown faults = Unit
NotThrown out_of_fuel = Unit

pub Returns-NotThrown :
    {A : Type 0} (P : A → Type 0) (m : Run A) → IsSafe P m → NotThrown m → Returns P m
Returns-NotThrown P (done a) safe fine = safe
Returns-NotThrown P (throws e) safe fine = fine
Returns-NotThrown P faults safe fine = safe
Returns-NotThrown P out_of_fuel safe fine = safe

pub NotThrown-continue :
    {A B : Type 0} (m : Run (A × List Call)) (f : A → Calling B)
    → NotThrown m
    → ((a : A) (calls : List Call) → NotThrown (f a calls))
    → NotThrown (continue m f)
NotThrown-continue (done p) f fine next = next (p.0) (p.1)
NotThrown-continue (throws e) f fine next = fine
NotThrown-continue faults f fine next = tt
NotThrown-continue out_of_fuel f fine next = tt

NotThrown-run : {A : Type 0} (m : Run A) (calls : List Call) → NotThrown m → NotThrown (run m calls)
NotThrown-run (done a) calls fine = tt
NotThrown-run (throws e) calls fine = fine
NotThrown-run faults calls fine = tt
NotThrown-run out_of_fuel calls fine = tt

NotThrown-bind :
    {A B : Type 0} (m : Run A) (f : A → Run B)
    → NotThrown m
    → ((a : A) → NotThrown (f a))
    → NotThrown (m >>= f)
NotThrown-bind (done a) f fine next = next a
NotThrown-bind (throws e) f fine next = fine
NotThrown-bind faults f fine next = tt
NotThrown-bind out_of_fuel f fine next = tt

-- What follows may use what the value satisfies.
pub NotThrown-then :
    {A B : Type 0} (Q : A × List Call → Type 0) (m : Run (A × List Call)) (f : A → Calling B)
    → IsSafe Q m
    → NotThrown m
    → ((a : A) (calls : List Call) → Q (a, calls) → NotThrown (f a calls))
    → NotThrown (continue m f)
NotThrown-then Q (done p) f q fine next = next (p.0) (p.1) q
NotThrown-then Q (throws e) f q fine next = fine
NotThrown-then Q faults f q fine next = tt
NotThrown-then Q out_of_fuel f q fine next = tt

copied-NotThrown : (room : Bool) (m : Memory) → NotThrown (if room then done m else faults)
copied-NotThrown true m = tt
copied-NotThrown false m = tt

copy_handles-NotThrown :
    (stride hs : ℕ) (handles : Memory) (left i : ℕ) (table : Memory)
    → NotThrown (copy_handles stride hs handles left i table)
unfolding copy_handles memcpy
copy_handles-NotThrown stride hs handles zero i table = tt
copy_handles-NotThrown stride hs handles (suc left) i table =
    NotThrown-bind (memcpy table (i * stride) handles (i * hs) hs) _ (copied-NotThrown _ _)
      λ table'. copy_handles-NotThrown stride hs handles left (i + 1) table'

note_then :
    {B : Type 0} (c : Call) (calls : List Call) (f : ℕ → Calling B)
    → ((n : ℕ) (calls' : List Call) → NotThrown (f n calls'))
    → NotThrown (continue (note c calls) f)
unfolding note
note_then c calls f next = next (length calls) _

module _ (d : TracerDriver) (accepts : Accepts d) where
  call_then :
      {B : Type 0} (c : Call) (calls : List Call) (f : ℕ → Calling B)
      → ((n : ℕ) (calls' : List Call) → NotThrown (f n calls'))
      → NotThrown (continue (call d c calls) f)
  call_then c calls f next = rw (accepts.answers calls c) (next (length calls) _)

  load_then :
      {B : Type 0} (name : Bytes) (calls : List Call) (f : Bytes → Calling B)
      → ((code : Bytes) → NotThrown (f code calls))
      → NotThrown (continue (load_shader d name calls) f)
  unfolding load_shader
  load_then name calls f next = let (code, e) = accepts.files name in rw e (next code)

  upload_then :
      {B : Type 0} (size count : ℕ) (usage : List BufferUsage) (calls : List Call)
      (f : ℕ → Calling B)
      → ((n : ℕ) (calls' : List Call) → NotThrown (f n calls'))
      → NotThrown (continue (uploaded_buffer d size count usage calls) f)
  unfolding uploaded_buffer
  upload_then size count usage calls f next =
      NotThrown-continue _ f (call_then _ calls _ λ n c1. note_then _ c1 _ λ m c2. tt) next

  create_structure-NotThrown :
      (type : StructureType) (g : Geometry) (n : ℕ) (calls : List Call)
      → NotThrown (create_structure d type g n calls)
  unfolding create_structure
  create_structure-NotThrown type g n calls =
      call_then _ calls _
        λ b c1. call_then _ c1 _ λ s c2. call_then _ c2 _ λ x c3. call_then _ c3 _ λ u c4. tt

  pub create_output_image-NotThrown :
      (t : PathTracer) (calls : List Call) → NotThrown (create_output_image d t calls)
  unfolding create_output_image
  create_output_image-NotThrown t calls =
      call_then _ calls _ λ b c1. call_then _ c1 _ λ s c2. call_then _ c2 _ λ x c3. tt

  pub create_acceleration_structures-NotThrown :
      (scene : Scene) (t : PathTracer) (calls : List Call)
      → NotThrown (create_acceleration_structures d scene t calls)
  unfolding create_acceleration_structures
  create_acceleration_structures-NotThrown scene t calls =
      NotThrown-continue _ _ (create_structure-NotThrown _ _ _ calls) λ bottom c1.
        call_then _ c1 _ λ b c2.
          note_then _ c2 _
            λ u c3. NotThrown-continue _ _ (create_structure-NotThrown _ _ _ c3) λ top c4. tt

  pub create_ray_tracing_pipeline-NotThrown :
      (t : PathTracer) (calls : List Call) → NotThrown (create_ray_tracing_pipeline d t calls)
  unfolding create_ray_tracing_pipeline
  create_ray_tracing_pipeline-NotThrown t calls =
      let (path, e) = accepts.directory in
      rw e (
        load_then _ calls _ λ m0. load_then _ calls _ λ m1. load_then _ calls _ λ m2.
          call_then _ calls _ λ s0 c1. call_then _ c1 _ λ s1 c2.
            call_then _ c2 _ λ s2 c3.
              call_then _ c3 _ λ l c4. call_then _ c4 _ λ l' c5. call_then _ c5 _ λ x c6. tt)

  table_of-NotThrown :
      (pipeline hs size stride : ℕ) → NotThrown (table_of d.tables pipeline hs size stride)
  table_of-NotThrown pipeline hs size stride =
      let (handles, got) = accepts.handles pipeline 0 3 (3 * hs) in
      let (buffer, made) = accepts.buffers (u32 (3 * stride)) (omega arith) in
      rw (got, made)
        (NotThrown-bind _ _ (copy_handles-NotThrown stride hs handles 3 0 (buffer.1)) λ memory. tt)

  pub with_table-NotThrown :
      (p : RtProperties) (w h : ℕ) (calls : List Call)
      → NotThrown (with_table d p (tracer_with_pipeline w h) calls)
  unfolding create_shader_binding_table
  with_table-NotThrown p w h calls =
      NotThrown-continue _ _ (NotThrown-run _ calls (table_of-NotThrown 26 _ _ _))
        λ table c1. note_then _ c1 _ λ u c2. tt

  pub create_descriptor_sets-NotThrown :
      (scene : Scene) (w h : ℕ) (table : ShaderTable) (calls : List Call)
      → NotThrown (
          create_descriptor_sets d scene
            (record (tracer_with_pipeline w h) { table = some table })
            calls)
  unfolding create_descriptor_sets
  create_descriptor_sets-NotThrown scene w h table calls =
      call_then _ calls _ λ a c1. call_then _ c1 _ λ b c2. note_then _ c2 _ λ c c3. tt

  pub launch_tiles-NotThrown :
      (w h samples : ℕ) (table : ShaderTable) (tiles : List Tile) (calls : List Call)
      → NotThrown (launch_tiles d (whole_tracer w h table) samples tiles calls)
  unfolding launch_tiles launch_tile
  launch_tiles-NotThrown w h samples table [] calls = tt
  launch_tiles-NotThrown w h samples table (tile ∷ tiles) calls =
      call_then _ calls _ λ u c1. launch_tiles-NotThrown w h samples table tiles c1

  pub save_image-NotThrown :
      (w h : ℕ) (table : ShaderTable) (filename : Bytes) (calls : List Call)
      → NotThrown (save_image d (whole_tracer w h table) filename calls)
  unfolding save_image
  save_image-NotThrown w h table filename calls =
      call_then _ calls _ λ b c1. call_then _ c1 _ λ u c2. note_then _ c2 _ λ v c3. tt

  pub new_scene-NotThrown :
      {V M : Type 0} (vs : List V) (is : List ℕ) (ms : List M) (mis : List ℕ) (calls : List Call)
      → NotThrown (new_scene d vs is ms mis calls)
  unfolding new_scene
  new_scene-NotThrown vs is ms mis calls = upload_then _ _ _ calls _ λ a c1.
      upload_then _ _ _ c1 _
        λ b c2. upload_then _ _ _ c2 _ λ c c3. upload_then _ _ _ c3 _ λ e c4. tt
