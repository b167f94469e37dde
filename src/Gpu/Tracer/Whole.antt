-- ===== src/Gpu/Tracer/Whole.antt =====
-- From the scene to the file: the constructor, the launches and the file of an image.
use pathological_v.Prelude.{
  ℕ, ◌<◌, ◌≡◌, refl, Bytes, Bool, List, [], All, length, ◌&&◌, ltb, if◌then◌else◌, arith,
}
use pathological_v.Prelude.Run.{IsSafe}
use pathological_v.Tiles
use pathological_v.Tiles.{Tile}
use pathological_v.Tiles.Cover.{covering}
use pathological_v.Tiles.Inside.{render-IsWithin}
use pathological_v.Gpu.Context.{RtProperties}
use pathological_v.Gpu.ShaderTable.{ShaderTable, IsSound}
use pathological_v.Gpu.ShaderTable.Layout.{IsSupported, IsTable, IsAlignedTable}
use pathological_v.Gpu.Calls.{Call, TracerDriver}
use pathological_v.Gpu.Validity.{fresh_gpu}
use pathological_v.Gpu.Validity.Steps.{AreValid, after_calls}
use pathological_v.Gpu.Validity.Tracking.{Tracks, continue-IsSafe}
use pathological_v.Gpu.Tracer.{PathTracer}
use pathological_v.Gpu.Tracer.Images.{render_image, trace_image, trace_scene}
use pathological_v.Gpu.Tracer.Setup.{Counts, IsSized, scene_state, scene_of, new_scene-Tracks}
use pathological_v.Gpu.Tracer.Creation.{Ends}
use pathological_v.Gpu.Tracer.Descriptors.{whole_tracer}
use pathological_v.Gpu.Tracer.Launches.{Shows, launch_tiles-Shows}
use pathological_v.Gpu.Tracer.Saving.{picture_of, written_file, Saved, save_image-Saved}
use pathological_v.Gpu.Tracer.Built.{Built, new_path_tracer-Built}

-- The calls are valid, one after the other, and the tables that they fill are aligned. Where stb wrote
-- the file, it shows the tiles, which hold each pixel of the image exactly once, and none outside it;
-- where it did not, no file was written.
pub record IsWhole (d : TracerDriver) (j k handle_size width height : ℕ) (filename : Bytes)
    (written : Bool) (calls : List Call) : Type 0 where
  pub valid : AreValid fresh_gpu calls
  pub aligned :
      All
        (λ e. IsAlignedTable d.tables j k handle_size (e.0) (e.1))
        (after_calls fresh_gpu calls).tables
  pub tiles : List Tile
  pub saved :
      (after_calls fresh_gpu calls).saved
      ≡ written_file written filename (picture_of width height tiles)
  pub once : (x y : ℕ) → covering x y tiles ≡ (if ltb x width && ltb y height then 1 else 0)

module _ (d : TracerDriver) (p : RtProperties) (j k : ℕ) (sound : IsSound d.tables)
    (supported : IsSupported j k p) where
  pub rendered-Shows :
      {H : Type 0} (w h samples max_tile : ℕ) (table : ShaderTable) (calls : List Call)
      → w < 4294967296
      → h < 4294967296
      → Shows H w h table [] calls
      → IsSafe
          (λ r. Shows H w h table (Tiles.render w h max_tile).launches (r.1))
          (render_image d (whole_tracer w h table) samples max_tile calls)
  unfolding render_image
  rendered-Shows w h samples max_tile table calls low high shows =
      launch_tiles-Shows d w h table samples (Tiles.render w h max_tile).launches [] calls shows
        (render-IsWithin w h max_tile low high)

  -- The tracer is whole, and its image was saved, if stb wrote it.
  abbrev pub Traced : Counts → (w h max_tile : ℕ) → Bytes → PathTracer × List Call → Type 0
  Traced n w h max_tile filename r =
      (table : ShaderTable) × (r.0 ≡ whole_tracer w h table)
      × IsTable d.tables j k p.shader_group_handle_size 26 table
      × Saved (IsSized d n w h) w h table filename (d.writes_png filename)
          (Tiles.render w h max_tile).launches (r.1)

  trace_image-Traced :
      (n : Counts) (w h samples max_tile : ℕ) (filename : Bytes) (calls : List Call)
      → w < 536870912
      → h < 536870912
      → Tracks (IsSized d n w h) (scene_state n) calls
      → IsSafe
          (Traced n w h max_tile filename)
          (trace_image d p (scene_of n) w h samples max_tile filename calls)
  unfolding trace_image
  trace_image-Traced n w h samples max_tile filename calls low high start =
      let end = Traced n w h max_tile filename in
      let tiles = (Tiles.render w h max_tile).launches in
      continue-IsSafe (Built d p j k sound supported n w h) end _ _
        (new_path_tracer-Built d p j k sound supported n w h calls start)
        λ t c1 q1. rw (q1.1) (
          continue-IsSafe (λ r. Shows (IsSized d n w h) w h (q1.0) tiles (r.1)) end _ _
            (rendered-Shows w h samples max_tile (q1.0) c1 (omega (arith, low))
              (omega (arith, high)) (q1.3))
            λ u c2 q2.
              continue-IsSafe
                (λ r.
                  Saved (IsSized d n w h) w h (q1.0) filename (d.writes_png filename) tiles (r.1))
                end _ _
                (save_image-Saved w h low high (q1.0) d filename tiles c2
                  (λ z. (z.some_columns, z.some_rows)) q2)
                λ v c3 q3. (q1.0, refl, q1.2, q3))

  pub trace_scene-Traced :
      {V M : Type 0} (vs : List V) (is : List ℕ) (ms : List M) (mis : List ℕ)
      (w h samples max_tile : ℕ) (filename : Bytes)
      → w < 536870912
      → h < 536870912
      → IsSafe
          (Traced (length vs, length is, length ms, length mis) w h max_tile filename)
          (trace_scene d p vs is ms mis w h samples max_tile filename [])
  unfolding trace_scene
  trace_scene-Traced vs is ms mis w h samples max_tile filename low high =
      let n : Counts = (length vs, length is, length ms, length mis) in
      continue-IsSafe (Ends (IsSized d n w h) (scene_of n) (scene_state n))
        (Traced n w h max_tile filename) _ _ (new_scene-Tracks d vs is ms mis w h)
        λ scene calls q.
          rw (q.0) (trace_image-Traced n w h samples max_tile filename calls low high (q.1))
