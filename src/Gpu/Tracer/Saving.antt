-- ===== src/Gpu/Tracer/Saving.antt =====
-- The image's way to a file: the calls of `saveImage` are valid, and the file shows the tiles that were
-- traced.
use pathological_v.Prelude.{
  ℕ, ◌*◌, ◌≤◌, ◌<◌, ◌≡◌, ◌≢◌, refl, ap, ◌∙◌, inl, inr, Bool, true, false, none, Bytes, List, [],
  ◌∷◌, Option, some, if_pos, if_neg, arith, ℕ_discrete, u32,
}
use pathological_v.Prelude.Run.{IsSafe}
use pathological_v.Tiles.{Tile}
use pathological_v.Gpu.ShaderTable.{ShaderTable, u64}
use pathological_v.Gpu.Handles.{write}
use pathological_v.Gpu.Calls.{
  ImageLayout, general, transfer_src_optimal, transfer_dst, gpu_to_cpu, CreateInfo, buffer_info,
  Call, create, submit, write_png, TracerDriver,
}
use pathological_v.Gpu.Validity.{Picture, GpuState, HasUsage, Holds}
use pathological_v.Gpu.Validity.Steps.{IsImage, HasSides, CanCall, call_step, save_if}
use pathological_v.Gpu.Validity.Tracking.{Tracks, call-IsSafe, note-IsSafe}
use pathological_v.Gpu.Tracer.Structures.{output_info}
use pathological_v.Gpu.Tracer.Images.{save_commands, save_image}
use pathological_v.Gpu.Tracer.Descriptors.{whole_tracer}
use pathological_v.Gpu.Tracer.Launches.{IsReady, Shows}

write-same : {A : Type 0} (f : ℕ → A) (k : ℕ) (v : A) → write f k v k ≡ v
write-same f k v = if_pos (ℕ_discrete k k) refl v (f k)

write-other : {A : Type 0} (f : ℕ → A) (k : ℕ) (v : A) (j : ℕ) → k ≢ j → write f k v j ≡ f j
write-other f k v j other = if_neg (ℕ_discrete k j) other v (f j)

abbrev pub staging_info : ℕ → ℕ → CreateInfo
staging_info w h = buffer_info (u64 (u64 (w * h) * 4)) (transfer_dst ∷ []) gpu_to_cpu

abbrev pub picture_of : ℕ → ℕ → List Tile → Picture
picture_of w h tiles = record { picture_width = w; picture_height = h; tiles = tiles }

-- The image in a layout, and the staging buffer.
record HasStaging (w h k : ℕ) (layout : ImageLayout) (tiles : List Tile) (s : GpuState)
    : Type 0 where
  image : s.objects 8 ≡ some (output_info w h)
  buffer : s.objects k ≡ some (staging_info w h)
  in_layout : s.layouts 8 ≡ layout
  shown : s.traced 8 ≡ tiles

-- What stands in the file: the picture, if it was written.
abbrev pub written_file : Bool → Bytes → Picture → Option (Bytes × Picture)
written_file true name p = some (name, p)
written_file false name p = none

-- If the file was written, it shows the tiles; the image is left in the layout of a copy's source.
abbrev pub Saved :
    Type 0 → (w h : ℕ) → ShaderTable → Bytes → (written : Bool) → List Tile → List Call → Type 0
Saved H w h table filename written tiles calls =
    (s : GpuState) × Tracks H s calls
    × (s.saved ≡ written_file written filename (picture_of w h tiles))
    × (s.layouts 8 ≡ transfer_src_optimal)
    × (s.tables ≡ (26, table) ∷ [])

fits : (w h : ℕ) → w < 536870912 → h < 536870912 → u64 (u64 (w * h) * 4) ≡ w * h * 4
fits w h low high = let bound : w * h ≤ 536870912 * 536870912 = grind arith in omega (arith, bound)

module _ (w h : ℕ) (low : w < 536870912) (high : h < 536870912) (table : ShaderTable) where
  can_copy :
      (s : GpuState) (k : ℕ) (tiles : List Tile)
      → HasStaging w h k general tiles s
      → CanCall s (submit (save_commands (whole_tracer w h table) 8 k))
  unfolding ℕ_discrete
  can_copy s k tiles st =
      let room : w * h * 4 ≤ u64 (u64 (w * h) * 4) = omega (arith, fits w h low high) in
      let is_image : IsImage s 8 = rw (st.image, IsImage) tt in
      let sides : HasSides s w h 8 = rw (st.image, HasSides) (refl, refl, inr (inl refl)) in
      let usage : HasUsage s transfer_dst k = rw (st.buffer, HasUsage) (inl refl) in
      let holds : Holds s (w * h * 4) k = rw (st.buffer, Holds) room in
      ((st.in_layout, is_image), ((refl, refl, usage, holds, sides), tt))

  copied-Staging :
      (s : GpuState) (k : ℕ) (tiles : List Tile)
      → HasStaging w h k general tiles s
      → (call_step (submit (save_commands (whole_tracer w h table) 8 k)) s).copies k
        ≡ some (picture_of w h tiles)
  copied-Staging s k tiles st =
      write-same s.copies k _ ∙ ap (λ (ts : List Tile). some (picture_of w h ts)) st.shown

  can_write :
      (filename : Bytes) (written : Bool) (s : GpuState) (k : ℕ) (tiles : List Tile)
      → s.copies k ≡ some (picture_of w h tiles)
      → CanCall s (write_png filename (u32 w) (u32 h) 4 k (u32 (w * 4)) written)
  can_write filename written s k tiles copied =
      rw copied (omega (arith, low), omega (arith, high), refl, omega (arith, low))

  saves :
      (filename : Bytes) (written : Bool) (s : GpuState) (o : Option Picture) (p : Picture)
      → o ≡ some p
      → s.saved ≡ none
      → s.layouts 8 ≡ transfer_src_optimal
      → s.tables ≡ (26, table) ∷ []
      → ((save_if written filename o s).saved ≡ written_file written filename p)
        × ((save_if written filename o s).layouts 8 ≡ transfer_src_optimal)
        × ((save_if written filename o s).tables ≡ (26, table) ∷ [])
  saves filename true s o p e unsaved left tables = rw e (refl, left, tables)
  saves filename false s o p e unsaved left tables = (unsaved, left, tables)

  room : 0 < w → 0 < h → 0 < u64 (u64 (w * h) * 4)
  room some_columns some_rows =
      let some_pixels : 1 * 1 ≤ w * h = grind arith in omega (arith, fits w h low high, some_pixels)

  staged :
      (s : GpuState) (tiles : List Tile)
      → IsReady w h table s
      → s.traced 8 ≡ tiles
      → HasStaging w h s.next general tiles (call_step (create (staging_info w h)) s)
  staged s tiles ready shown = record {
    image = write-other s.objects s.next _ 8 (λ e. omega (arith, ready.late, e)) ∙ ready.image;
    buffer = write-same s.objects s.next _;
    in_layout = ready.layout;
    shown = shown;
  }

  pub save_image-Saved :
      {H : Type 0} (d : TracerDriver) (filename : Bytes) (tiles : List Tile) (calls : List Call)
      → (H → (0 < w) × (0 < h))
      → Shows H w h table tiles calls
      → IsSafe
          (λ p. Saved H w h table filename (d.writes_png filename) tiles (p.1))
          (save_image d (whole_tracer w h table) filename calls)
  unfolding save_image ℕ_discrete
  save_image-Saved {H = H} d filename tiles calls positive (s, tracks, ready, shown) =
      let written = d.writes_png filename in
      let end = λ (p : Unit {0} × List Call). Saved H w h table filename written tiles (p.1) in
      let k = s.next in
      let info = create (staging_info w h) in
      let copy = submit (save_commands (whole_tracer w h table) 8 k) in
      let s1 = call_step info s in
      let s2 = call_step copy s1 in
      let staging = staged s tiles ready shown in
      let copied = copied-Staging s1 k tiles staging in
      let (saved, left, tables) =
        saves filename written s2 (s2.copies k) (picture_of w h tiles) copied ready.unsaved refl
          ready.tables in
      call-IsSafe end d s calls info _ tracks (λ z. room ((positive z).0) ((positive z).1))
        λ c1 h1.
          call-IsSafe end d s1 c1 copy _ h1 (λ z. can_copy s1 k tiles staging)
            λ c2 h2.
              note-IsSafe end s2 c2 (write_png filename (u32 w) (u32 h) 4 k (u32 (w * 4)) written) _
                h2 (λ z. can_write filename written s2 k tiles copied)
                λ c3 h3. (_, h3, saved, left, tables)
