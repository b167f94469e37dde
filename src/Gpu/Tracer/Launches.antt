-- ===== src/Gpu/Tracer/Launches.antt =====
-- The launches of the tiles: each is valid, and adds its tile to what the image shows.
use pathological_v.Prelude.{
  ℕ, ◌+◌, ◌≤◌, ◌≡◌, refl, inl, none, sym, ap, List, [], ◌∷◌, ◌++◌, append_assoc, append-nil, All,
  some, arith, ℕ_discrete,
}
use pathological_v.Prelude.Run.{IsSafe}
use pathological_v.Tiles.{Tile}
use pathological_v.Tiles.Inside.{IsWithin}
use pathological_v.Gpu.ShaderTable.{ShaderTable}
use pathological_v.Gpu.Handles.{write}
use pathological_v.Gpu.Calls.{
  general, raygen, PushConstants, bind_pipeline, bind_descriptor_set, push_constants, Call, submit,
  TracerDriver,
}
use pathological_v.Gpu.Validity.{GpuState, nothing_bound, set_bindings}
use pathological_v.Gpu.Validity.Launch.{
  IsBound, target_of, Stores, ReadsScene, HasGroups, HasRegions,
}
use pathological_v.Gpu.Validity.Steps.{CanCommand, CanCall, call_step}
use pathological_v.Gpu.Validity.Tracking.{Tracks, call-IsSafe}
use pathological_v.Gpu.Tracer.Structures.{output_info}
use pathological_v.Gpu.Tracer.Images.{
  regions_of, tile_constants, tile_commands, launch_tile, launch_tiles,
}
use pathological_v.Gpu.Tracer.Descriptors.{whole_tracer}

-- A launch is valid: what it binds is there, with the scene that the shaders read and the table of the
-- pipeline's handles, and the image, which it stores to, is in the general layout.
pub record IsReady (w h : ℕ) (table : ShaderTable) (s : GpuState) : Type 0 where
  pub image : s.objects 8 ≡ some (output_info w h)
  pub can_bind : CanCommand s nothing_bound (bind_pipeline 26)
  pub can_bind_set : CanCommand s nothing_bound (bind_descriptor_set 25 29)
  pub can_push : (pc : PushConstants) → CanCommand s nothing_bound (push_constants 25 raygen pc)
  pub bindings : All (IsBound s 29) (set_bindings s 29)
  pub target : target_of s 29 ≡ some 8
  pub layout : s.layouts 8 ≡ general
  pub late : 30 ≤ s.next
  pub reads : ReadsScene (s.contents 29) s.geometry_of s.instance_in s.filled
  pub groups : HasGroups s 26
  pub tables : s.tables ≡ (26, table) ∷ []
  pub unsaved : s.saved ≡ none

abbrev pub with_tile : Tile → GpuState → GpuState
with_tile tile s = record s {
  traced = write s.traced 8 (s.traced 8 ++ tile ∷ []);
  next = s.next + 1;
}

with_tile-IsReady :
    (w h : ℕ) (table : ShaderTable) (tile : Tile) (s : GpuState)
    → IsReady w h table s
    → IsReady w h table (with_tile tile s)
with_tile-IsReady w h table tile s r = record {
  image = r.image;
  can_bind = r.can_bind;
  can_bind_set = r.can_bind_set;
  can_push = r.can_push;
  bindings = r.bindings;
  target = r.target;
  layout = r.layout;
  late = omega (arith, r.late);
  reads = r.reads;
  groups = r.groups;
  tables = r.tables;
  unsaved = r.unsaved;
}

-- The image shows these tiles, and more can be launched.
abbrev pub Shows : Type 0 → (w h : ℕ) → ShaderTable → List Tile → List Call → Type 0
Shows H w h table tiles calls =
    (s : GpuState) × Tracks H s calls × IsReady w h table s × (s.traced 8 ≡ tiles)

module _ (d : TracerDriver) (w h : ℕ) (table : ShaderTable) (samples : ℕ) where
  stores :
      (s : GpuState) (tile : Tile)
      → IsReady w h table s
      → IsWithin w h tile
      → Stores s (tile_constants d (whole_tracer w h table) tile samples) tile.width tile.height 8
  unfolding tile_constants
  stores s tile r inside = rw (r.image, Stores) (inside.across, inside.down, refl, refl)

  has_regions : (s : GpuState) → IsReady w h table s → HasRegions s.tables 26 (regions_of table)
  has_regions s r = (table, rw r.tables (inl refl), refl, refl, refl, refl)

  can_launch :
      (s : GpuState) (tile : Tile)
      → IsReady w h table s
      → IsWithin w h tile
      → CanCall s (submit (tile_commands d (whole_tracer w h table) tile samples 26 29 25 table))
  can_launch s tile r inside = (
    r.can_bind,
    (
      r.can_bind_set,
      (
        r.can_push (tile_constants d (whole_tracer w h table) tile samples),
        (
          (
            r.bindings,
            r.reads,
            r.groups,
            has_regions s r,
            refl,
            rw r.target (stores s tile r inside),
          ),
          tt,
        ),
      ),
    ),
  )

  launch-with_tile :
      (s : GpuState) (tile : Tile)
      → IsReady w h table s
      → call_step (submit (tile_commands d (whole_tracer w h table) tile samples 26 29 25 table)) s
        ≡ with_tile tile s
  unfolding tile_constants
  launch-with_tile s tile r = rw r.target refl

  pub launch_tiles-Shows :
      {H : Type 0} (tiles before : List Tile) (calls : List Call)
      → Shows H w h table before calls
      → All (IsWithin w h) tiles
      → IsSafe
          (λ p. Shows H w h table (before ++ tiles) (p.1))
          (launch_tiles d (whole_tracer w h table) samples tiles calls)
  unfolding launch_tiles launch_tile ℕ_discrete
  launch_tiles-Shows [] before calls shows inside = rw (append-nil before) shows
  launch_tiles-Shows {H = H} (tile ∷ tiles) before calls (s, tracks, ready, traced) inside =
      call-IsSafe _ d s calls _ _ tracks (λ z. can_launch s tile ready (inside.0))
        λ c1 h1.
          let tracks' : Tracks H (with_tile tile s) c1 =
            rw (sym (launch-with_tile s tile ready)) h1 in
          let rest =
            launch_tiles-Shows tiles (before ++ tile ∷ []) c1
              (
                with_tile tile s,
                tracks',
                with_tile-IsReady w h table tile s ready,
                ap (λ (ts : List Tile). ts ++ tile ∷ []) traced,
              )
              (inside.1) in
          rw (sym (append_assoc before (tile ∷ []) tiles)) rest
