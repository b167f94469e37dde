-- ===== src/Tiles.antt =====
-- The tiling of the image (render_worker/src/path_tracer.cpp: `render`, `renderTileRecursive`):
-- `launches` is the list of the regions that are traced. The commands of a launch are in Gpu/Tracer.
pub mod Rule
pub mod Sizes
pub mod Cover
pub mod Inside
use mathlib.Core.WellFounded.{Acc}
use pathological_v.Prelude.{
  ℕ, zero, suc, ◌+◌, ◌-◌, ◌/◌, ◌≤◌, ◌<◌, ◌≡◌, Bool, true, false, ◌&&◌, ◌||◌, ltb, leb, arith, u32,
  List, [], ◌∷◌, ◌++◌, min, max, by_case,
}

pub record Tile : Type 0 where
  pub offset_x : ℕ
  pub offset_y : ℕ
  pub width : ℕ
  pub height : ℕ

pub record SubdivisionStats : Type 0 where
  pub min_tile_size : ℕ
  pub max_tile_size : ℕ
  pub total_tiles : ℕ
  pub subdivisions : ℕ

pub record Trace : Type 0 where
  pub launches : List Tile
  pub stats : SubdivisionStats
  pub open stats use *

abbrev pub min_tile : ℕ
min_tile = 64

-- `needsSubdivision && canSubdivide`
unfoldable pub subdivides : ℕ → ℕ → ℕ → Bool
subdivides width height max_tile =
    (ltb max_tile width || ltb max_tile height)
    && (leb (min_tile + min_tile) width && leb (min_tile + min_tile) height)

-- The branch that renders.
unfoldable pub render_tile_region : Tile → Trace → Trace
render_tile_region tile t = record {
  launches = t.launches ++ tile ∷ [];
  stats = record t.stats {
    total_tiles = u32 (t.total_tiles + 1);
    min_tile_size = min t.min_tile_size (max tile.width tile.height);
    max_tile_size = max t.max_tile_size (max tile.width tile.height);
  };
}

unfoldable pub count_subdivision : Trace → Trace
count_subdivision t = record t {
  stats = record t.stats { subdivisions = u32 (t.subdivisions + 1) };
}

pub half-lt :
    (width height max_tile : ℕ) → subdivides width height max_tile ≡ true → width / 2 < width
unfolding subdivides
half-lt width height max_tile e = ground arith

pub rest-lt :
    (width height max_tile : ℕ)
    → subdivides width height max_tile ≡ true
    → width - width / 2 < width
unfolding subdivides
rest-lt width height max_tile e = ground arith

-- The width falls with each call.
unfoldable pub render_tile_recursive : (width : ℕ) → Acc ◌<◌ width → ℕ → ℕ → ℕ → ℕ → Trace → Trace
unfolding render_tile_region count_subdivision by_case
render_tile_recursive width (Acc.intro _ smaller) x y height max_tile t =
    by_case (subdivides width height max_tile)
      (λ e.
        let half_w = width / 2 in
        let half_h = height / 2 in
        let t1 =
          render_tile_recursive (width / 2) (smaller (width / 2) (half-lt width height max_tile e))
            x y half_h max_tile (count_subdivision t) in
        let t2 =
          render_tile_recursive (width - width / 2)
            (smaller (width - width / 2) (rest-lt width height max_tile e)) (u32 (x + half_w)) y
            half_h max_tile t1 in
        let t3 =
          render_tile_recursive (width / 2) (smaller (width / 2) (half-lt width height max_tile e))
            x (u32 (y + half_h)) (height - half_h) max_tile t2 in
        render_tile_recursive (width - width / 2)
          (smaller (width - width / 2) (rest-lt width height max_tile e)) (u32 (x + half_w))
          (u32 (y + half_h)) (height - half_h) max_tile t3)
      (λ e.
        render_tile_region (record { offset_x = x; offset_y = y; width = width; height = height })
          t)

Acc-below : (k n : ℕ) → n < k → Acc ◌<◌ n
Acc-below zero n h = absurd (omega arith)
Acc-below (suc k) n h = Acc.intro n λ m hm. Acc-below k m (omega arith)

abbrev pub no_trace : Trace
no_trace = record {
  launches = [];
  stats = record {
    min_tile_size = 4294967295;
    max_tile_size = 0;
    total_tiles = 0;
    subdivisions = 0;
  };
}

unfoldable pub width_acc : (width : ℕ) → Acc ◌<◌ width
unfolding Acc-below
width_acc width = Acc-below (suc width) width (omega arith)

-- `render`, of the whole image.
unfoldable pub render : ℕ → ℕ → ℕ → Trace
unfolding render_tile_recursive
render width height max_tile =
    render_tile_recursive width (width_acc width) 0 0 height max_tile no_trace
