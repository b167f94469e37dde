-- ===== src/Tiles/Inside.antt =====
-- The tiles lie in the image.
use mathlib.Core.WellFounded.{Acc}
use pathological_v.Prelude.{ℕ, ◌+◌, ◌≤◌, ◌<◌, All, arith}
use pathological_v.Tiles.{
  Tile, Trace, no_trace, render_tile_region, count_subdivision, render_tile_recursive, render,
  width_acc,
}
use pathological_v.Tiles.Rule.{render_tile_rule}
use pathological_v.Tiles.Sizes.{All-append}

pub record IsWithin (width height : ℕ) (t : Tile) : Type 0 where
  pub across : t.offset_x + t.width ≤ width
  pub down : t.offset_y + t.height ≤ height

module _ (width height max_tile : ℕ) (low : width < 4294967296) (high : height < 4294967296) where
  region-IsWithin :
      (w : ℕ) (a : Acc ◌<◌ w) (x y h : ℕ) (t : Trace)
      → x + w ≤ width
      → y + h ≤ height
      → All (IsWithin width height) t.launches
      → All (IsWithin width height) (render_tile_recursive w a x y h max_tile t).launches
  unfolding render_tile_region count_subdivision
  region-IsWithin =
      render_tile_rule max_tile
        (λ x y w h t t'.
          x + w ≤ width
          → y + h ≤ height
          → All (IsWithin width height) t.launches
          → All (IsWithin width height) t'.launches)
        (λ x y w h t e across down all.
          All-append (IsWithin width height) t.launches _ all
            (record { across = across; down = down }))
        (λ x y w h t t1 t2 t3 t4 e q1 q2 q3 q4 across down all. q4 (omega arith) (omega arith) (
          q3 (omega arith) (omega arith)
            (q2 (omega arith) (omega arith) (q1 (omega arith) (omega arith) all))))

pub render-IsWithin :
    (width height max_tile : ℕ)
    → width < 4294967296
    → height < 4294967296
    → All (IsWithin width height) (render width height max_tile).launches
unfolding render
render-IsWithin width height max_tile low high =
    region-IsWithin width height max_tile low high width (width_acc width) 0 0 height no_trace
      (omega arith) (omega arith) tt
