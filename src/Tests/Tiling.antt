-- ===== src/Tests/Tiling.antt =====
-- The theorems on the tiles at concrete images.
use pathological_v.Prelude.{All, ◌≡◌, inl, arith}
use pathological_v.Tiles.{render}
use pathological_v.Tiles.Cover.{covering, render-covers}
use pathological_v.Tiles.Sizes.{IsProper, one_tile, render-IsProper, render_narrow}

render-covers_example : covering 200 100 (render 640 480 256).launches ≡ 1
render-covers_example = render-covers 640 480 256 200 100 (omega arith) (omega arith)

render-IsProper_example : All (IsProper 256) (render 640 480 256).launches
render-IsProper_example = render-IsProper 640 480 256 (omega arith) (omega arith)

render_narrow_example : render 127 4000 256 ≡ one_tile 127 4000
render_narrow_example = render_narrow 127 4000 256 (inl (omega arith))
