-- ===== src/Tiles/Rule.antt =====
-- The rule for what holds of a region and the traces before and after it.
use mathlib.Core.WellFounded.{Acc}
use pathological_v.Prelude.{ℕ, ◌+◌, ◌-◌, ◌/◌, ◌<◌, ◌≡◌, true, false, u32, by_case_inv}
use pathological_v.Tiles.{
  Trace, subdivides, render_tile_region, count_subdivision, render_tile_recursive, half-lt, rest-lt,
}

module _ {ℓ} (max_tile : ℕ) (Q : ℕ → ℕ → ℕ → ℕ → Trace → Trace → Type ℓ)
    (leaf : (x y w h : ℕ) (t : Trace)
      → subdivides w h max_tile ≡ false
      → Q x y w h t
          (render_tile_region (record { offset_x = x; offset_y = y; width = w; height = h }) t))
    (node : (x y w h : ℕ) (t t1 t2 t3 t4 : Trace)
      → subdivides w h max_tile ≡ true
      → Q x y (w / 2) (h / 2) (count_subdivision t) t1
      → Q (u32 (x + w / 2)) y (w - w / 2) (h / 2) t1 t2
      → Q x (u32 (y + h / 2)) (w / 2) (h - h / 2) t2 t3
      → Q (u32 (x + w / 2)) (u32 (y + h / 2)) (w - w / 2) (h - h / 2) t3 t4
      → Q x y w h t t4) where
  pub render_tile_rule :
      (w : ℕ) (a : Acc ◌<◌ w) (x y h : ℕ) (t : Trace)
      → Q x y w h t (render_tile_recursive w a x y h max_tile t)
  unfolding render_tile_recursive
  render_tile_rule w (Acc.intro _ smaller) x y h t =
      by_case_inv (Q x y w h t) (subdivides w h max_tile) _ _
        (λ e.
          node x y w h t _ _ _ _ e
            (render_tile_rule (w / 2) (smaller (w / 2) (half-lt w h max_tile e)) x y (h / 2) _)
            (render_tile_rule (w - w / 2) (smaller (w - w / 2) (rest-lt w h max_tile e)) _ y (h / 2)
              _)
            (render_tile_rule (w / 2) (smaller (w / 2) (half-lt w h max_tile e)) x _ (h - h / 2) _)
            (render_tile_rule (w - w / 2) (smaller (w - w / 2) (rest-lt w h max_tile e)) _ _
              (h - h / 2) _))
        (λ e. leaf x y w h t e)
