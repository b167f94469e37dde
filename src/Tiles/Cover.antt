-- ===== src/Tiles/Cover.antt =====
-- The tiles of an image cover it without overlap.
use mathlib.Core.WellFounded.{Acc}
use pathological_v.Prelude.{
  ℕ, ◌+◌, ◌-◌, ◌/◌, ◌<◌, ◌≡◌, ◌∙◌, Bool, ◌&&◌, ltb, leb, if◌then◌else◌, arith, u32, List, [], ◌∷◌,
  ◌++◌,
}
use pathological_v.Tiles.{
  Tile, Trace, no_trace, render_tile_region, count_subdivision, render_tile_recursive, render,
  width_acc,
}
use pathological_v.Tiles.Rule.{render_tile_rule}

abbrev pub in_rect : ℕ → ℕ → ℕ → ℕ → ℕ → ℕ → Bool
in_rect x y w h px py = leb x px && ltb px (x + w) && (leb y py && ltb py (y + h))

-- 1 for a pixel of the rectangle, and 0 for any other.
pub area : ℕ → ℕ → ℕ → ℕ → ℕ → ℕ → ℕ
area x y w h px py = if in_rect x y w h px py then 1 else 0

-- How often the pixel is traced.
pub covering : ℕ → ℕ → List Tile → ℕ
covering px py [] = 0
covering px py (t ∷ ts) = area t.offset_x t.offset_y t.width t.height px py + covering px py ts

covering-append :
    (px py : ℕ) (ts us : List Tile)
    → covering px py (ts ++ us) ≡ covering px py ts + covering px py us
unfolding covering
covering-append px py [] us = omega arith
covering-append px py (t ∷ ts) us = omega (arith, covering-append px py ts us)

-- A rectangle is the sum of its four quarters.
quarters :
    (x y a b c d px py : ℕ)
    → area x y (a + b) (c + d) px py
      ≡ area x y a c px py
        + area (x + a) y b c px py
        + area x (y + c) a d px py
        + area (x + a) (y + c) b d px py
unfolding area
quarters x y a b c d px py = ground arith

module _ (max_tile px py : ℕ) where
  abbrev Covers : ℕ → ℕ → ℕ → ℕ → Trace → Trace → Type 0
  Covers x y w h t t' =
      x + w < 4294967296
      → y + h < 4294967296
      → covering px py t'.launches ≡ covering px py t.launches + area x y w h px py

  leaf :
      (x y w h : ℕ) (t : Trace)
      → Covers x y w h t
          (render_tile_region (record { offset_x = x; offset_y = y; width = w; height = h }) t)
  unfolding render_tile_region covering
  leaf x y w h t fx fy = covering-append px py t.launches _ ∙ omega arith

  node :
      (x y w h : ℕ) (t t1 t2 t3 t4 : Trace)
      → Covers x y (w / 2) (h / 2) (count_subdivision t) t1
      → Covers (u32 (x + w / 2)) y (w - w / 2) (h / 2) t1 t2
      → Covers x (u32 (y + h / 2)) (w / 2) (h - h / 2) t2 t3
      → Covers (u32 (x + w / 2)) (u32 (y + h / 2)) (w - w / 2) (h - h / 2) t3 t4
      → Covers x y w h t t4
  unfolding count_subdivision
  node x y w h t t1 t2 t3 t4 c1 c2 c3 c4 fx fy =
      let ex : u32 (x + w / 2) ≡ x + w / 2 = omega arith in
      let ey : u32 (y + h / 2) ≡ y + h / 2 = omega arith in
      let ew : w / 2 + (w - w / 2) ≡ w = omega arith in
      let eh : h / 2 + (h - h / 2) ≡ h = omega arith in
      omega (
        arith,
        c1 (omega arith) (omega arith),
        rw ex at (c2 (omega arith) (omega arith)),
        rw ey at (c3 (omega arith) (omega arith)),
        rw (ex, ey) at (c4 (omega arith) (omega arith)),
        rw (ew, eh) at (quarters x y (w / 2) (w - w / 2) (h / 2) (h - h / 2) px py),
      )

  region-Covers :
      (w : ℕ) (a : Acc ◌<◌ w) (x y h : ℕ) (t : Trace)
      → Covers x y w h t (render_tile_recursive w a x y h max_tile t)
  region-Covers =
      render_tile_rule max_tile Covers (λ x y w h t _. leaf x y w h t)
        λ x y w h t t1 t2 t3 t4 _. node x y w h t t1 t2 t3 t4

-- Every pixel of the image is traced exactly once, and no pixel outside it.
pub render-covers :
    (width height max_tile px py : ℕ)
    → width < 4294967296
    → height < 4294967296
    → covering px py (render width height max_tile).launches
      ≡ (if ltb px width && ltb py height then 1 else 0)
unfolding render covering area
render-covers width height max_tile px py fw fh =
    region-Covers max_tile px py width (width_acc width) 0 0 height no_trace (omega arith)
      (omega arith)
    ∙ ground arith
