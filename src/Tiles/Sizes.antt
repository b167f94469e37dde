-- ===== src/Tiles/Sizes.antt =====
-- The sizes of the tiles, and the statistics that `render` prints.
use mathlib.Core.WellFounded.{Acc}
use pathological_v.Prelude.{
  All, ℕ, ◌≤◌, ◌<◌, ◌≡◌, refl, false, arith, u32, List, [], ◌∷◌, ◌++◌, max, length, length-append,
  ◌⊎◌,
}
use pathological_v.Tiles.{
  Tile, Trace, no_trace, subdivides, render_tile_region, count_subdivision, render_tile_recursive,
  render, width_acc,
}
use pathological_v.Tiles.Rule.{render_tile_rule}

pub All-append {ℓ} :
    (P : Tile → Type ℓ) (ts : List Tile) (t : Tile) → All P ts → P t → All P (ts ++ t ∷ [])
All-append P [] t h p = (p, tt)
All-append P (u ∷ ts) t h p = (h.0, All-append P ts t h.1 p)

All-map {ℓ κ} :
    (P : Tile → Type ℓ) (R : Tile → Type κ) (ts : List Tile)
    → ((t : Tile) → P t → R t)
    → All P ts
    → All R ts
All-map P R [] f h = tt
All-map P R (t ∷ ts) f h = (f t h.0, All-map P R ts f h.1)

-- A tile that is small enough, or that is too narrow or too flat to be cut; at least 64 pixels wide
-- and high.
pub record IsProper (max_tile : ℕ) (t : Tile) : Type 0 where
  pub wide : 64 ≤ t.width
  pub high : 64 ≤ t.height
  pub fits_or_narrow : 128 ≤ t.width → 128 ≤ t.height → (t.width ≤ max_tile) × (t.height ≤ max_tile)

-- What the statistics say of the launches.
pub record IsCounted (t : Trace) : Type 0 where
  pub total : t.total_tiles ≡ u32 (length t.launches)
  pub sizes :
      All
        (λ tile.
          (t.min_tile_size ≤ max tile.width tile.height)
          × (max tile.width tile.height ≤ t.max_tile_size))
        t.launches

module _ (max_tile : ℕ) where
  region-IsProper :
      (w : ℕ) (a : Acc ◌<◌ w) (x y h : ℕ) (t : Trace)
      → 64 ≤ w
      → 64 ≤ h
      → All (IsProper max_tile) t.launches
      → All (IsProper max_tile) (render_tile_recursive w a x y h max_tile t).launches
  unfolding render_tile_region count_subdivision subdivides
  region-IsProper =
      render_tile_rule max_tile
        (λ x y w h t t'.
          64 ≤ w
          → 64 ≤ h
          → All (IsProper max_tile) t.launches
          → All (IsProper max_tile) t'.launches)
        (λ x y w h t e wide high all.
          All-append (IsProper max_tile) t.launches _ all
            (record { wide = wide; high = high; fits_or_narrow = λ dw dh. ground arith }))
        (λ x y w h t t1 t2 t3 t4 e q1 q2 q3 q4 wide high all.
          let big : (128 ≤ w) × (128 ≤ h) = ground arith in
          q4 (omega arith) (omega arith) (
            q3 (omega arith) (omega arith)
              (q2 (omega arith) (omega arith) (q1 (omega arith) (omega arith) all))))

  region-IsCounted :
      (w : ℕ) (a : Acc ◌<◌ w) (x y h : ℕ) (t : Trace)
      → IsCounted t
      → IsCounted (render_tile_recursive w a x y h max_tile t)
  unfolding render_tile_region count_subdivision
  region-IsCounted =
      render_tile_rule max_tile (λ x y w h t t'. IsCounted t → IsCounted t')
        (λ x y w h t e c. record {
          total = omega (arith, c.total, length-append t.launches (_ ∷ []));
          sizes =
              All-append _ t.launches _ (All-map _ _ t.launches (λ u b. omega arith) c.sizes)
                (omega arith);
        })
        (λ x y w h t t1 t2 t3 t4 e q1 q2 q3 q4 c.
          q4 (q3 (q2 (q1 (record { total = c.total; sizes = c.sizes })))))

-- Of an image of at least 64 by 64 pixels every tile has at least that size, and a tile that is
-- larger than asked for is less than 128 pixels wide or less than 128 high.
pub render-IsProper :
    (width height max_tile : ℕ)
    → 64 ≤ width
    → 64 ≤ height
    → All (IsProper max_tile) (render width height max_tile).launches
unfolding render
render-IsProper width height max_tile wide high =
    region-IsProper max_tile width (width_acc width) 0 0 height no_trace wide high tt

-- The statistics are those of the launches: how many tiles there are, modulo 2^32, and bounds for
-- the longer side of each.
pub render-IsCounted : (width height max_tile : ℕ) → IsCounted (render width height max_tile)
unfolding render
render-IsCounted width height max_tile =
    region-IsCounted max_tile width (width_acc width) 0 0 height no_trace
      (record { total = refl; sizes = tt })

abbrev pub one_tile : ℕ → ℕ → Trace
one_tile width height =
    render_tile_region (record { offset_x = 0; offset_y = 0; width = width; height = height })
      no_trace

uncut_region :
    (max_tile w : ℕ) (a : Acc ◌<◌ w) (x y h : ℕ) (t : Trace)
    → subdivides w h max_tile ≡ false
    → render_tile_recursive w a x y h max_tile t
      ≡ render_tile_region (record { offset_x = x; offset_y = y; width = w; height = h }) t
uncut_region max_tile =
    render_tile_rule max_tile
      (λ x y w h t t'.
        subdivides w h max_tile ≡ false
        → t' ≡ render_tile_region (record { offset_x = x; offset_y = y; width = w; height = h }) t)
      (λ x y w h t e e'. refl) (λ x y w h t t1 t2 t3 t4 e q1 q2 q3 q4 e'. absurd (cc))

-- An image less than 128 pixels wide or less than 128 high is traced as one tile, whatever the tile
-- size asked for and however long its other side.
pub render_narrow :
    (width height max_tile : ℕ)
    → (width < 128) ⊎ (height < 128)
    → render width height max_tile ≡ one_tile width height
unfolding render subdivides
render_narrow width height max_tile narrow =
    uncut_region max_tile width (width_acc width) 0 0 height no_trace (ground arith)
