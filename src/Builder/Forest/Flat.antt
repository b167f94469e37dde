-- ===== src/Builder/Forest/Flat.antt =====
-- The scene that a flattened builder gives: its indices point at its vertices, and each triangle has a
-- material.
use pathological_v.Prelude.{◌<◌, length, List, [], ◌∷◌}
use pathological_v.Prelude.Run.{IsSafe}
use pathological_v.Builder.{Glm, SceneBuilder, Flat}
use pathological_v.Builder.Flattening.{IsFlat}
use pathological_v.Builder.Traversal.{no_flat, scene_with, flatten_to_scene}
use pathological_v.Builder.Traversal.Order.{add_visits, scene_visits}
use pathological_v.Builder.Traversal.Flatness.{AreMeshes, FitsCounts, scene_visits-IsFlat}
use pathological_v.Builder.Forest.{IsForest}
use pathological_v.Builder.Forest.Flattens.{flatten_to_scene_visits}

module _ (g : Glm) (b : SceneBuilder g) where
  scene_with-IsSafe :
      (P : Flat g → Type 0) (out : Flat g) (vertices : List g.Vec3)
      → P out
      → IsSafe (λ s. P s.flat) (scene_with g b out vertices)
  scene_with-IsSafe P out [] holds = tt
  scene_with-IsSafe P out (v ∷ vs) holds = holds

  -- A builder with the shape that loading gives and fewer than 2^32 nodes, in which the indices of each
  -- mesh point at its own vertices, three to a triangle, is flattened, or the flattening throws; every
  -- index of the scene is that of a vertex, and there is one material for each three indices, as long as
  -- the vertices and the indices of all visits number less than 2^32.
  pub flatten_to_scene-IsFlat :
      IsForest g b
      → length b.nodes < 4294967296
      → AreMeshes g b
      → FitsCounts g b (add_visits g b (no_flat g b) (scene_visits g b))
      → IsSafe (λ s. IsFlat g s.flat) (flatten_to_scene g b)
  flatten_to_scene-IsFlat forest small good fits = rw (flatten_to_scene_visits g b forest small) (
      scene_with-IsSafe (IsFlat g) (add_visits g b (no_flat g b) (scene_visits g b)) _
        (scene_visits-IsFlat g b good fits))
