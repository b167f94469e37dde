-- ===== src/Builder/Forest.antt =====
-- The shape that makes the flattening of a builder end: children come after their parent, and the
-- meshes that nodes name are there.
pub mod Modify
pub mod Kept
pub mod Parts
pub mod Loads
pub mod Flattens
pub mod Flat
use pathological_v.Prelude.{All, ℕ, ◌<◌, ◌≤◌, ◌≡◌, some, List, [], ◌∷◌, get_elem?, length}
use pathological_v.Builder.{Glm, Node, SceneBuilder}

-- The ids of children of the node `i` among `size` nodes.
abbrev pub AreChildren : ℕ → ℕ → List ℕ → Type 0
AreChildren i size cs = All (λ c. (i < c) × (c < size)) cs

pub record IsForest (g : Glm) (b : SceneBuilder g) : Type 0 where
  pub ordered :
      (i : ℕ) (n : Node g)
      → get_elem? b.nodes i ≡ some n
      → AreChildren i (length b.nodes) n.children
  pub meshes :
      (i : ℕ) (n : Node g) (m : ℕ)
      → get_elem? b.nodes i ≡ some n
      → n.mesh ≡ some m
      → m < length b.meshes
