-- ===== src/SceneGraph/Loads.antt =====
-- From a glTF file to the scene: loading ends, and what it gives is flattened.
use pathological_v.Prelude.{ℕ, ◌<◌, ◌≡◌, refl, inl, inr, none, List, [], ◌∷◌, Bool-cases, Bytes}
use pathological_v.Prelude.Int.{ℤ}
use pathological_v.Prelude.Run.{Ensures, Ensures-bind, Ensures-map}
use pathological_v.Gltf.{Model}
use pathological_v.Gltf.Ends.{int_at-Ends}
use pathological_v.Builder.{Glm, SceneBuilder}
use pathological_v.Builder.Loading.{File, for_each, load_gltf_node}
use pathological_v.Builder.Forest.{IsForest}
use pathological_v.Builder.Forest.Parts.{FitsIds, Extends, Extends-refl, Extends-trans}
use pathological_v.Builder.Forest.Loads.{IsAcyclic, load_gltf_node-Loads}
use pathological_v.Builder.Forest.Flattens.{flatten_to_scene_visits}
use pathological_v.Builder.Traversal.{no_flat, scene_of}
use pathological_v.Builder.Traversal.Order.{add_visits, scene_visits}
use pathological_v.SceneGraph.{
  Loaded, SceneGraph, is_read, with_scenes, load_gltf_file, from_gltf, no_builder, build,
}

-- Every index has a rank below the fuel, and ranks fall from a node to its children.
pub record EndsWithin (fuel : ℕ) {Real : Type 0} (model : Model Real) : Type 0 where
  pub rank : ℤ → ℕ
  pub small : (index : ℤ) → rank index < fuel
  pub acyclic : IsAcyclic model rank

load_gltf_file-model :
    {Real : Type 0} (filename : Bytes) (loaded : Loaded Real)
    → Ensures (λ model. model ≡ loaded.model) (load_gltf_file filename loaded)
unfolding load_gltf_file
load_gltf_file-model filename loaded = elim (Bool-cases (is_read loaded)) [
  | inl read ↦ rw read (scenes loaded.model loaded.model.scenes)
  | inr failed ↦ rw failed tt
]
  where
    scenes :
        {Real : Type 0} (model : Model Real) (ss : List (List ℤ))
        → Ensures (λ m. m ≡ model) (with_scenes model ss)
    scenes model [] = tt
    scenes model (s ∷ ss) = refl

module _ (g : Glm) where
  no_builder-IsForest : IsForest g (no_builder g)
  no_builder-IsForest = record {
    ordered = λ i n e. absurd (cc);
    meshes = λ i n m e has. absurd (cc);
  }

  roots-Extends :
      (fuel : ℕ) (model : File g) (ends : EndsWithin fuel model) (indices : List ℤ)
      (b : SceneBuilder g)
      → Ensures
          (Extends g (Unit {0}) b)
          (for_each g (λ index. load_gltf_node g fuel model index none) indices b)
  roots-Extends fuel model ends [] b = Extends-refl g b
  roots-Extends fuel model ends (i ∷ is) b =
      Ensures-bind (Extends g (Unit {0}) b) (Extends g (Unit {0}) b) _ _
        (load_gltf_node-Loads g model ends.rank ends.acyclic fuel i none b (ends.small i))
        λ b1 k1.
          Ensures-map (Extends g (Unit {0}) b1) (Extends g (Unit {0}) b) _
            (roots-Extends fuel model ends is b1) λ b2 k2. Extends-trans g (λ _ c. c) k1 k2

  -- The scene is that of the visits of the builder's nodes in their order.
  abbrev pub IsBuilt : SceneGraph g → Type 0
  IsBuilt s =
      FitsIds g s.builder
      → build g s
        ≡ scene_of g s.builder
            (add_visits g s.builder (no_flat g s.builder) (scene_visits g s.builder))

  -- A file whose nodes do not run in a circle is loaded with enough fuel, or the loading throws or
  -- reads out of bounds; a scene that was loaded, with fewer than 2^32 nodes and meshes, is flattened
  -- to the meshes of its visits in order, with no read out of bounds and no end of the fuel.
  pub from_gltf_build :
      (fuel : ℕ) (filename : Bytes) (loaded : Loaded g.Real)
      → EndsWithin fuel loaded.model
      → Ensures IsBuilt (from_gltf g fuel filename loaded)
  unfolding from_gltf build
  from_gltf_build fuel filename loaded ends =
      Ensures-bind (λ model. model ≡ loaded.model) IsBuilt _ _
        (load_gltf_file-model filename loaded)
        λ model same.
          Ensures-bind (λ _. Unit) IsBuilt _ _ (int_at-Ends model.scenes model.default_scene)
            λ scene _.
              Ensures-bind (Extends g (Unit {0}) (no_builder g)) IsBuilt _ _
                (roots-Extends fuel model (rw same ends) scene (no_builder g))
                λ b k fits.
                  flatten_to_scene_visits g b (k.forest fits tt no_builder-IsForest) fits.0
