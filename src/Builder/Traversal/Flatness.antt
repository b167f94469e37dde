-- ===== src/Builder/Traversal/Flatness.antt =====
-- The scene that all visits make: its indices point at its vertices, and each triangle has a material.
use pathological_v.Prelude.{
  ℕ, ◌+◌, ◌%◌, ◌<◌, ◌≤◌, ◌≡◌, refl, arith, some, none, inl, inr, Option, Option-cases, List, [],
  ◌∷◌, get_elem?, length, length-append, length-map, u32,
}
use pathological_v.Builder.{Glm, MeshData, SceneBuilder, Flat, append_mesh}
use pathological_v.Builder.Flattening.{AllBelow, IsFlat, append_mesh-IsFlat}
use pathological_v.Builder.Traversal.{no_flat}
use pathological_v.Builder.Traversal.Order.{Visit, add_mesh, mesh_of, add_visits, scene_visits}

module _ (g : Glm) (b : SceneBuilder g) where
  -- The indices of each mesh point at its own vertices, three to a triangle.
  abbrev pub AreMeshes : Type 0
  AreMeshes =
      (i : ℕ) (mesh : MeshData g)
      → get_elem? b.meshes i ≡ some mesh
      → AllBelow (length mesh.vertices) mesh.indices × (length mesh.indices % 3 ≡ 0)

  -- A scene is no larger than another.
  record Within (out out' : Flat g) : Type 0 where
    vertices : length out.vertices ≤ length out'.vertices
    indices : length out.indices ≤ length out'.indices

  mesh_of-some :
      (o : Option ℕ) (mesh : MeshData g)
      → mesh_of g b o ≡ some mesh
      → (m : ℕ) × (get_elem? b.meshes m ≡ some mesh)
  mesh_of-some none mesh e = absurd (cc)
  mesh_of-some (some m) mesh e = (m, e)

  append_mesh-sizes :
      (world : g.Mat4) (mesh : MeshData g) (out : Flat g)
      → (length (append_mesh g world mesh out).vertices
          ≡ length out.vertices + length mesh.vertices)
        × (length (append_mesh g world mesh out).indices ≡ length out.indices + length mesh.indices)
  unfolding append_mesh
  append_mesh-sizes world mesh out = (
    omega (arith, length-append out.vertices _, length-map mesh.vertices (g.transform world)),
    omega (
      arith,
      length-append out.indices _,
      length-map mesh.indices (λ idx. u32 (u32 (length out.vertices) + idx)),
    ),
  )

  add_mesh-Within :
      (world : g.Mat4) (out : Flat g) (o : Option (MeshData g))
      → Within out (add_mesh g b world out o)
  add_mesh-Within world out none = record { vertices = omega arith; indices = omega arith }
  add_mesh-Within world out (some mesh) =
      let sizes = append_mesh-sizes world mesh out in
      record { vertices = omega (arith, sizes); indices = omega (arith, sizes) }

  add_visits-Within : (vs : List (Visit g b)) (out : Flat g) → Within out (add_visits g b out vs)
  add_visits-Within [] out = record { vertices = omega arith; indices = omega arith }
  add_visits-Within ((world, node) ∷ vs) out =
      let one = add_mesh-Within world out (mesh_of g b node.mesh) in
      let rest = add_visits-Within vs (add_mesh g b world out (mesh_of g b node.mesh)) in
      record {
        vertices = omega (arith, one.vertices, rest.vertices);
        indices = omega (arith, one.indices, rest.indices);
      }

  -- Vertices and indices are counted in 32 bits.
  abbrev pub FitsCounts : Flat g → Type 0
  FitsCounts out = (length out.vertices < 4294967296) × (length out.indices < 4294967296)

  module _ (good : AreMeshes) where
    add_mesh-IsFlat :
        (world : g.Mat4) (out : Flat g) (o : Option ℕ)
        → FitsCounts (add_mesh g b world out (mesh_of g b o))
        → IsFlat g out
        → IsFlat g (add_mesh g b world out (mesh_of g b o))
    add_mesh-IsFlat world out o fits flat = elim (Option-cases (mesh_of g b o)) [
      | inl bare ↦ rw bare flat
      | inr (mesh, has) ↦
          let (m, there) = mesh_of-some o mesh has in
          let sizes = append_mesh-sizes world mesh out in
          let small = rw has at (fits) in
          rw has (
            append_mesh-IsFlat g world mesh out (good m mesh there).0 (good m mesh there).1
              (omega (arith, sizes, small.0)) (omega (arith, sizes, small.1)) flat)
    ]

    add_visits-IsFlat :
        (vs : List (Visit g b)) (out : Flat g)
        → FitsCounts (add_visits g b out vs)
        → IsFlat g out
        → IsFlat g (add_visits g b out vs)
    add_visits-IsFlat [] out fits flat = flat
    add_visits-IsFlat ((world, node) ∷ vs) out fits flat =
        let next = add_mesh g b world out (mesh_of g b node.mesh) in
        let rest = add_visits-Within vs next in
        add_visits-IsFlat vs next fits (
          add_mesh-IsFlat world out node.mesh
            (omega (arith, rest.vertices, fits.0), omega (arith, rest.indices, fits.1)) flat)

    -- If the indices of each mesh point at its own vertices, three to a triangle, then in the scene of
    -- all visits every index is that of a vertex and there is one material for each three indices, as
    -- long as its vertices and indices number less than 2^32.
    pub scene_visits-IsFlat :
        FitsCounts (add_visits g b (no_flat g b) (scene_visits g b))
        → IsFlat g (add_visits g b (no_flat g b) (scene_visits g b))
    scene_visits-IsFlat fits =
        add_visits-IsFlat (scene_visits g b) (no_flat g b) fits
          (record { in_range = tt; materials = refl })
