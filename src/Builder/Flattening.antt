-- ===== src/Builder/Flattening.antt =====
-- The flattened scene: its indices point at its vertices, and each triangle has a material.
use pathological_v.Prelude.{
  ℕ, ◌+◌, ◌*◌, ◌%◌, ◌≤◌, ◌<◌, ◌≡◌, arith, List, [], ◌∷◌, ◌++◌, map, length, length-append,
  length-map, length-replicate, u32,
}
use pathological_v.Builder.{Glm, MeshData, Flat, append_mesh}

abbrev pub AllBelow : ℕ → List ℕ → Type 0
AllBelow n [] = Unit
AllBelow n (i ∷ is) = (i < n) × AllBelow n is

AllBelow-append :
    (m n : ℕ) (is js : List ℕ) → m ≤ n → AllBelow m is → AllBelow n js → AllBelow n (is ++ js)
AllBelow-append m n [] js le a b = b
AllBelow-append m n (i ∷ is) js le a b = (omega (arith, a.0), AllBelow-append m n is js le a.1 b)

AllBelow-shifted :
    (base n : ℕ) (is : List ℕ)
    → base + n < 4294967296
    → AllBelow n is
    → AllBelow (base + n) (map (λ i. u32 (u32 base + i)) is)
AllBelow-shifted base n [] small a = tt
AllBelow-shifted base n (i ∷ is) small a =
    (omega (arith, a.0), AllBelow-shifted base n is small a.1)

-- Every index is that of a vertex, and there is one material for each three indices.
pub record IsFlat (g : Glm) (out : Flat g) : Type 0 where
  pub in_range : AllBelow (length out.vertices) out.indices
  pub materials : length out.material_indices * 3 ≡ length out.indices

-- The mesh of a node whose indices point at its own vertices, three to a triangle, keeps the
-- flattened scene so, as long as vertices and indices stay below 2^32.
pub append_mesh-IsFlat :
    (g : Glm) (world : g.Mat4) (mesh : MeshData g) (out : Flat g)
    → AllBelow (length mesh.vertices) mesh.indices
    → length mesh.indices % 3 ≡ 0
    → length out.vertices + length mesh.vertices < 4294967296
    → length mesh.indices < 4294967296
    → IsFlat g out
    → IsFlat g (append_mesh g world mesh out)
unfolding append_mesh
append_mesh-IsFlat g world mesh out own threes small few flat = record {
  in_range =
      let size = length-append out.vertices (map (g.transform world) mesh.vertices) in
      let same = length-map mesh.vertices (g.transform world) in
      let total : length (out.vertices ++ map (g.transform world) mesh.vertices)
          ≡ length out.vertices + length mesh.vertices =
        omega (arith, size, same) in
      rw total (
        AllBelow-append (length out.vertices) (length out.vertices + length mesh.vertices)
          out.indices _ (omega arith) flat.in_range
          (AllBelow-shifted (length out.vertices) (length mesh.vertices) mesh.indices small own));
  materials = omega (
    arith,
    length-append out.material_indices _,
    length-append out.indices _,
    length-replicate _ mesh.material_id,
    length-map mesh.indices (λ idx. u32 (u32 (length out.vertices) + idx)),
    flat.materials,
  );
}
