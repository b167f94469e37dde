-- ===== src/Builder/Loading/Ends.antt =====
-- Reading the mesh and the material of a primitive ends.
use pathological_v.Prelude.{ℕ, some, none, Option, Bytes}
use pathological_v.Prelude.Int.{ℤ, pos, negsuc}
use pathological_v.Gltf.{ComponentType, unsigned_byte, unsigned_short, unsigned_int, other, Model}
use pathological_v.Builder.{Glm}
use pathological_v.Builder.Loading.{
  convert_gltf_material, position_at, load_vertices, read_indices, load_indices, load_material,
}
use pathological_v.Gltf.Ends.{
  Ends, then, nat_at-Ends, int_at-Ends, accessor_data-Ends, unit_at-Ends, tabulate-Ends,
}

module _ (g : Glm) (model : Model g.Real) where
  pub position_at-Ends : (bytes : Bytes) (i : ℕ) → Ends (position_at g bytes i)
  unfolding position_at
  position_at-Ends bytes i =
      then _ _ (unit_at-Ends 4 bytes _)
        λ x. then _ _ (unit_at-Ends 4 bytes _) λ y. then _ _ (unit_at-Ends 4 bytes _) λ z. tt

  pub load_vertices-Ends : (position : Option ℤ) → Ends (load_vertices g model position)
  unfolding load_vertices
  load_vertices-Ends none = tt
  load_vertices-Ends (some index) = then _ _ (int_at-Ends model.accessors index) λ a.
      then _ _ (accessor_data-Ends model a)
        λ bytes. tabulate-Ends _ 0 a.count (position_at-Ends bytes)

  pub read_indices-Ends :
      (type : ComponentType) (bytes : Bytes) (count : ℕ) → Ends (read_indices g type bytes count)
  unfolding read_indices
  read_indices-Ends unsigned_byte bytes count = tabulate-Ends _ 0 count (unit_at-Ends 1 bytes)
  read_indices-Ends unsigned_short bytes count = tabulate-Ends _ 0 count (unit_at-Ends 2 bytes)
  read_indices-Ends unsigned_int bytes count = tabulate-Ends _ 0 count (unit_at-Ends 4 bytes)
  read_indices-Ends other bytes count = tt

  pub load_indices-Ends : (indices : ℤ) → Ends (load_indices g model indices)
  unfolding load_indices
  load_indices-Ends (negsuc n) = tt
  load_indices-Ends (pos index) = then _ _ (nat_at-Ends model.accessors index) λ a.
      then _ _ (accessor_data-Ends model a)
        λ bytes. read_indices-Ends a.component_type bytes a.count

  pub load_material-Ends : (material : ℤ) → Ends (load_material g model material)
  unfolding load_material convert_gltf_material
  load_material-Ends (negsuc n) = tt
  load_material-Ends (pos index) = then _ _ (nat_at-Ends model.materials index) λ m.
      then _ _ (nat_at-Ends m.base_color_factor 0) λ r.
        then _ _ (nat_at-Ends m.base_color_factor 1) λ gr.
          then _ _ (nat_at-Ends m.base_color_factor 2) λ b.
            then _ _ (nat_at-Ends m.emissive_factor 0) λ x.
              then _ _ (nat_at-Ends m.emissive_factor 1)
                λ y. then _ _ (nat_at-Ends m.emissive_factor 2) λ z. tt
