-- ===== src/Tests/Building.antt =====
-- The theorems on the scene builder at a concrete scene, with numbers for vectors and matrices.
use pathological_v.Prelude.{leb, ℕ, ◌+◌, ◌≡◌, refl, none, [], ◌∷◌, arith}
use pathological_v.Prelude.Result.{ok}
use pathological_v.Builder.{Glm, MeshData, Flat, SceneBuilder, append_mesh, set_local_transform}
use pathological_v.Builder.Flattening.{IsFlat, append_mesh-IsFlat}

abbrev pub numbers : Glm
numbers = record {
  Real = ℕ;
  Vec3 = ℕ;
  Quat = ℕ;
  Mat4 = ℕ;
  real = λ n. n;
  at_most = leb;
  minus = λ a b. a;
  over = λ a b. a;
  mix = λ a b t. a;
  slerp = λ a b t. a;
  vec3 = λ x y z. x + y + z;
  quat = λ w x y z. w + x + y + z;
  make_mat4 = λ m. 0;
  light_grey = 8;
  zeros = 0;
  ones = 1;
  no_rotation = 0;
  identity = 0;
  translate = λ v. v;
  mat4_cast = λ q. q;
  scale = λ v. v;
  times = λ a b. a + b;
  transform = λ m v. m + v;
}

abbrev pub triangle : MeshData numbers
triangle = record { vertices = 1 ∷ 2 ∷ 3 ∷ []; indices = 0 ∷ 1 ∷ 2 ∷ []; material_id = 0 }

abbrev nothing_yet : Flat numbers
nothing_yet = record { vertices = []; indices = []; material_indices = [] }

append_mesh-IsFlat_example : IsFlat numbers (append_mesh numbers 5 triangle nothing_yet)
append_mesh-IsFlat_example =
    append_mesh-IsFlat numbers 5 triangle nothing_yet
      (omega arith, (omega arith, (omega arith, tt))) refl (omega arith) (omega arith)
      (record { in_range = tt; materials = refl })

abbrev one_node : ℕ → SceneBuilder numbers
one_node transform = record {
  nodes =
      record {
        name = [];
        local_transform = transform;
        parent = none;
        children = [];
        mesh = none;
        translation = 0;
        rotation = 0;
        scale = 1;
      }
      ∷ [];
  meshes = [];
  materials = [];
}

transformed : set_local_transform numbers 0 7 (one_node 0) ≡ ok (one_node 7)
unfolding set_local_transform
transformed = refl
