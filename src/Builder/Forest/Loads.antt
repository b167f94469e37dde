-- ===== src/Builder/Forest/Loads.antt =====
-- Loading a glTF file ends if its nodes do not run in a circle, and gives a builder of the shape that
-- flattening needs.
use pathological_v.Prelude.{
  ℕ, zero, suc, ◌<◌, ◌≡◌, refl, inl, inr, some, Option, List, [], ◌∷◌, length, arith, Bool-cases,
  u32,
}
use pathological_v.Prelude.Int.{ℤ}
use pathological_v.Prelude.Run.{Run, done, Ensures, Ensures-bind, Ensures-map}
use pathological_v.Gltf.{GltfNode, Model, int_at}
use pathological_v.Gltf.Ends.{int_at-Ends}
use pathological_v.Builder.{Glm, SceneBuilder}
use pathological_v.Builder.Loading.{File, for_each, load_gltf_node}
use pathological_v.Builder.Forest.Parts.{
  Grown, Extends, Extends-refl, Extends-trans, ParentIn, LoadsOne, load_one-LoadsOne,
}

-- Each of the nodes comes later in the order `rank` than a node of rank `n`.
abbrev pub RankedBelow : (ℤ → ℕ) → ℕ → List ℤ → Type 0
RankedBelow rank n [] = Unit
RankedBelow rank n (c ∷ cs) = (rank c < n) × RankedBelow rank n cs

-- The children of each node of the file have a lower rank: no node is below itself.
abbrev pub IsAcyclic : {Real : Type 0} → Model Real → (ℤ → ℕ) → Type 0
IsAcyclic {Real} model rank =
    (index : ℤ) (node : GltfNode Real)
    → int_at model.nodes index ≡ done node
    → RankedBelow rank (rank index) node.children

Ensures-known : {A : Type 0} (m : Run A) → Ensures (λ _. Unit) m → Ensures (λ a. m ≡ done a) m
Ensures-known (done a) e = refl
Ensures-known (Run.throws t) e = tt
Ensures-known Run.faults e = tt
Ensures-known Run.out_of_fuel e = e

module _ (g : Glm) (model : File g) (rank : ℤ → ℕ) (acyclic : IsAcyclic model rank) where
  abbrev pub Loads : Option ℕ → SceneBuilder g → SceneBuilder g → Type 0
  Loads parent b b' = Extends g (ParentIn g model parent b) b b'

  for_each-Loads :
      (fuel parent n : ℕ) (cs : List ℤ) (b : SceneBuilder g)
      → ((c : ℤ) (b : SceneBuilder g)
          → rank c < n
          → Ensures (Loads (some parent) b) (load_gltf_node g fuel model c (some parent) b))
      → RankedBelow rank n cs
      → Ensures
          (Loads (some parent) b)
          (for_each g (λ child. load_gltf_node g fuel model child (some parent)) cs b)
  for_each-Loads fuel parent n [] b each below = Extends-refl g b
  for_each-Loads fuel parent n (c ∷ cs) b each below =
      Ensures-bind (Loads (some parent) b) (Loads (some parent) b) _ _ (each c b below.0) λ b1 k1.
        Ensures-map (Loads (some parent) b1) (Loads (some parent) b) _
          (for_each-Loads fuel parent n cs b1 each below.1)
          λ b2 k2.
            Extends-trans g
              (λ (grown : Grown g b b1) (inside : parent < length b.nodes).
                omega (arith, grown.more_nodes))
              k1 k2

  pub load_gltf_node-Loads :
      (fuel : ℕ) (index : ℤ) (parent : Option ℕ) (b : SceneBuilder g)
      → rank index < fuel
      → Ensures (Loads parent b) (load_gltf_node g fuel model index parent b)
  unfolding load_gltf_node
  load_gltf_node-Loads zero index parent b enough = absurd (omega arith)
  load_gltf_node-Loads (suc fuel) index parent b enough =
      let P = Loads parent b in
      Ensures-bind (λ node. int_at model.nodes index ≡ done node) P _ _
        (Ensures-known _ (int_at-Ends model.nodes index))
        λ node found.
          Ensures-bind (λ r. LoadsOne g model parent b r.0) P _ _
            (load_one-LoadsOne g model node parent b)
            λ r (bigger, one).
              let node_id = u32 (length b.nodes) in
              elim (Bool-cases r.1) [
                | inl goes_on ↦ rw goes_on (
                    Ensures-map (Loads (some node_id) r.0) P _
                      (for_each-Loads fuel node_id (rank index) node.children r.0
                        (λ c b' below. load_gltf_node-Loads fuel c (some node_id) b' (omega arith))
                        (acyclic index node found))
                      λ b2 k2.
                        Extends-trans g {C = ParentIn g model parent b}
                          {D = node_id < length r.0.nodes} (λ _ _. omega arith) one k2)
                | inr stops ↦ rw stops one
              ]
