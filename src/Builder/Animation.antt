-- ===== src/Builder/Animation.antt =====
-- A key frame of an animation on a node whose transform came from the file.
use pathological_v.Prelude.{ℕ, ◌≡◌, refl, ap, List, [], ◌∷◌, length, leb, Bool-cases, inl, inr}
use pathological_v.Prelude.Result.{ok}
use pathological_v.Builder.Forest.Modify.{length-modify}
use pathological_v.Builder.{
  Glm, Node, SceneBuilder, modify, set_local_transform, set_node_translation,
}

module _ (g : Glm) where
  modify-modify :
      (i : ℕ) (f h : Node g → Node g) (ns : List (Node g))
      → ((n : Node g) → f (h n) ≡ f n)
      → modify g i f (modify g i h ns) ≡ modify g i f ns
  modify-modify i f h [] same = refl
  modify-modify ℕ.zero f h (n ∷ ns) same = ap (λ m. m ∷ ns) (same n)
  modify-modify (ℕ.suc i) f h (n ∷ ns) same = ap (λ ms. n ∷ ms) (modify-modify i f h ns same)

-- A translation that an animation sets forgets the transform that was set on the node before: the
-- outcome is that of the translation alone.
pub set_node_translation_forgets :
    (g : Glm) (node : ℕ) (t : g.Mat4) (v : g.Vec3) (b b' : SceneBuilder g)
    → set_local_transform g node t b ≡ ok b'
    → set_node_translation g node v b' ≡ set_node_translation g node v b
unfolding set_local_transform set_node_translation
set_node_translation_forgets g node t v b b' e = elim (Bool-cases (leb (length b.nodes) node)) [
  | inl out ↦ absurd (cc (rw (out, set_local_transform) at (e)))
  | inr inside ↦
      let same : b'
          ≡ record b { nodes = modify g node (λ n. record n { local_transform = t }) b.nodes } =
        cc (rw (inside, set_local_transform) at (e)) in
      rw
        (
          same,
          set_node_translation,
          length-modify g node (λ n. record n { local_transform = t }) b.nodes,
          inside,
        )
        (ap (λ ns. ok (record b { nodes = ns })) (modify-modify g node _ _ b.nodes (λ n. refl)))
]
