-- ===== src/SceneGraph.antt =====
-- `SceneGraph` (render_worker/src/scene_graph.hpp, scene_graph.cpp): a glTF file as a builder with its
-- first animation, and the samples of the animation at a time.
pub mod Keyframes
pub mod Loads
use pathological_v.Prelude.{
  ℕ, zero, suc, ◌+◌, ◌-◌, ◌*◌, ◌≡◌, Bytes, bytes_discrete, codes, ite, Bool, true, false, Option,
  none, some, List, [], ◌∷◌, ◌++◌, ◌==◌, if◌then◌else◌,
}
use pathological_v.Prelude.Int.{ℤ, to_u32}
use pathological_v.Prelude.Run.{Run, done, throws, faults, ◌>>=◌, of_result}
use pathological_v.Gltf.{
  Accessor, AnimationSampler, AnimationChannel, Animation, Model, int_at, accessor_data, unit_at,
}
use pathological_v.Builder.{
  Glm, SceneBuilder, set_node_translation, set_node_rotation, set_node_scale,
}
use pathological_v.Builder.Loading.{File, for_each, load_gltf_node}
use pathological_v.Builder.Traversal.{SceneData, flatten_to_scene}

-- What tinygltf says of a file: whether it was read, its error text, and its model.
pub record Loaded (Real : Type 0) : Type 0 where
  pub success : Bool
  pub err : Bytes
  pub model : Model Real

abbrev pub with_scenes : {Real : Type 0} → Model Real → List (List ℤ) → Run (Model Real)
with_scenes model [] = throws (codes "glTF file has no scenes")
with_scenes model (scene ∷ scenes) = done model

-- `!success || !err.empty()`
abbrev pub is_read : {Real : Type 0} → Loaded Real → Bool
is_read l = elim l.err [ [] ↦ l.success | c ∷ cs ↦ false ]

unfoldable pub load_gltf_file : {Real : Type 0} → Bytes → Loaded Real → Run (Model Real)
load_gltf_file filename loaded =
    if is_read loaded
    then with_scenes loaded.model loaded.model.scenes
    else throws (codes "Failed to load glTF file '" ++ filename ++ codes "': " ++ loaded.err)

module _ (g : Glm) where
  pub record SceneGraph : Type 0 where
    pub builder : SceneBuilder g
    pub animation : Option (Animation g.Real)
    pub model : File g

  abbrev no_builder : SceneBuilder g
  no_builder = record { nodes = []; meshes = []; materials = [] }

  abbrev first_animation : List (Animation g.Real) → Option (Animation g.Real)
  first_animation [] = none
  first_animation (a ∷ rest) = some a

  -- The fuel is that of the loading of the nodes.
  unfoldable pub from_gltf : ℕ → Bytes → Loaded g.Real → Run SceneGraph
  unfolding load_gltf_file load_gltf_node
  from_gltf fuel filename loaded = load_gltf_file filename loaded >>= λ model.
      int_at model.scenes model.default_scene >>= λ scene.
      for_each g (λ index. load_gltf_node g fuel model index none) scene no_builder >>= λ b.
      done (record { builder = b; animation = first_animation model.animations; model = model })

  unfoldable pub build : SceneGraph → Run (SceneData g)
  unfolding flatten_to_scene
  build s = flatten_to_scene g s.builder

  -- The key frames of a channel: how many there are, the time of each, and its value.
  pub record Keys (V : Type 0) : Type 0 where
    pub count : ℕ
    pub time_at : ℕ → Run g.Real
    pub value_at : ℕ → Run V

  -- The loop over the pairs of neighbours from `i` on, `left` of them.
  unfoldable pub search : {V : Type 0} → Keys V → (V → V → g.Real → V) → V → g.Real → ℕ → ℕ → Run V
  search keys blend default time i zero = done default
  search keys blend default time i (suc left) =
      let rest = search keys blend default time (suc i) left in
      keys.time_at i >>= λ t0.
      (if g.at_most t0 time
        then (keys.time_at (suc i) >>= λ t1.
            (if g.at_most time t1
              then (keys.value_at i >>= λ v0. keys.value_at (suc i) >>= λ v1.
                  done (blend v0 v1 (g.over (g.minus time t0) (g.minus t1 t0))))
              else rest))
        else rest)

  unfoldable pub sample : {V : Type 0} → Keys V → (V → V → g.Real → V) → V → g.Real → Run V
  unfolding search
  sample keys blend default time =
      if keys.count == 0
      then done default
      else keys.time_at 0 >>= λ first.
          (if g.at_most time first
            then keys.value_at 0
            else keys.time_at (keys.count - 1) >>= λ last.
                (if g.at_most last time
                  then keys.value_at (keys.count - 1)
                  else search keys blend default time 0 (keys.count - 1)))

  -- `values[3 * i]` and the two behind it.
  unfoldable pub vec3_at : Bytes → ℕ → Run g.Vec3
  vec3_at bytes i = unit_at 4 bytes (i * 3) >>= λ x. unit_at 4 bytes (i * 3 + 1) >>= λ y.
      unit_at 4 bytes (i * 3 + 2) >>= λ z. done (g.vec3 (g.real x) (g.real y) (g.real z))

  -- The file has the scalar part of a rotation last.
  unfoldable pub quat_at : Bytes → ℕ → Run g.Quat
  quat_at bytes i = unit_at 4 bytes (i * 4 + 3) >>= λ w. unit_at 4 bytes (i * 4) >>= λ x.
      unit_at 4 bytes (i * 4 + 1) >>= λ y.
      unit_at 4 bytes (i * 4 + 2) >>= λ z. done (g.quat (g.real w) (g.real x) (g.real y) (g.real z))

  -- The accessors of a sampler, and their data.
  unfoldable pub channel_keys :
      {V : Type 0} → (Bytes → ℕ → Run V) → File g → Animation g.Real → ℤ → Run (Keys V)
  unfolding accessor_data
  channel_keys value_at model anim sampler_idx = int_at anim.samplers sampler_idx >>= λ sampler.
      int_at model.accessors sampler.input >>= λ input. accessor_data model input >>= λ times.
      int_at model.accessors sampler.output >>= λ output. accessor_data model output >>= λ values.
      done (record {
        count = input.count;
        time_at = λ i. unit_at 4 times i >>= λ t. done (g.real t);
        value_at = value_at values;
      })

  unfoldable pub sample_vec3_channel : File g → Animation g.Real → ℤ → g.Real → Run g.Vec3
  unfolding channel_keys vec3_at sample
  sample_vec3_channel model anim sampler_idx time =
      channel_keys vec3_at model anim sampler_idx >>= λ keys. sample keys g.mix g.zeros time

  unfoldable pub sample_quat_channel : File g → Animation g.Real → ℤ → g.Real → Run g.Quat
  unfolding channel_keys quat_at sample
  sample_quat_channel model anim sampler_idx time =
      channel_keys quat_at model anim sampler_idx >>= λ keys. sample keys g.slerp g.no_rotation time

  -- One channel of the animation. Its node becomes a `NodeId` by a cast.
  unfoldable pub apply_channel :
      File g
      → Animation g.Real
      → g.Real
      → AnimationChannel g.Real
      → SceneBuilder g
      → Run (SceneBuilder g)
  unfolding sample_vec3_channel sample_quat_channel set_node_translation set_node_rotation
      set_node_scale bytes_discrete
  apply_channel model anim time channel b =
      ite (bytes_discrete channel.target_path (codes "translation"))
        (sample_vec3_channel model anim channel.sampler time >>= λ v.
          of_result (set_node_translation g (to_u32 channel.target_node) v b))
        (ite (bytes_discrete channel.target_path (codes "rotation"))
          (sample_quat_channel model anim channel.sampler time >>= λ q.
            of_result (set_node_rotation g (to_u32 channel.target_node) q b))
          (ite (bytes_discrete channel.target_path (codes "scale"))
            (sample_vec3_channel model anim channel.sampler time >>= λ v.
              of_result (set_node_scale g (to_u32 channel.target_node) v b))
            (done b)))

  unfoldable pub apply_channels :
      File g
      → Animation g.Real
      → g.Real
      → List (AnimationChannel g.Real)
      → SceneBuilder g
      → Run (SceneBuilder g)
  unfolding apply_channel
  apply_channels model anim time [] b = done b
  apply_channels model anim time (channel ∷ rest) b =
      apply_channel model anim time channel b >>= λ b'. apply_channels model anim time rest b'

  unfoldable pub update_animation : g.Real → SceneGraph → Run SceneGraph
  unfolding apply_channels
  update_animation time s = elim s.animation [
    | none ↦ done s
    | some anim ↦ apply_channels s.model anim time anim.channels s.builder >>= λ b.
        done (record s { builder = b })
  ]
