-- ===== src/Scenes.antt =====
-- `SceneList` (scheduler/src/scene_list.hpp, scene_list.cpp): the uploaded scenes by name, each with
-- the key of its file in the bucket.
use pathological_v.Prelude.{
  Bytes, bytes_discrete, Bool, true, false, ◌||◌, if◌then◌else◌, none, some, List, [], ◌∷◌,
}
use pathological_v.Prelude.Assoc.{lookup, insert, emplace, erase}
use pathological_v.S3.{is_empty}

abbrev pub SceneList : Type 0
SceneList = List (Bytes × Bytes)

unfoldable pub add_scene : Bytes → Bytes → SceneList → SceneList × Bool
unfolding emplace bytes_discrete
add_scene scene_name scene_file_name scenes =
    if is_empty scene_name || is_empty scene_file_name
    then (scenes, false)
    else (emplace bytes_discrete scene_name scene_file_name scenes, true)

-- `erase` counts what it erased.
unfoldable pub delete_scene : Bytes → SceneList → SceneList × Bool
unfolding erase lookup bytes_discrete
delete_scene scene_name scenes = elim (lookup bytes_discrete scene_name scenes) [
  | none ↦ (erase bytes_discrete scene_name scenes, false)
  | some key ↦ (erase bytes_discrete scene_name scenes, true)
]

-- The empty string for a name that is not there.
unfoldable pub find_scene_by_key : Bytes → SceneList → Bytes
unfolding lookup bytes_discrete
find_scene_by_key scene_name scenes = elim (lookup bytes_discrete scene_name scenes) [
  | none ↦ []
  | some key ↦ key
]

-- A JSON object of strings: each assignment to a key replaces what was there.
unfoldable pub scenes_to_json : SceneList → SceneList
unfolding insert bytes_discrete
scenes_to_json scenes = assign_keys scenes []
  where
    assign_keys : SceneList → SceneList → SceneList
    assign_keys [] json = json
    assign_keys ((key, value) ∷ rest) json = assign_keys rest (insert bytes_discrete key value json)
