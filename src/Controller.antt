-- ===== src/Controller.antt =====
-- The HTTP handlers (scheduler/src/requestController.hpp, requestController.cpp). Drogon and its
-- JSON reader are outside: a payload is what `getJsonObject` and the conversions of its fields give.
pub mod Requests
pub mod Uploads
use pathological_v.Prelude.{
  ℕ, ◌≡◌, Bytes, codes, Bool, true, false, Option, none, some, List, [], ◌∷◌, ◌++◌, map, ◌==◌, not,
  if◌then◌else◌,
}
use pathological_v.Prelude.Int.{ℤ}
use pathological_v.Prelude.Result.{Result, ok, throws, ◌>>=◌}
use pathological_v.Render.{
  Uuid, RenderRequest, new_render_request, in_queue, set_status, set_width, set_height,
  set_frames_per_second, set_animation_runtime_in_frames, set_samples_per_pixel,
  set_created_at_timestamp, set_scene_file_url, set_output_file_name,
}
use pathological_v.Render.Json.{JsonObject, to_json}
use pathological_v.Render.History.{Ptr, store, get_render_request, get_all_renders, add_render}
use pathological_v.Scheduler.{System, External}
use pathological_v.Scheduler.Jobs.{add_job}
use pathological_v.S3.{Files, Os, S3Client, upload_scene, is_empty}
use pathological_v.Scenes.{SceneList, add_scene, find_scene_by_key, scenes_to_json}

-- A response: its JSON with the status code 200, 201, or 400 and the error's text. `crashes` is the
-- use of a null pointer, `raises` an exception that leaves the handler.
pub data Response (A : Type 0) : Type 0 where
  responds : A → Response A
  created : A → Response A
  bad_request : Bytes → Response A
  raises : Bytes → Response A
  crashes : Response A

-- `render->toJson()` for what `getRenderRequest` found.
abbrev pub render_json : External → System → Option Ptr → Response JsonObject
render_json x s none = crashes
render_json x s (some p) = responds (to_json x.uuid_text (s.renders.heap p))

unfoldable pub get_status : External → Bytes → System → Response JsonObject
unfolding get_render_request
get_status x id s = elim (x.uuid_parse id) [
  | none ↦ raises (x.parse_error id)
  | some uuid ↦ render_json x s (get_render_request uuid s.renders)
]

unfoldable pub list_renders : External → System → Response (List JsonObject)
unfolding get_all_renders
list_renders x s =
    responds (map (λ p. to_json x.uuid_text (s.renders.heap p)) (get_all_renders s.renders))

-- The fields of a render's payload; a conversion throws where the JSON has another type.
pub record RenderPayload : Type 0 where
  pub width : Result ℤ
  pub height : Result ℤ
  pub frames_per_second : Result ℤ
  pub animation_runtime : Result ℤ
  pub samples_per_pixel : Result ℤ
  pub scene_file_url : Result Bytes
  pub output_filename : Result Bytes

-- The chain of setters on a new request.
unfoldable pub fill_request : RenderPayload → Bytes → RenderRequest → Result RenderRequest
unfolding set_width set_height set_frames_per_second set_animation_runtime_in_frames
fill_request payload timestamp r0 = payload.width >>= λ w. set_width w r0 >>= λ r1.
    payload.height >>= λ h. set_height h r1 >>= λ r2. payload.frames_per_second >>= λ fps.
    set_frames_per_second fps (set_status in_queue r2) >>= λ r3.
    payload.animation_runtime >>= λ frames. set_animation_runtime_in_frames frames r3 >>= λ r4.
    payload.samples_per_pixel >>= λ samples. payload.scene_file_url >>= λ url.
    payload.output_filename >>= λ output. ok (
      set_output_file_name output (
        set_scene_file_url url
          (set_created_at_timestamp timestamp (set_samples_per_pixel samples r4))))

-- `std::make_shared` gave the address `p`.
abbrev pub place : Ptr → RenderRequest → System → System
place p r s = record s { renders = record s.renders { heap = store p r s.renders.heap } }

-- The request is put into the history and its frames into the queue.
unfoldable pub accept : External → Ptr → RenderRequest → System → System × Response JsonObject
unfolding add_render add_job
accept x p r s =
    let placed = place p r s in
    let t = add_job x p (record placed { renders = (add_render (some p) placed.renders).0 }) in
    (t, created (to_json x.uuid_text (t.renders.heap p)))

-- `json_error` is what the framework says of a body that is no JSON; `id` is the new request's.
unfoldable pub create_render_request :
    External
    → Option RenderPayload
    → Bytes
    → Bytes
    → Ptr
    → Uuid
    → System
    → System × Response JsonObject
unfolding fill_request
create_render_request x none json_error timestamp p id s = (s, bad_request json_error)
create_render_request x (some payload) json_error timestamp p id s =
    elim (fill_request payload timestamp (new_render_request id)) [
      | throws e ↦ (s, bad_request e)
      | ok r ↦ accept x p r s
    ]

pub record ScenePayload : Type 0 where
  pub scene_data : Result Bytes
  pub scene_file_name : Result Bytes
  pub scene_name : Result Bytes

-- `std::replace`
unfoldable pub replace : ℕ → ℕ → Bytes → Bytes
replace old new [] = []
replace old new (c ∷ cs) = (if c == old then new else c) ∷ replace old new cs

-- `std::remove` with `erase`
unfoldable pub remove : ℕ → Bytes → Bytes
remove old [] = []
remove old (c ∷ cs) = let rest = remove old cs in if c == old then rest else c ∷ rest

-- The key under which a scene is stored. A space is 32, a slash 47, a dot 46, `_` 95 and `-` 45.
unfoldable pub scene_name_s3 : Bytes → Bytes → Bytes
unfolding replace remove
scene_name_s3 scene_name scene_file_name =
    if is_empty scene_name
    then scene_file_name
    else remove 46 (replace 47 45 (replace 32 95 scene_name)) ++ codes ".gltf"

-- The scene list, the files of the scheduler's machine, and the bucket.
pub record SceneStore (B : Type 0) : Type 0 where
  pub scenes : SceneList
  pub files : Files
  pub bucket : B

unfoldable pub list_scene :
    {B : Type 0} → Bytes → Bytes → SceneStore B → SceneStore B × Response SceneList
unfolding add_scene scenes_to_json
list_scene scene_name key s =
    let listed = add_scene scene_name key s.scenes in
    if listed.1 then (record s { scenes = listed.0 }, created (scenes_to_json listed.0)) else (
      record s { scenes = listed.0 },
      bad_request (codes "Internal scene list failed to update"),
    )

-- The handler after the upload.
abbrev pub after_upload :
    {B : Type 0}
    → Bytes
    → Bytes
    → SceneStore B
    → Files × B × Bool
    → SceneStore B × Response SceneList
after_upload scene_name key s (fs, b, false) =
    (record s { files = fs; bucket = b }, bad_request (codes "Failed to upload to S3 bucket"))
after_upload scene_name key s (fs, b, true) =
    list_scene scene_name key (record s { files = fs; bucket = b })

unfoldable pub store_scene :
    {B : Type 0}
    → S3Client B
    → Os
    → Bytes
    → Bytes
    → Bytes
    → SceneStore B
    → SceneStore B × Response SceneList
unfolding upload_scene find_scene_by_key
store_scene c os content key scene_name s =
    if not (is_empty (find_scene_by_key scene_name s.scenes))
    then (s, bad_request (codes "A scene with this name already exists"))
    else after_upload scene_name key s (upload_scene c os content key s.files s.bucket)

abbrev pub read_payload : ScenePayload → Result (Bytes × Bytes × Bytes)
read_payload payload = payload.scene_data >>= λ content. payload.scene_file_name >>= λ file_name.
    payload.scene_name >>= λ name. ok (content, file_name, name)

unfoldable pub upload_scene_file :
    {B : Type 0}
    → S3Client B
    → Os
    → Option ScenePayload
    → SceneStore B
    → SceneStore B × Response SceneList
unfolding scene_name_s3 store_scene
upload_scene_file c os none s = (s, bad_request (codes "Bad/malformed payload"))
upload_scene_file c os (some payload) s = elim (read_payload payload) [
  | throws e ↦ (s, bad_request e)
  | ok (content, file_name, name) ↦ store_scene c os content (scene_name_s3 name file_name) name s
]

unfoldable pub get_scene_list : SceneList → Response SceneList
unfolding scenes_to_json
get_scene_list scenes = responds (scenes_to_json scenes)
