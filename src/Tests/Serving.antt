-- ===== src/Tests/Serving.antt =====
-- The theorems on uploads, on the HTTP handlers and on the render worker at concrete states.
use pathological_v.Prelude.{
  ◌≡◌, refl, Bytes, bytes_discrete, codes, true, false, Option, none, some, [], ◌∷◌, length,
}
use pathological_v.Prelude.Assoc.{lookup, insert, lookup-insert_self, lookup-insert_ne}
use pathological_v.Prelude.Int.{ℤ, pos}
use pathological_v.Prelude.Result.{ok}
use mathlib.Core.Option
use pathological_v.Scheduler.{of_int}
use pathological_v.Scheduler.Complete.{frame_key}
use pathological_v.S3.{
  Files, Os, S3Client, IsStore, upload_scene, get_object, put_object, read_file,
}
use pathological_v.S3.Uploads.{upload_scene-get_object}
use pathological_v.Scenes.{SceneList, scenes_to_json}
use pathological_v.Controller.{
  created, bad_request, RenderPayload, SceneStore, ScenePayload, create_render_request, store_scene,
  upload_scene_file, list_scene,
}
use pathological_v.Controller.Requests.{Requested, create_render_request_outcome}
use pathological_v.Controller.Uploads.{IsStored, store_scene-stores, unnamed_is_kept}
use pathological_v.Worker.{
  Job, in_progress, Machine, WorkerState, Handled, completed, fetch_job_status, ok_status,
  generate_scene, render_job,
}
use pathological_v.Worker.Jobs.{IsEnded, render_job_ends, upload_is_not_awaited}
use pathological_v.Tests.{world, two_frames, started}

-- A bucket is a map. An object of an unknown text is stored as an empty one.
abbrev pub or_empty : Option Bytes → Bytes
or_empty none = []
or_empty (some content) = content

abbrev pub sized : Bytes → Bytes × ℤ
sized content = (content, pos (length content))

abbrev pub store_client : S3Client Files
unfolding lookup insert bytes_discrete
store_client = record {
  head_object = λ b key. elim (lookup bytes_discrete key b) [ none ↦ false | some content ↦ true ];
  get_object = λ b key. Option.map sized (lookup bytes_discrete key b);
  put_object = λ b key body. (insert bytes_discrete key (or_empty body) b, true);
}

pub store_client-IsStore : IsStore store_client
unfolding store_client
store_client-IsStore = record {
  get_put = λ b key body e. rw (lookup-insert_self bytes_discrete key body b) refl;
  get_put_other = λ b key other body ne.
      rw (lookup-insert_ne bytes_discrete key other (or_empty body) b ne) refl;
}

abbrev pub plain_os : Os
plain_os = record {
  opens = λ path. true;
  writes = λ path content. true;
  remains = λ path content. [];
  temp_directory = some (codes "/tmp");
}

uploaded : (upload_scene store_client plain_os (codes "{}") (codes "a.gltf") [] []).2 ≡ true
unfolding upload_scene
uploaded = refl

upload_scene-get_object_example :
    let done = upload_scene store_client plain_os (codes "{}") (codes "a.gltf") [] [] in
    ((get_object store_client plain_os (codes "a.gltf") (codes "out") done.1 done.0).1 ≡ true)
    × (read_file
          (codes "out")
          (get_object store_client plain_os (codes "a.gltf") (codes "out") done.1 done.0).0
        ≡ some (codes "{}"))
upload_scene-get_object_example =
    upload_scene-get_object store_client plain_os store_client-IsStore (codes "{}") (codes "a.gltf")
      (codes "out") [] [] uploaded refl refl

abbrev no_scenes : SceneStore Files
no_scenes = record { scenes = []; files = []; bucket = [] }

none_listed : (name : Bytes) → lookup bytes_discrete name no_scenes.scenes ≡ none
unfolding lookup
none_listed name = refl

box_created :
    (store_scene store_client plain_os (codes "{}") (codes "box.gltf") (codes "box") no_scenes).1
    ≡ created ((codes "box", codes "box.gltf") ∷ [])
unfolding store_scene upload_scene list_scene
box_created = refl

store_scene-stores_example :
    IsStored store_client plain_os
      (codes "box")
      (codes "box.gltf")
      (codes "{}")
      (store_scene store_client plain_os (codes "{}") (codes "box.gltf") (codes "box") no_scenes).0
    × (◌≡◌ {A = SceneList} ((codes "box", codes "box.gltf") ∷ []) (
        scenes_to_json
          (store_scene store_client plain_os
            (codes "{}")
            (codes "box.gltf")
            (codes "box")
            no_scenes).0.scenes))
store_scene-stores_example =
    store_scene-stores store_client plain_os (codes "{}") (codes "box.gltf") (codes "box") no_scenes
      ((codes "box", codes "box.gltf") ∷ []) store_client-IsStore (none_listed (codes "box"))
      box_created

abbrev unnamed : ScenePayload
unnamed = record {
  scene_data = ok (codes "{}");
  scene_file_name = ok (codes "a.gltf");
  scene_name = ok [];
}

unnamed_is_kept_example :
    let outcome = upload_scene_file store_client plain_os (some unnamed) no_scenes in
    (outcome.1 ≡ bad_request (codes "Internal scene list failed to update"))
    × (outcome.0.scenes ≡ [])
    × (store_client.get_object outcome.0.bucket (codes "a.gltf") ≡ some (codes "{}", pos 2))
unnamed_is_kept_example =
    unnamed_is_kept store_client plain_os (codes "{}") (codes "a.gltf") no_scenes
      store_client-IsStore (none_listed []) uploaded

abbrev box_render : RenderPayload
box_render = record {
  width = ok (pos 64);
  height = ok (pos 64);
  frames_per_second = ok (pos 24);
  animation_runtime = ok (pos 2);
  samples_per_pixel = ok (pos 1);
  scene_file_url = ok (codes "a.gltf");
  output_filename = ok (codes "o");
}

create_render_request_outcome_example : Requested world (codes "bad") 7 9 (started two_frames) (
    create_render_request world
      (some box_render)
      (codes "bad")
      (codes "now")
      7
      9
      (started two_frames))
create_render_request_outcome_example =
    create_render_request_outcome world (some box_render) (codes "bad") (codes "now") 7 9
      (started two_frames)

abbrev pub machine : Machine
machine = record {
  os = plain_os;
  filename = λ path. path;
  trace = λ job content. ok (codes "png");
  remove_error = λ path. none;
}

abbrev frame : Job
frame = record {
  width = 64;
  height = 64;
  samples = 1;
  gltf_file = codes "a.gltf";
  output = codes "o";
  time = of_int (pos 0);
  frame_index = 0;
  status = in_progress;
}

abbrev pub worker_state : WorkerState Files
worker_state = record { jobs = []; files = []; bucket = (codes "a.gltf", codes "{}") ∷ [] }

render_job_ends_example :
    IsEnded
      (codes "j")
      worker_state
      (render_job store_client machine (codes "j") frame worker_state)
render_job_ends_example = render_job_ends store_client machine (codes "j") frame worker_state

frame_traced :
    generate_scene store_client machine frame [] worker_state.bucket
    ≡ ((codes "o", codes "png") ∷ [], ok tt)
unfolding generate_scene
frame_traced = refl

upload_is_not_awaited_example :
    (h : Handled Files) × (render_job store_client machine (codes "j") frame worker_state ≡ some h)
    × (h.status ≡ ok_status)
    × (h.reported ≡ codes "j" ∷ [])
    × (fetch_job_status (codes "j") h.state.jobs ≡ some completed)
    × (h.state.bucket
        ≡ (put_object store_client
            (codes "o")
            (frame_key (codes "o") 0)
            true
            ((codes "o", codes "png") ∷ [])
            worker_state.bucket).0)
upload_is_not_awaited_example =
    upload_is_not_awaited store_client machine (codes "j") frame worker_state
      ((codes "o", codes "png") ∷ []) frame_traced refl
