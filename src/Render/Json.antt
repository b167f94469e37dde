-- ===== src/Render/Json.antt =====
-- `RenderRequest::toJson`: the object that the HTTP interface shows of a render.
use pathological_v.Prelude.{Bytes, codes, Option, none, some, List, [], ◌∷◌}
use pathological_v.Prelude.Int.{ℤ}
use pathological_v.Render.{RenderStatus, RenderRequest, completed, render_status_to_string, Uuid}

-- The values that the code stores in a `Json::Value`.
pub data Json : Type 0 where
  null : Json
  int : ℤ → Json
  string : Bytes → Json
  strings : List Bytes → Json

pub data JsonObject : Type 0 where
  object : List (Bytes × Json) → JsonObject

-- The two last members depend on the status.
unfoldable pub link_json : RenderStatus → Option Bytes → Json
link_json completed (some link) = string link
link_json completed none = null
link_json _ _ = null

unfoldable pub links_json : RenderStatus → List Bytes → Json
links_json completed links = strings links
links_json _ _ = strings []

-- `uuid_text` is `boost::uuids::to_string`.
unfoldable pub to_json : (Uuid → Bytes) → RenderRequest → JsonObject
unfolding link_json links_json
to_json uuid_text r = object (
    (codes "id", string (uuid_text r.id))
    ∷ (codes "status", string (render_status_to_string r.status))
    ∷ (codes "width", int r.width)
    ∷ (codes "height", int r.height)
    ∷ (codes "frames_per_second", int r.frames_per_second)
    ∷ (codes "animation_runtime", int r.animation_runtime)
    ∷ (codes "frames_completed", int r.frames_completed)
    ∷ (codes "execution_time", int r.execution_time)
    ∷ (codes "samples_per_pixel", int r.samples_per_pixel)
    ∷ (codes "created_at", string r.created_at)
    ∷ (codes "scene_file_url", string r.scene_file_url)
    ∷ (codes "output_filename", string r.output_file_name)
    ∷ (codes "download_link", link_json r.status r.download_link)
    ∷ (codes "download_links", links_json r.status r.download_links)
    ∷ [])
