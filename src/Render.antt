-- ===== src/Render.antt =====
-- `RenderRequest` (scheduler/src/renderRequest.hpp, renderRequest.cpp) and `RenderStatus`
-- (renderStatus.hpp): the record of one submitted render, and its setters.
pub mod Json
pub mod History
use pathological_v.Prelude.{
  ℕ, ◌≡◌, Bytes, codes, Bool, true, false, Option, none, some, List, [], ◌∷◌,
}
use pathological_v.Prelude.Int.{ℤ, pos, is_negative}
use pathological_v.Prelude.Result.{Result, ok, throw_if, ◌>>=◌, ◌>>◌}

pub data RenderStatus : Type 0 where
  completed in_progress in_queue error : RenderStatus

unfoldable pub render_status_to_string : RenderStatus → Bytes
render_status_to_string completed = codes "Completed"
render_status_to_string in_progress = codes "In Progress"
render_status_to_string in_queue = codes "In Queue"
render_status_to_string error = codes "Error"

-- A `boost::uuids::uuid` is a 128-bit number.
abbrev pub Uuid : Type 0
Uuid = ℕ

pub record RenderRequest : Type 0 where
  pub id : Uuid
  pub status : RenderStatus
  pub width : ℤ
  pub height : ℤ
  pub frames_per_second : ℤ
  pub animation_runtime : ℤ
  pub frames_completed : ℤ
  pub execution_time : ℤ
  pub samples_per_pixel : ℤ
  pub scene_file_url : Bytes
  pub created_at : Bytes
  pub output_file_name : Bytes
  pub download_link : Option Bytes
  pub download_links : List Bytes

-- The default constructor; `id` is what the class's generator gives.
unfoldable pub new_render_request : Uuid → RenderRequest
new_render_request id = record {
  id = id;
  status = in_queue;
  width = pos 0;
  height = pos 0;
  frames_per_second = pos 0;
  animation_runtime = pos 0;
  frames_completed = pos 0;
  execution_time = pos 0;
  samples_per_pixel = pos 0;
  scene_file_url = [];
  created_at = [];
  output_file_name = [];
  download_link = none;
  download_links = [];
}

unfoldable pub set_status : RenderStatus → RenderRequest → RenderRequest
set_status s r = record r { status = s }

unfoldable pub set_width : ℤ → RenderRequest → Result RenderRequest
set_width w r = do
  throw_if (is_negative w) (codes "Width must be greater than or equal to zero.")
  ok (record r { width = w })

unfoldable pub set_height : ℤ → RenderRequest → Result RenderRequest
set_height h r = do
  throw_if (is_negative h) (codes "Height must be greater than or equal to zero.")
  ok (record r { height = h })

unfoldable pub set_frames_per_second : ℤ → RenderRequest → Result RenderRequest
set_frames_per_second fps r = do
  throw_if (is_negative fps) (codes "Frames per second must be greater than 0.")
  ok (record r { frames_per_second = fps })

unfoldable pub set_animation_runtime_in_frames : ℤ → RenderRequest → Result RenderRequest
set_animation_runtime_in_frames frames r = do
  throw_if (is_negative frames) (codes "Frames must be greater than zero.")
  ok (record r { animation_runtime = frames })

unfoldable pub set_frames_completed : ℤ → RenderRequest → Result RenderRequest
set_frames_completed frames r = do
  throw_if (is_negative frames) (codes "Frames must be greater than zero.")
  ok (record r { frames_completed = frames })

unfoldable pub set_execution_time : ℤ → RenderRequest → Result RenderRequest
set_execution_time seconds r = do
  throw_if (is_negative seconds) (codes "Seconds must be greater than or equal to zero.")
  ok (record r { execution_time = seconds })

unfoldable pub set_samples_per_pixel : ℤ → RenderRequest → RenderRequest
set_samples_per_pixel s r = record r { samples_per_pixel = s }

unfoldable pub set_scene_file_url : Bytes → RenderRequest → RenderRequest
set_scene_file_url url r = record r { scene_file_url = url }

unfoldable pub set_created_at_timestamp : Bytes → RenderRequest → RenderRequest
set_created_at_timestamp time r = record r { created_at = time }

unfoldable pub set_output_file_name : Bytes → RenderRequest → RenderRequest
set_output_file_name name r = record r { output_file_name = name }

unfoldable pub set_download_link : Option Bytes → RenderRequest → RenderRequest
set_download_link link r = record r { download_link = link }

unfoldable pub set_download_links : List Bytes → RenderRequest → RenderRequest
set_download_links links r = record r { download_links = links }
