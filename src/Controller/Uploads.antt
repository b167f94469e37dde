-- ===== src/Controller/Uploads.antt =====
-- What becomes of an uploaded scene.
use pathological_v.Prelude.{
  ◌≡◌, refl, ◌∙◌, ap, Bytes, bytes_discrete, codes, Bool, true, false, ◌||◌, none, some, inl, inr,
  arith, Bool-cases, length, [],
}
use pathological_v.Prelude.Assoc.{lookup, emplace, lookup-emplace_new}
use pathological_v.Prelude.Int.{pos}
use pathological_v.Prelude.Result.{ok}
use pathological_v.S3.{Files, Os, S3Client, IsStore, is_empty, upload_scene}
use pathological_v.S3.Uploads.{upload_scene-stores}
use pathological_v.Scenes.{SceneList, add_scene, find_scene_by_key, scenes_to_json}
use pathological_v.Controller.{
  Response, created, bad_request, SceneStore, ScenePayload, list_scene, after_upload, store_scene,
  scene_name_s3, upload_scene_file,
}

abbrev listed_as : {B : Type 0} → Bytes → Bytes → SceneStore B → Files × B × Bool → SceneStore B
listed_as name key s up = record {
  scenes = emplace bytes_discrete name key s.scenes;
  files = up.0;
  bucket = up.1;
}

after_upload-created :
    {B : Type 0} (name key : Bytes) (s : SceneStore B) (up : Files × B × Bool) (json : SceneList)
    → (after_upload name key s up).1 ≡ created json
    → (up.2 ≡ true)
      × (after_upload name key s up
          ≡ (listed_as name key s up, created (scenes_to_json (listed_as name key s up).scenes)))
unfolding list_scene add_scene
after_upload-created name key s (fs, b, false) json e = absurd (cc)
after_upload-created name key s (fs, b, true) json e =
    elim (Bool-cases (is_empty name || is_empty key)) [
      | inl unnamed ↦ absurd (cc (rw (unnamed, list_scene, add_scene) at (e)))
      | inr named ↦ (refl, rw (named, list_scene, add_scene) (refl))
    ]

module _ {B : Type 0} (c : S3Client B) (os : Os) where
  store_scene_new :
      (content key name : Bytes) (s : SceneStore B)
      → lookup bytes_discrete name s.scenes ≡ none
      → store_scene c os content key name s
        ≡ after_upload name key s (upload_scene c os content key s.files s.bucket)
  unfolding store_scene find_scene_by_key
  store_scene_new content key name s new = rw (new, store_scene, find_scene_by_key) (refl)

  -- The scene `name` is listed with `key`, and the bucket holds its text there.
  pub record IsStored (name key content : Bytes) (s : SceneStore B) : Type 0 where
    pub listed : lookup bytes_discrete name s.scenes ≡ some key
    pub kept : c.get_object s.bucket key ≡ some (content, pos (length content))

  -- With a bucket that keeps what is put into it, a scene that is accepted under a name that was not
  -- listed is listed with its key, the bucket holds its text under this key, and the answer is the new
  -- list.
  pub store_scene-stores :
      (content key name : Bytes) (s : SceneStore B) (json : SceneList)
      → IsStore c
      → lookup bytes_discrete name s.scenes ≡ none
      → (store_scene c os content key name s).1 ≡ created json
      → IsStored name key content (store_scene c os content key name s).0
        × (json ≡ scenes_to_json (store_scene c os content key name s).0.scenes)
  store_scene-stores content key name s json sound new e =
      let up = upload_scene c os content key s.files s.bucket in
      let (done, result) =
        after_upload-created name key s up json
          (rw (store_scene_new content key name s new) at (e)) in
      rw (store_scene_new content key name s new, result)
        (
          record {
            listed = lookup-emplace_new bytes_discrete name name key s.scenes new ∙ ground (arith);
            kept = (upload_scene-stores c os sound content key s.files s.bucket done).0;
          },
          cc (
            ap (λ (r : SceneStore B × Response SceneList). r.1) result,
            rw (store_scene_new content key name s new) at (e),
          ),
        )

after_upload_unnamed :
    {B : Type 0} (key : Bytes) (s : SceneStore B) (up : Files × B × Bool)
    → up.2 ≡ true
    → after_upload [] key s up ≡ (
      record s { files = up.0; bucket = up.1 },
      bad_request (codes "Internal scene list failed to update"),
    )
unfolding list_scene add_scene
after_upload_unnamed key s (fs, b, true) e = refl
after_upload_unnamed key s (fs, b, false) e = absurd (cc)

-- With a bucket that keeps what is put into it, a scene without a name whose upload succeeds is
-- answered with 400 and not listed, but its text is in the bucket under the name of its file.
pub unnamed_is_kept :
    {B : Type 0} (c : S3Client B) (os : Os) (content file_name : Bytes) (s : SceneStore B)
    → IsStore c
    → lookup bytes_discrete [] s.scenes ≡ none
    → (upload_scene c os content file_name s.files s.bucket).2 ≡ true
    → let payload : ScenePayload = record {
      scene_data = ok content;
      scene_file_name = ok file_name;
      scene_name = ok [];
    } in
      let outcome = upload_scene_file c os (some payload) s in
      (outcome.1 ≡ bad_request (codes "Internal scene list failed to update"))
      × (outcome.0.scenes ≡ s.scenes)
      × (c.get_object outcome.0.bucket file_name ≡ some (content, pos (length content)))
unfolding upload_scene_file scene_name_s3 list_scene add_scene
unnamed_is_kept c os content file_name s sound new up =
    rw
      (
        store_scene_new c os content file_name [] s new,
        after_upload_unnamed file_name s (upload_scene c os content file_name s.files s.bucket) up,
        upload_scene_file,
      )
      (refl, refl, (upload_scene-stores c os sound content file_name s.files s.bucket up).0)
