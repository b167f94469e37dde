-- ===== src/S3.antt =====
-- `S3Manager` (common/s3_manager.hpp, s3_manager.cpp) over the AWS client and the file system, and
-- `Scheduler::uploadScene` (scheduler/src/scheduler.cpp), which uses it.
pub mod Uploads
use pathological_v.Prelude.{
  ℕ, ◌≡◌, ◌≢◌, Bytes, bytes_discrete, codes, Bool, true, false, ◌&&◌, ◌==◌, not, Option, none, some,
  List, [], ◌∷◌, ◌++◌, length, if◌then◌else◌,
}
use pathological_v.Prelude.Assoc.{lookup, insert}
use pathological_v.Prelude.Int.{ℤ, pos, negsuc}

-- The contents of the files by their paths.
abbrev pub Files : Type 0
Files = List (Bytes × Bytes)

-- What the system decides: whether a file opens for writing, whether all of a text is written, and
-- what a failed write leaves; the directory for temporary files, if there is one.
pub record Os : Type 0 where
  pub opens : Bytes → Bool
  pub writes : Bytes → Bytes → Bool
  pub remains : Bytes → Bytes → Bytes
  pub temp_directory : Option Bytes

-- `Aws::S3::S3Client` on a bucket. An object is got with its content length.
pub record S3Client (B : Type 0) : Type 0 where
  pub head_object : B → Bytes → Bool
  pub get_object : B → Bytes → Option (Bytes × ℤ)
  pub put_object : B → Bytes → Option Bytes → B × Bool

-- A put that succeeds is seen by the next get, and touches no other key.
pub record IsStore {B : Type 0} (c : S3Client B) : Type 0 where
  pub get_put :
      (b : B) (key body : Bytes)
      → (c.put_object b key (some body)).1 ≡ true
      → c.get_object (c.put_object b key (some body)).0 key ≡ some (body, pos (length body))
  pub get_put_other :
      (b : B) (key other : Bytes) (body : Option Bytes)
      → key ≢ other
      → c.get_object (c.put_object b key body).0 other ≡ c.get_object b other

-- A negative length stands for an unknown one.
abbrev pub has_length : ℤ → Bytes → Bool
has_length (pos n) content = length content == n
has_length (negsuc n) content = true

abbrev pub is_empty : Bytes → Bool
is_empty [] = true
is_empty (c ∷ cs) = false

-- `writeFileToPath`. The stream's `<<` sets the fail bit where it takes no character, so an empty
-- text counts as a failed write.
unfoldable pub write_file_to_path : Os → Bytes → Bytes → ℤ → Files → Files × Bool
unfolding insert bytes_discrete
write_file_to_path os path content expected_len fs =
    if os.opens path
    then if os.writes path content && not (is_empty content)
      then (insert bytes_discrete path content fs, has_length expected_len content)
      else (insert bytes_discrete path (os.remains path content) fs, false)
    else (fs, false)

-- `readFileToAWSStream`: null for a file that is not there.
unfoldable pub read_file : Bytes → Files → Option Bytes
unfolding lookup bytes_discrete
read_file path fs = lookup bytes_discrete path fs

unfoldable pub key_exists : {B : Type 0} → S3Client B → Bytes → B → Bool
key_exists c key b = c.head_object b key

unfoldable pub get_object :
    {B : Type 0} → S3Client B → Os → Bytes → Bytes → B → Files → Files × Bool
unfolding write_file_to_path
get_object c os key local_path b fs = elim (c.get_object b key) [
  | none ↦ (fs, false)
  | some (body, object_len) ↦ write_file_to_path os local_path body object_len fs
]

unfoldable pub put_object : {B : Type 0} → S3Client B → Bytes → Bytes → Bool → Files → B → B × Bool
unfolding key_exists read_file
put_object c local_path key overwrite_existing fs b =
    if not overwrite_existing && key_exists c key b
    then (b, false)
    else c.put_object b key (read_file local_path fs)

abbrev pub temp_path : Bytes → Bytes
temp_path dir = dir ++ codes "/tmp.gltf"

-- The upload after the file was written, or not.
abbrev pub put_written :
    {B : Type 0} → S3Client B → Bytes → Bytes → B → Files × Bool → Files × B × Bool
put_written c path url b (fs, false) = (fs, b, false)
put_written c path url b (fs, true) =
    let stored = put_object c path url true fs b in (fs, stored.0, stored.1)

-- `Scheduler::uploadScene`
unfoldable pub upload_scene :
    {B : Type 0} → S3Client B → Os → Bytes → Bytes → Files → B → Files × B × Bool
unfolding write_file_to_path put_object
upload_scene c os content scene_url fs b = elim os.temp_directory [
  | none ↦ (fs, b, false)
  | some dir ↦
      put_written c (temp_path dir) scene_url b
        (write_file_to_path os (temp_path dir) content (negsuc 0) fs)
]
