-- ===== src/S3/Uploads.antt =====
-- What an upload leaves in the bucket, and what comes back from it.
use pathological_v.Prelude.{
  ◌≡◌, ◌≢◌, refl, Bytes, bytes_discrete, Bool, true, false, some, inl, inr, Bool-cases,
  Option-cases, arith, length,
}
use pathological_v.Prelude.Assoc.{insert, lookup-insert_self}
use pathological_v.Prelude.Int.{pos, negsuc}
use pathological_v.S3.{
  Files, Os, S3Client, IsStore, is_empty, write_file_to_path, read_file, get_object, put_object,
  put_written, temp_path, upload_scene,
}

-- A write either succeeds, and the file then holds the text, or returns `false`.
write_file_to_path-holds :
    (os : Os) (path content : Bytes) (fs : Files)
    → (write_file_to_path os path content (negsuc 0) fs).1 ≡ true
    → write_file_to_path os path content (negsuc 0) fs
      ≡ (insert bytes_discrete path content fs, true)
unfolding write_file_to_path
write_file_to_path-holds os path content fs e = ground (arith, e)

module _ {B : Type 0} (c : S3Client B) (os : Os) (sound : IsStore c) where
  put_written_refused :
      (path url : Bytes) (b : B) (w : Files × Bool)
      → w.1 ≡ false
      → (put_written c path url b w).2 ≡ false
  put_written_refused path url b (fs, true) e = absurd (cc)
  put_written_refused path url b (fs, false) e = refl

  -- With a bucket that keeps what is put into it, an upload that returns `true` has stored the text
  -- under its key, and nothing under another.
  pub upload_scene-stores :
      (content url : Bytes) (fs : Files) (b : B)
      → (upload_scene c os content url fs b).2 ≡ true
      → (c.get_object (upload_scene c os content url fs b).1 url
          ≡ some (content, pos (length content)))
        × ((other : Bytes)
            → url ≢ other
            → c.get_object (upload_scene c os content url fs b).1 other ≡ c.get_object b other)
  unfolding upload_scene put_object read_file
  upload_scene-stores content url fs b e = elim (Option-cases os.temp_directory) [
    | inl absent ↦ absurd (cc (rw (absent, upload_scene) at (e)))
    | inr (dir, there) ↦
        elim (Bool-cases (write_file_to_path os (temp_path dir) content (negsuc 0) fs).1) [
          | inl written ↦
              let all = write_file_to_path-holds os (temp_path dir) content fs written in
              let read = lookup-insert_self bytes_discrete (temp_path dir) content fs in
              let put = rw (there, all, upload_scene, read) at (e) in
              rw (there, all, upload_scene, read)
                (
                  sound.get_put b url content put,
                  λ other ne. sound.get_put_other b url other (some content) ne,
                )
          | inr failed ↦ absurd (
              cc (
                rw (there, upload_scene) at (e),
                put_written_refused (temp_path dir) url b
                    (write_file_to_path os (temp_path dir) content (negsuc 0) fs) failed,
              ))
        ]
  ]

  upload_scene_not_empty :
      (content url : Bytes) (fs : Files) (b : B)
      → (upload_scene c os content url fs b).2 ≡ true
      → is_empty content ≡ false
  unfolding upload_scene write_file_to_path
  upload_scene_not_empty content url fs b e = elim (Option-cases os.temp_directory) [
    | inl absent ↦ absurd (cc (rw (absent, upload_scene) at (e)))
    | inr (dir, there) ↦ elim (Bool-cases (is_empty content)) [
      | inl empty ↦ absurd (
          cc (
            rw (there, upload_scene) at (e),
            put_written_refused (temp_path dir) url b
                (write_file_to_path os (temp_path dir) content (negsuc 0) fs)
                (ground (arith, empty)),
          ))
      | inr filled ↦ filled
    ]
  ]

  -- With a bucket that keeps what is put into it, a text that was uploaded is read back by
  -- `getObject`, whatever the bucket held, into any file that can be written.
  pub upload_scene-get_object :
      (content url path : Bytes) (fs : Files) (b : B)
      → (upload_scene c os content url fs b).2 ≡ true
      → os.opens path ≡ true
      → os.writes path content ≡ true
      → let done = upload_scene c os content url fs b in
        ((get_object c os url path done.1 done.0).1 ≡ true)
        × (read_file path (get_object c os url path done.1 done.0).0 ≡ some content)
  unfolding get_object write_file_to_path read_file
  upload_scene-get_object content url path fs b e opened write =
      rw
        (
          (upload_scene-stores content url fs b e).0,
          get_object,
          write_file_to_path,
          opened,
          write,
          upload_scene_not_empty content url fs b e,
        )
        (ground (arith), lookup-insert_self bytes_discrete path content _)
