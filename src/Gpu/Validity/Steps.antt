-- ===== src/Gpu/Validity/Steps.antt =====
-- What each command and each call needs, and what it does.
use pathological_v.Prelude.{
  Bool, true, false, ℕ, ◌+◌, ◌*◌, ◌≡◌, Bytes, Option, none, some, List, [], ◌∷◌, ◌++◌, All,
}
use pathological_v.Tiles.{Tile}
use pathological_v.Gpu.Handles.{write}
use pathological_v.Gpu.Calls.{
  transfer_src, transfer_src_optimal, storage_buffer, transfer_dst, CreateInfo, image_info,
  structure_info, pipeline_layout_info, pipeline_info, PushConstants, Command, pipeline_barrier,
  build_structure, bind_pipeline, bind_descriptor_set, push_constants, trace_rays,
  copy_image_to_buffer, WriteDescriptorSet, Call, create, upload, upload_instance, fill_table,
  update_descriptor_sets, submit, write_png,
}
use pathological_v.Gpu.Validity.{
  Has, Picture, GpuState, Bound, nothing_bound, HasUsage, Holds, IsMapped, set_layout_of, CanCreate,
  CanWrite, Leaves, CanRead,
}
use pathological_v.Gpu.Validity.Launch.{target_of, CanTrace}

abbrev pub IsImage : GpuState → ℕ → Type 0
IsImage s image = elim (s.objects image) [ some (image_info w h f us l) ↦ Unit | _ ↦ ⊥ ]

abbrev pub HasSides : GpuState → (width height image : ℕ) → Type 0
HasSides s w h image = elim (s.objects image) [
  | some (image_info width height f us l) ↦ (w ≡ width) × (h ≡ height) × Has transfer_src us
  | _ ↦ ⊥
]

abbrev pub IsPipeline : GpuState → ℕ → Type 0
IsPipeline s p = elim (s.objects p) [
  | some (pipeline_info stages groups depth layout) ↦ Unit
  | _ ↦ ⊥
]

-- The push constants are 80 bytes.
abbrev pub CanCommand : GpuState → Bound → Command → Type 0
CanCommand s b (pipeline_barrier m) = Leaves m.old_layout (s.layouts m.image) × IsImage s m.image
CanCommand s b (build_structure i) =
    elim (s.objects i.dst_structure) [
      | some (structure_info buffer n type) ↦ type ≡ i.structure_type
      | _ ↦ ⊥
    ]
    × HasUsage s storage_buffer i.scratch_data
    × CanRead s i.geometry i.primitive_count
CanCommand s b (bind_pipeline p) = IsPipeline s p
CanCommand s b (bind_descriptor_set layout set) = elim (s.objects layout) [
  | some (pipeline_layout_info l stage offset n) ↦ set_layout_of s set ≡ some l
  | _ ↦ ⊥
]
CanCommand s b (push_constants layout stage pc) = elim (s.objects layout) [
  | some (pipeline_layout_info l st offset n) ↦ (st ≡ stage) × (offset ≡ 0) × (n ≡ 80)
  | _ ↦ ⊥
]
CanCommand s b (trace_rays regions w h d) = CanTrace s b regions w h d
CanCommand s b (copy_image_to_buffer image l buffer w h) =
    (l ≡ transfer_src_optimal)
    × (s.layouts image ≡ l)
    × HasUsage s transfer_dst buffer
    × Holds s (w * h * 4) buffer
    × HasSides s w h image

abbrev pub tile_at : PushConstants → ℕ → ℕ → Tile
tile_at pc w h = record {
  offset_x = pc.tile_offset.0;
  offset_y = pc.tile_offset.1;
  width = w;
  height = h;
}

abbrev pub trace_into : GpuState → Option ℕ → Option PushConstants → ℕ → ℕ → GpuState
trace_into s (some image) (some pc) w h = record s {
  traced = write s.traced image (s.traced image ++ tile_at pc w h ∷ []);
}
trace_into s none pc w h = s
trace_into s (some image) none w h = s

abbrev pub traced_by : GpuState → Bound → ℕ → ℕ → GpuState
traced_by s b w h = elim b.bound_set [
  | none ↦ s
  | some set ↦ trace_into s (target_of s set) b.pushed w h
]

abbrev pub command_step : GpuState → Bound → Command → GpuState × Bound
command_step s b (pipeline_barrier m) =
    (record s { layouts = write s.layouts m.image m.new_layout }, b)
command_step s b (build_structure i) = (
  record s {
    built = write s.built i.dst_structure (some i.structure_type);
    geometry_of = write s.geometry_of i.dst_structure (some i.geometry);
  },
  b,
)
command_step s b (bind_pipeline p) = (s, record b { bound_pipeline = some p })
command_step s b (bind_descriptor_set layout set) = (s, record b { bound_set = some set })
command_step s b (push_constants layout stage pc) = (s, record b { pushed = some pc })
command_step s b (trace_rays regions w h d) = (traced_by s b w h, b)
command_step s b (copy_image_to_buffer image l buffer w h) = (
  record s {
    copies =
        write s.copies buffer
          (some (record { picture_width = w; picture_height = h; tiles = s.traced image }));
  },
  b,
)

abbrev pub CanSubmit : GpuState → Bound → List Command → Type 0
CanSubmit s b [] = Unit
CanSubmit s b (c ∷ cs) =
    CanCommand s b c × CanSubmit ((command_step s b c).0) ((command_step s b c).1) cs

abbrev pub submit_step : GpuState → Bound → List Command → GpuState
submit_step s b [] = s
submit_step s b (c ∷ cs) = submit_step ((command_step s b c).0) ((command_step s b c).1) cs

-- A file is written from a buffer that holds an image of its sides, row after row.
abbrev pub FitsPicture : (width height components stride : ℕ) → Option Picture → Type 0
FitsPicture w h components stride none = ⊥
FitsPicture w h components stride (some p) =
    (w ≡ p.picture_width) × (h ≡ p.picture_height) × (components ≡ 4) × (stride ≡ w * components)

abbrev pub CanCall : GpuState → Call → Type 0
CanCall s (create info) = CanCreate s info
CanCall s (upload b n count) = IsMapped s b × Holds s (n * count) b
CanCall s (fill_table p t) = IsPipeline s p
CanCall s (upload_instance b i) = IsMapped s b × Holds s 64 b
CanCall s (update_descriptor_sets ws) = All (CanWrite s) ws
CanCall s (submit cs) = CanSubmit s nothing_bound cs
CanCall s (write_png name w h components b stride written) =
    FitsPicture w h components stride (s.copies b)

abbrev pub created : CreateInfo → GpuState → GpuState
created info s = record s { objects = write s.objects s.next (some info) }

abbrev pub write_descriptors : List WriteDescriptorSet → GpuState → GpuState
write_descriptors [] s = s
write_descriptors (w ∷ ws) s = write_descriptors ws (record s {
  contents =
      write s.contents w.dst_set (write (s.contents w.dst_set) w.dst_binding (some w.resource));
})

abbrev pub save_from : Bytes → Option Picture → GpuState → GpuState
save_from name none s = s
save_from name (some p) s = record s { saved = some (name, p) }

abbrev pub save_if : Bool → Bytes → Option Picture → GpuState → GpuState
save_if true name o s = save_from name o s
save_if false name o s = s

-- A new image is in the undefined layout, and shows nothing.
abbrev pub call_effect : Call → GpuState → GpuState
call_effect (create info) s = created info s
call_effect (upload b n count) s = record s { filled = write s.filled b (some (n, count)) }
call_effect (fill_table p t) s = record s { tables = (p, t) ∷ s.tables }
call_effect (upload_instance b i) s = record s { instance_in = write s.instance_in b (some i) }
call_effect (update_descriptor_sets ws) s = write_descriptors ws s
call_effect (submit cs) s = submit_step s nothing_bound cs
call_effect (write_png name w h components b stride written) s = save_if written name (s.copies b) s

abbrev pub call_step : Call → GpuState → GpuState
call_step c s = record (call_effect c s) { next = s.next + 1 }

abbrev pub AreValid : GpuState → List Call → Type 0
AreValid s [] = Unit
AreValid s (c ∷ cs) = CanCall s c × AreValid (call_step c s) cs

abbrev pub after_calls : GpuState → List Call → GpuState
after_calls s [] = s
after_calls s (c ∷ cs) = after_calls (call_step c s) cs
