-- ===== src/Gpu/ShaderTable.antt =====
-- `PathTracer::createShaderBindingTable` (render_worker/src/path_tracer.cpp): where the handles of the
-- shader groups lie in the buffer that the GPU reads them from.
pub mod Copies
pub mod Layout
use Prim.Native.Nat.{bit_and}
use pathological_v.Prelude.{
  ℕ, zero, suc, ◌+◌, ◌-◌, ◌*◌, ◌%◌, ◌^◌, ◌≤◌, ◌<◌, ◌≡◌, codes, Bool, true, false, ◌&&◌, leb, ltb,
  if◌then◌else◌, u32, Option, none, some,
}
use pathological_v.Prelude.Result.{Result}
use pathological_v.Prelude.Run.{Run, done, throws, faults, ◌>>=◌, of_result}
use pathological_v.Gpu.Context.{RtProperties}

-- A block of memory; only the bytes below its size are its own.
pub record Memory : Type 0 where
  pub size : ℕ
  pub bytes : ℕ → ℕ

-- `memcpy` of `n` bytes to `dst + at` from `src + from`.
unfoldable pub memcpy : Memory → ℕ → Memory → ℕ → ℕ → Run Memory
memcpy dst at src from n =
    if leb (at + n) dst.size && leb (from + n) src.size
    then done (record dst {
      bytes = λ j. if leb at j && ltb j (at + n) then src.bytes (from + (j - at)) else dst.bytes j;
    })
    else faults

-- `(size + alignment - 1) & ~(alignment - 1)` on `uint32_t`.
unfoldable pub align_up : ℕ → ℕ → ℕ
align_up size alignment =
    bit_and (u32 (u32 (size + alignment) + 4294967295)) (4294967295 - u32 (alignment + 4294967295))

abbrev pub u64 : ℕ → ℕ
u64 n = n % 2 ^ 64

pub record Region : Type 0 where
  pub device_address : ℕ
  pub stride : ℕ
  pub size : ℕ

-- The buffer's memory, and the regions of it that a trace is given.
pub record ShaderTable : Type 0 where
  pub memory : Memory
  pub raygen : Region
  pub miss : Region
  pub hit : Region
  pub callable : Region

-- What Vulkan gives: the handles of a pipeline's groups, `first` and `count` and the size of the
-- result; a buffer with its address.
pub record TableDriver : Type 0 where
  pub get_handles : ℕ → ℕ → ℕ → ℕ → Result Memory
  pub create_buffer : ℕ → Result (ℕ × Memory)

abbrev pub group_count : ℕ
group_count = 3

-- The loop over the groups, from group `i` on, `left` of them.
unfoldable pub copy_handles : ℕ → ℕ → Memory → ℕ → ℕ → Memory → Run Memory
unfolding memcpy
copy_handles stride handle_size handles zero i table = done table
copy_handles stride handle_size handles (suc left) i table = do
  table' ← memcpy table (i * stride) handles (i * handle_size) handle_size
  copy_handles stride handle_size handles left (i + 1) table'

abbrev pub region_at : ℕ → ℕ → Region
region_at address size = record { device_address = u64 address; stride = size; size = size }

abbrev pub table_at : ℕ → ℕ → ℕ → Memory → ShaderTable
table_at address size stride memory = record {
  memory = memory;
  raygen = region_at address size;
  miss = region_at (address + stride) size;
  hit = region_at (address + stride * 2) size;
  callable = record { device_address = 0; stride = 0; size = 0 };
}

abbrev pub table_of : TableDriver → ℕ → ℕ → ℕ → ℕ → Run ShaderTable
table_of v pipeline handle_size size stride = do
  handles ← of_result (v.get_handles pipeline 0 group_count (group_count * handle_size))
  buffer ← of_result (v.create_buffer (u32 (group_count * stride)))
  memory ← copy_handles stride handle_size handles group_count 0 (buffer.1)
  done (table_at (buffer.0) size stride memory)

unfoldable pub create_shader_binding_table : TableDriver → RtProperties → Option ℕ → Run ShaderTable
unfolding copy_handles align_up
create_shader_binding_table v p none = throws (codes "Ray tracing pipeline not created")
create_shader_binding_table v p (some pipeline) =
    table_of v pipeline p.shader_group_handle_size
      (align_up p.shader_group_handle_size p.shader_group_handle_alignment)
      (align_up p.shader_group_handle_size p.shader_group_base_alignment)

-- What Vulkan documents: the blocks have the sizes that were asked for, and a buffer does not wrap
-- round the address space.
pub record IsSound (v : TableDriver) : Type 0 where
  pub handles_size :
      (pipeline first count n : ℕ) (m : Memory)
      → v.get_handles pipeline first count n ≡ Result.ok m
      → m.size ≡ n
  pub buffer_size :
      (n : ℕ) (b : ℕ × Memory)
      → v.create_buffer n ≡ Result.ok b
      → (b.1.size ≡ n) × (b.0 + n < 2 ^ 64)
