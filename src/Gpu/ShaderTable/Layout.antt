-- ===== src/Gpu/ShaderTable/Layout.antt =====
-- The layout of the shader binding table: aligned, in bounds, each handle in its place.
use pathological_v.Prelude.{
  ℕ, suc, ◌+◌, ◌*◌, ◌^◌, ◌≤◌, ◌<◌, ◌≡◌, refl, ◌∙◌, sym, ap, u32, some, arith,
}
use native.Mathlib.Nat.{pow-le-pow_right, mul_assoc, mul-le-mul_right}
use pathological_v.Prelude.Result.{ok}
use pathological_v.Prelude.Run.{IsSafe, IsSafe-bind, IsSafe-of_result, IsSafe-map}
use pathological_v.Gpu.Context.{RtProperties}
use pathological_v.Gpu.ShaderTable.{
  Memory, align_up, Region, ShaderTable, TableDriver, IsSound, u64, region_at, table_of,
  create_shader_binding_table,
}
use pathological_v.Gpu.ShaderTable.Copies.{
  IsAligned, align_up-IsAligned, finer-le, IsCopied, copy_handles-IsCopied,
}

-- Alignments are powers of two, the handles' the finer one, and the table's size fits 32 bits.
pub record IsSupported (j k : ℕ) (p : RtProperties) : Type 0 where
  pub handle_alignment : p.shader_group_handle_alignment ≡ 2 ^ j
  pub base_alignment : p.shader_group_base_alignment ≡ 2 ^ k
  pub finer : j ≤ k
  pub fits_word : k ≤ 31
  pub fits_table : 3 * (p.shader_group_handle_size + 2 ^ k) ≤ 4294967296

-- Region `i` of a table at `address`: it begins a whole number of base alignments behind the table's
-- address, at the handle of group `i`, its stride is a multiple of the handles' alignment that holds
-- a handle, and it lies in the buffer.
pub record IsRegion (j k : ℕ) (handle_size address : ℕ) (handles memory : Memory) (i : ℕ)
    (r : Region) : Type 0 where
  pub steps : ℕ
  pub begins : r.device_address ≡ address + steps * 2 ^ k
  pub inside : r.device_address + r.size ≤ address + memory.size
  pub stride_size : r.stride ≡ r.size
  pub aligned : IsAligned j handle_size r.stride
  pub handle :
      (b : ℕ)
      → b < handle_size
      → memory.bytes (steps * 2 ^ k + b) ≡ handles.bytes (i * handle_size + b)

pub record IsTable (v : TableDriver) (j k handle_size pipeline : ℕ) (t : ShaderTable) : Type 0 where
  pub handles : Memory
  pub got : v.get_handles pipeline 0 3 (3 * handle_size) ≡ ok handles
  pub address : ℕ
  pub size : ℕ
  pub blank : Memory
  pub made : v.create_buffer size ≡ ok (address, blank)
  pub raygen : IsRegion j k handle_size address handles t.memory 0 t.raygen
  pub miss : IsRegion j k handle_size address handles t.memory 1 t.miss
  pub hit : IsRegion j k handle_size address handles t.memory 2 t.hit
  pub callable : t.callable ≡ record { device_address = 0; stride = 0; size = 0 }

-- The buffers that the allocator makes begin at multiples of `2 ^ k`. Vulkan does not promise it of a
-- buffer that is made with no word on its alignment.
abbrev pub AlignsTo : ℕ → TableDriver → Type 0
AlignsTo k v =
    (n : ℕ) (b : ℕ × Memory) → v.create_buffer n ≡ ok b → (quotient : ℕ) × (b.0 ≡ quotient * 2 ^ k)

-- The address is a multiple of the base alignment.
abbrev pub IsBaseAligned : ℕ → Region → Type 0
IsBaseAligned k r = (quotient : ℕ) × (r.device_address ≡ quotient * 2 ^ k)

pub record IsAlignedTable (v : TableDriver) (j k handle_size pipeline : ℕ) (t : ShaderTable)
    : Type 0 where
  pub table : IsTable v j k handle_size pipeline t
  pub raygen_aligned : IsBaseAligned k t.raygen
  pub miss_aligned : IsBaseAligned k t.miss
  pub hit_aligned : IsBaseAligned k t.hit

region-IsBaseAligned :
    (j k hs address quotient : ℕ) (handles memory : Memory) (i : ℕ) (r : Region)
    → address ≡ quotient * 2 ^ k
    → IsRegion j k hs address handles memory i r
    → IsBaseAligned k r
region-IsBaseAligned j k hs address quotient handles memory i r e region =
    let together : (quotient + region.steps) * 2 ^ k ≡ quotient * 2 ^ k + region.steps * 2 ^ k =
      grind arith in
    (quotient + region.steps, omega (arith, together, region.begins, e))

pub table-IsAligned :
    (v : TableDriver) (j k hs pipeline : ℕ) (t : ShaderTable)
    → AlignsTo k v
    → IsTable v j k hs pipeline t
    → IsAlignedTable v j k hs pipeline t
table-IsAligned v j k hs pipeline t aligns h =
    let (quotient, e) = aligns h.size (h.address, h.blank) h.made in
    record {
      table = h;
      raygen_aligned =
          region-IsBaseAligned j k hs h.address quotient h.handles t.memory 0 t.raygen e h.raygen;
      miss_aligned =
          region-IsBaseAligned j k hs h.address quotient h.handles t.memory 1 t.miss e h.miss;
      hit_aligned =
          region-IsBaseAligned j k hs h.address quotient h.handles t.memory 2 t.hit e h.hit;
    }

three : (i s : ℕ) → i ≤ 2 → i * s + s ≤ 3 * s
three i s low =
    let bound : suc i * s ≤ 3 * s = mul-le-mul_right s (omega (arith, low)) in
    let step : suc i * s ≡ i * s + s = grind arith in omega (arith, bound, step)

module _ (j k hs : ℕ) (finer : j ≤ k) (word : k ≤ 31) (room : 3 * (hs + 2 ^ k) ≤ 4294967296) where
  size-IsAligned : IsAligned j hs (align_up hs (2 ^ j))
  size-IsAligned =
      align_up-IsAligned hs j (omega (arith, finer, word))
        (omega (arith, room, pow-le-pow_right {n = 2} (omega arith) finer))

  stride-IsAligned : IsAligned k hs (align_up hs (2 ^ k))
  stride-IsAligned = align_up-IsAligned hs k (omega (arith, word)) (omega (arith, room))

  size-le-stride : align_up hs (2 ^ j) ≤ align_up hs (2 ^ k)
  size-le-stride = finer-le j k hs _ _ finer size-IsAligned stride-IsAligned

  region-IsRegion :
      (i start address : ℕ) (handles memory : Memory)
      → i ≤ 2
      → address + u32 (3 * align_up hs (2 ^ k)) < 2 ^ 64
      → start ≡ address + i * align_up hs (2 ^ k)
      → IsCopied (align_up hs (2 ^ k)) hs handles (u32 (3 * align_up hs (2 ^ k))) 3 memory
      → IsRegion j k hs address handles memory i (region_at start (align_up hs (2 ^ j)))
  region-IsRegion i start address handles memory low above place copied =
      let stride = align_up hs (2 ^ k) in
      let whole : u32 (3 * stride) ≡ 3 * stride = omega (arith, stride-IsAligned.least, room) in
      let last : i * stride + stride ≤ 3 * stride = three i stride low in
      let whole_steps : i * stride ≡ i * stride-IsAligned.quotient * 2 ^ k =
        ap (λ (m : ℕ). i * m) stride-IsAligned.multiple
        ∙ sym (mul_assoc i stride-IsAligned.quotient (2 ^ k)) in
      let unwrapped : u64 start ≡ start =
        omega (arith, above, whole, last, place, size-le-stride) in
      record {
        steps = i * stride-IsAligned.quotient;
        begins = omega (arith, unwrapped, place, whole_steps);
        inside = omega (arith, unwrapped, copied.same_size, whole, last, place, size-le-stride);
        stride_size = refl;
        aligned = size-IsAligned;
        handle = λ b low_byte.
            ap memory.bytes (omega (arith, whole_steps))
            ∙ copied.copied i b (omega (arith, low)) low_byte;
      }

table_of-IsTable :
    (v : TableDriver) (j k hs pipeline : ℕ)
    → j ≤ k
    → k ≤ 31
    → 3 * (hs + 2 ^ k) ≤ 4294967296
    → IsSound v
    → IsSafe
        (IsTable v j k hs pipeline)
        (table_of v pipeline hs (align_up hs (2 ^ j)) (align_up hs (2 ^ k)))
table_of-IsTable v j k hs pipeline finer word room sound =
    let stride = align_up hs (2 ^ k) in
    let size = align_up hs (2 ^ j) in
    let aligned = stride-IsAligned j k hs finer word room in
    let region = region-IsRegion j k hs finer word room in
    let whole : u32 (3 * stride) ≡ 3 * stride = omega (arith, aligned.least, room) in
    IsSafe-bind (λ m. v.get_handles pipeline 0 3 (3 * hs) ≡ ok m) (IsTable v j k hs pipeline) _ _
      (IsSafe-of_result (v.get_handles pipeline 0 3 (3 * hs)))
      (λ handles got.
        IsSafe-bind (λ b. v.create_buffer (u32 (3 * stride)) ≡ ok b) (IsTable v j k hs pipeline) _ _
          (IsSafe-of_result (v.create_buffer (u32 (3 * stride))))
          (λ buffer made.
            let (sized, above) = sound.buffer_size _ buffer made in
            IsSafe-bind (IsCopied stride hs handles (u32 (3 * stride)) 3)
              (IsTable v j k hs pipeline) _ _
              (copy_handles-IsCopied stride hs handles (u32 (3 * stride)) 3 0 (buffer.1)
                aligned.not_below (omega (arith, whole))
                (omega (arith, sound.handles_size pipeline 0 3 _ handles got))
                (record { same_size = sized; copied = λ g b low. absurd (omega (arith, low)) }))
              (λ memory copied. record {
                handles = handles;
                got = got;
                address = buffer.0;
                size = u32 (3 * stride);
                blank = buffer.1;
                made = made;
                callable = refl;
                raygen =
                    region 0 (buffer.0) (buffer.0) handles memory (omega arith) above (omega arith)
                      copied;
                miss =
                    region 1 (buffer.0 + stride) (buffer.0) handles memory (omega arith) above
                      (omega arith) copied;
                hit =
                    region 2 (buffer.0 + stride * 2) (buffer.0) handles memory (omega arith) above
                      (omega arith) copied;
              })))

-- The call throws or returns a table whose regions are in the buffer, a whole number of alignments
-- behind its address, each with the handle of its group.
pub create_shader_binding_table-IsTable :
    (v : TableDriver) (p : RtProperties) (j k pipeline : ℕ)
    → IsSound v
    → IsSupported j k p
    → IsSafe
        (IsTable v j k p.shader_group_handle_size pipeline)
        (create_shader_binding_table v p (some pipeline))
unfolding create_shader_binding_table
create_shader_binding_table-IsTable v p j k pipeline sound h =
    let hs = p.shader_group_handle_size in
    rw (h.handle_alignment, h.base_alignment)
      (table_of-IsTable v j k hs pipeline h.finer h.fits_word h.fits_table sound)

-- With a driver that does what it documents, whose buffers begin at multiples of the base alignment,
-- and properties that are supported, the call throws or returns a table of a ray generation, a miss and
-- a hit region: each begins at a multiple of the base alignment, lies in the buffer, has the handle of
-- its group at its start and a stride that is a multiple of the handles' alignment; the callable region
-- is empty. It reads and writes no byte out of bounds.
pub create_shader_binding_table-IsAlignedTable :
    (v : TableDriver) (p : RtProperties) (j k pipeline : ℕ)
    → IsSound v
    → IsSupported j k p
    → AlignsTo k v
    → IsSafe
        (IsAlignedTable v j k p.shader_group_handle_size pipeline)
        (create_shader_binding_table v p (some pipeline))
create_shader_binding_table-IsAlignedTable v p j k pipeline sound h aligns =
    let hs = p.shader_group_handle_size in
    IsSafe-map (IsTable v j k hs pipeline) (IsAlignedTable v j k hs pipeline) _
      (create_shader_binding_table-IsTable v p j k pipeline sound h)
      λ t is_table. table-IsAligned v j k hs pipeline t aligns is_table
