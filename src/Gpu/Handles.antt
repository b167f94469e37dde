-- ===== src/Gpu/Handles.antt =====
-- `Buffer` and `Image` (render_worker/src/buffer.hpp, image.hpp): owners of one allocation each, and the
-- C++ operations that create, move and destroy them.
pub mod Owners
pub mod Operations
pub mod Ownership
use pathological_v.Prelude.{
  ℕ, zero, suc, ◌≡◌, ◌≢◌, Bytes, codes, Bool, true, false, ◌&&◌, ◌==◌, not, Option, none, some,
  List, [], ◌∷◌, if◌then◌else◌, ite, ℕ_discrete,
}
use mathlib.Core.Option
use pathological_v.Prelude.Result.{Result, ok, throws}

-- A handle of the libraries is a number; 0 is `VK_NULL_HANDLE`. `size` is what a buffer keeps beside.
pub record Owner (E : Type 0) : Type 0 where
  pub allocator : ℕ
  pub resource : ℕ
  pub allocation : ℕ
  pub size : E

abbrev pub Buffer : Type 0
Buffer = Owner ℕ

abbrev pub Image : Type 0
Image = Owner (Unit {0})

-- The allocations that are alive, each with its allocator and its buffer or image.
abbrev pub Live : Type 0
Live = ℕ → Option (ℕ × ℕ)

abbrev pub write {ℓ} : {A : Type ℓ} → (ℕ → A) → ℕ → A → ℕ → A
write f k v j = ite (ℕ_discrete k j) v (f j)

abbrev pub matches : ℕ → ℕ → Option (ℕ × ℕ) → Bool
matches allocator resource none = false
matches allocator resource (some (al, r)) = (al == allocator) && (r == resource)

-- `vmaDestroyBuffer`, `vmaDestroyImage`: `none` for an allocation that is not alive, or is another's.
unfoldable pub vma_destroy : ℕ → ℕ → ℕ → Live → Option Live
vma_destroy allocator resource allocation live =
    if matches allocator resource (live allocation) then some (write live allocation none) else none

-- The objects of a program by their addresses.
pub record Objects (E : Type 0) : Type 0 where
  pub slots : ℕ → Option (Owner E)
  pub live : Live

module _ {E : Type 0} where
  -- The constructors. The last argument is what `vmaCreateBuffer` or `vmaCreateImage` gave: nothing for
  -- a failure, or a handle and its allocation.
  unfoldable pub construct : Bytes → ℕ → E → Option (ℕ × ℕ) → Result (Owner E)
  construct failure allocator size none = throws failure
  construct failure allocator size (some (resource, allocation)) =
      ok (record {
        allocator = allocator;
        resource = resource;
        allocation = allocation;
        size = size;
      })

  -- The destructor, and the first part of a move assignment.
  unfoldable pub release : Owner E → Live → Option Live
  unfolding vma_destroy
  release o live =
      if o.resource == 0 then some live else vma_destroy o.allocator o.resource o.allocation live

  -- What a move leaves of the object that it takes from.
  unfoldable pub moved_from : Owner E → Owner E
  moved_from o = record o { resource = 0; allocation = 0 }

  -- The objects after a constructor that returned, or threw.
  unfoldable pub constructed : ℕ → Option (ℕ × ℕ) → Result (Owner E) → Objects E → Objects E
  constructed k made (throws e) s = s
  constructed k none (ok o) s = s
  constructed k (some (resource, allocation)) (ok o) s = record {
    slots = write s.slots k (some o);
    live = write s.live allocation (some (o.allocator, resource));
  }

  unfoldable pub destroy : ℕ → Owner E → Objects E → Option (Objects E)
  unfolding release
  destroy k o s =
      Option.map (λ live. record { slots = write s.slots k none; live = live }) (release o s.live)

  unfoldable pub move_construct : ℕ → ℕ → Owner E → Objects E → Objects E
  unfolding moved_from
  move_construct k j other s = record s {
    slots = write (write s.slots k (some other)) j (some (moved_from other));
  }

  unfoldable pub move_assign : ℕ → Owner E → ℕ → Owner E → Objects E → Option (Objects E)
  unfolding release moved_from
  move_assign k this j other s =
      if k == j
      then some s
      else Option.map
          (λ live. record {
            slots = write (write s.slots k (some other)) j (some (moved_from other));
            live = live;
          })
          (release this s.live)

unfoldable pub new_buffer : ℕ → ℕ → Option (ℕ × ℕ) → Result Buffer
unfolding construct
new_buffer = construct (codes "Failed to create buffer")

unfoldable pub new_image : ℕ → Option (ℕ × ℕ) → Result Image
unfolding construct
new_image allocator = construct (codes "Failed to create image") allocator tt
