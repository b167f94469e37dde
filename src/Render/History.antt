-- ===== src/Render/History.antt =====
-- `RenderHistory` (scheduler/src/render_history.hpp, render_history.cpp) over the store of
-- `RenderRequest` objects that the `std::shared_ptr`s of the scheduler point to.
use pathological_v.Prelude.{ℕ, Bool, true, false, Option, none, some, List, map, ite, ℕ_discrete}
use pathological_v.Prelude.Assoc.{lookup, emplace, erase}
use pathological_v.Render.{Uuid, RenderStatus, RenderRequest, set_status}

-- A `std::shared_ptr<RenderRequest>` that is not null names an object of the store.
abbrev pub Ptr : Type 0
Ptr = ℕ

abbrev pub Heap : Type 0
Heap = Ptr → RenderRequest

-- A write through a pointer.
abbrev pub store : Ptr → RenderRequest → Heap → Heap
store p r h q = ite (ℕ_discrete p q) r (h q)

pub record RenderHistory : Type 0 where
  pub heap : Heap
  pub history : List (Uuid × Ptr)

unfoldable pub add_render : Option Ptr → RenderHistory → RenderHistory × Bool
unfolding emplace ℕ_discrete
add_render none h = (h, false)
add_render (some req) h =
    (record h { history = emplace ℕ_discrete (h.heap req).id req h.history }, true)

is_found {ℓ} : {A : Type ℓ} → Option A → Bool
is_found none = false
is_found (some a) = true

unfoldable pub delete_render : Uuid → RenderHistory → RenderHistory × Bool
unfolding erase lookup ℕ_discrete is_found
delete_render id h = (
  record h { history = erase ℕ_discrete id h.history },
  is_found (lookup ℕ_discrete id h.history),
)

unfoldable pub update_status : Uuid → RenderStatus → RenderHistory → RenderHistory × Bool
unfolding lookup ℕ_discrete set_status
update_status id status h = elim (lookup ℕ_discrete id h.history) [
  | none ↦ (h, false)
  | some p ↦ (record h { heap = store p (set_status status (h.heap p)) h.heap }, true)
]

unfoldable pub get_render_request : Uuid → RenderHistory → Option Ptr
unfolding lookup ℕ_discrete
get_render_request id h = lookup ℕ_discrete id h.history

unfoldable pub get_all_renders : RenderHistory → List Ptr
get_all_renders h = map (λ e. e.1) h.history
