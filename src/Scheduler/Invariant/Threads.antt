-- ===== src/Scheduler/Invariant/Threads.antt =====
-- Every critical section keeps the registrations of the dispatch threads.
use pathological_v.Prelude.{
  ℕ, ◌≤◌, ◌≡◌, refl, ◌∙◌, sym, ap, Bytes, bytes_discrete, none, some, inl, inr, ◌⊎◌, arith,
  get_elem?, get_elem?-append_one, List, subst,
}
use pathological_v.Prelude.Assoc.{
  lookup, erase, lookup-insert_self, lookup-insert_ne, lookup-erase_cases,
}
use pathological_v.Scheduler.{Dispatch, FrameJob, Worker, System, External, IsSound}
use pathological_v.Scheduler.Assign.{worker_address, assign_one}
use pathological_v.Scheduler.Invariant.{Inv, IsRegistered, Threads}
use pathological_v.Scheduler.Invariant.Assign.{assigned-Keeps, job_id, other_id}
use pathological_v.Scheduler.Invariant.Renders.{Keeps, ids-Keeps}

-- What a thread knows stays true where its entry of the map stays or goes.
IsRegistered-mono :
    {x : External} {s s' : System} {d : Dispatch}
    → Keeps s.renders s'.renders
    → s.ids_minted ≤ s'.ids_minted
    → (lookup bytes_discrete d.job_id s'.worker_job_to_render_id ≡ none)
      ⊎ (lookup bytes_discrete d.job_id s'.worker_job_to_render_id
          ≡ lookup bytes_discrete d.job_id s.worker_job_to_render_id)
    → IsRegistered x s d
    → IsRegistered x s' d
IsRegistered-mono {x} {s} {s'} {d} keeps grows (inl gone) reg = record {
  number = reg.number;
  minted = omega arith;
  named = reg.named;
  entry = inl gone;
}
IsRegistered-mono {x} {s} {s'} {d} keeps grows (inr stays) reg = record {
  number = reg.number;
  minted = omega arith;
  named = reg.named;
  entry = rw (stays, ids-Keeps x keeps) reg.entry;
}

-- A section that touches neither the threads nor the map.
pub Threads-same :
    {x : External} {s s' : System}
    → Keeps s.renders s'.renders
    → s'.ids_minted ≡ s.ids_minted
    → s'.dispatch_threads ≡ s.dispatch_threads
    → s'.worker_job_to_render_id ≡ s.worker_job_to_render_id
    → Threads x s
    → Threads x s'
Threads-same {x} {s} {s'} keeps same_ids same_threads same_map threads i d e =
    IsRegistered-mono keeps (omega arith) (inr (ap (lookup bytes_discrete d.job_id) same_map))
      (threads i d (subst (λ ts. get_elem? ts i ≡ some d) same_threads e))

pub erase-Threads :
    {x : External} {s s' : System} (k : Bytes)
    → Keeps s.renders s'.renders
    → s'.ids_minted ≡ s.ids_minted
    → s'.dispatch_threads ≡ s.dispatch_threads
    → s'.worker_job_to_render_id ≡ erase bytes_discrete k s.worker_job_to_render_id
    → Threads x s
    → Threads x s'
erase-Threads {x} {s} {s'} k keeps same_ids same_threads erased threads i d e =
    IsRegistered-mono keeps (omega arith)
      (rw erased (lookup-erase_cases bytes_discrete k d.job_id s.worker_job_to_render_id))
      (threads i d (subst (λ ts. get_elem? ts i ≡ some d) same_threads e))

module _ (x : External) (sound : IsSound x) (j : FrameJob) (rest : List FrameJob) (i : ℕ)
    (w : Worker) (s : System) (inv : Inv x s) where
  -- The thread that the round starts.
  spawned : Dispatch
  spawned = record {
    worker_id = w.id;
    worker_address = worker_address w;
    frame_job = j;
    job_id = job_id x sound j rest i w s inv;
  }

  spawned-IsRegistered : IsRegistered x (assign_one x j rest i w s) spawned
  unfolding assign_one spawned
  spawned-IsRegistered = record {
    number = s.ids_minted;
    minted = omega arith;
    named = refl;
    entry =
        rw (ids-Keeps x (assigned-Keeps x sound j rest i w s inv))
          (inr (lookup-insert_self bytes_discrete _ _ s.worker_job_to_render_id));
  }

  pub assigned-Threads : Threads x s → Threads x (assign_one x j rest i w s)
  unfolding assign_one spawned
  assigned-Threads threads k d e = elim (get_elem?-append_one s.dispatch_threads spawned k d e) [
    | inl new ↦ subst (IsRegistered x (assign_one x j rest i w s)) new spawned-IsRegistered
    | inr old ↦
        let reg = threads k d old in
        IsRegistered-mono (assigned-Keeps x sound j rest i w s inv) (omega arith)
          (inr (
            lookup-insert_ne bytes_discrete _ d.job_id _ s.worker_job_to_render_id λ same.
              other_id x sound j rest i w s inv reg.number (omega arith)
                (sym reg.named ∙ sym same)))
          reg
  ]
