-- ===== src/Scheduler/Invariant/Assign.antt =====
-- `assignJobs` and a dispatch that was not accepted keep the invariant.
use pathological_v.Prelude.{ℕ, ◌+◌, ◌≡◌, Bytes, bytes_discrete, none, arith, List, ◌∷◌}
use pathological_v.Prelude.Assoc.{lookup, insert, lookup-insert, insert-Unique, weigh-insert_new}
use pathological_v.Render.{in_progress}
use pathological_v.Scheduler.{Worker, FrameJob, FrameJobContext, System, External, IsSound}
use pathological_v.Scheduler.Assign.{generate_job_id, assign_one}
use pathological_v.Scheduler.Frames.{ids, queued, in_flight, hit}
use pathological_v.Scheduler.Invariant.{Inv, Accounted}
use pathological_v.Scheduler.Invariant.Renders.{
  Keeps, ids-Keeps, Tracked-Keeps, update_status-Keeps,
}

module _ (x : External) (sound : IsSound x) (j : FrameJob) (rest : List FrameJob) (i : ℕ)
    (w : Worker) (s : System) (inv : Inv x s) where
  abbrev context : FrameJobContext
  context = record {
    render_id = ids x s.renders.heap j.render_request;
    frame_index = j.frame_index;
  }

  abbrev pub job_id : Bytes
  job_id = x.uuid_text (x.job_uuid s.ids_minted)

  pub assigned-Keeps : Keeps s.renders (assign_one x j rest i w s).renders
  unfolding assign_one
  assigned-Keeps = update_status-Keeps _ in_progress s.renders

  new_id : lookup bytes_discrete job_id s.worker_job_to_render_id ≡ none
  new_id = inv.fresh s.ids_minted (omega arith)

  in_flight-assigned :
      (r : Bytes) (k : ℕ)
      → in_flight r k (insert bytes_discrete job_id context s.worker_job_to_render_id)
        ≡ in_flight r k s.worker_job_to_render_id
          + hit (ids x s.renders.heap j.render_request) j.frame_index r k
  unfolding in_flight
  in_flight-assigned r k =
      weigh-insert_new bytes_discrete _ job_id context s.worker_job_to_render_id new_id

  assigned-Accounted : s.pending_jobs ≡ j ∷ rest → Accounted x (assign_one x j rest i w s)
  unfolding assign_one generate_job_id queued
  assigned-Accounted front r k =
      rw (ids-Keeps x assigned-Keeps)
        (ground (arith, inv.accounted r k, in_flight-assigned r k, front))

  pub other_id : (m : ℕ) → ¬ (m ≡ s.ids_minted) → x.uuid_text (x.job_uuid m) ≡ job_id → ⊥
  other_id m h e =
      let same : x.job_uuid m ≡ x.job_uuid s.ids_minted =
        cc (sound.parse_text (x.job_uuid m), sound.parse_text (x.job_uuid s.ids_minted)) in
      h (sound.job_uuid_fresh m s.ids_minted same)

  pub assigned-Inv : s.pending_jobs ≡ j ∷ rest → Inv x (assign_one x j rest i w s)
  unfolding assign_one generate_job_id
  assigned-Inv front = record {
    unique = insert-Unique bytes_discrete job_id context _ inv.unique;
    fresh = λ m h. ground (
      arith,
      lookup-insert bytes_discrete job_id (x.uuid_text (x.job_uuid m)) context
          s.worker_job_to_render_id,
      inv.fresh m (omega arith),
      other_id m (omega arith),
    );
    accounted = assigned-Accounted front;
    tracked = λ r p e. Tracked-Keeps assigned-Keeps (inv.tracked r p e);
  }
