-- ===== src/Db/Compensation.antt =====
-- `TriggerDB.PostData` of workflow/TriggerDB.go writes to two indices.
use pz_workflow.Prelude.{◌≡◌, ◌⊎◌, String, some, ◌∷◌, arith}
use pz_workflow.Backend.{
  Request, post, add_percolation_query, delete_percolation_query, triggers, trigger_doc,
}
use pz_workflow.Model.{Trigger, trigger_db_mapping}
use pz_workflow.Exec.{World, requests, ◌>>=◌}
use pz_workflow.Exec.Keeps.{Reads-requests}
use pz_workflow.Exec.Wrote.{Runs}
use pz_workflow.Db.Reading
use pz_workflow.Db.Triggers
use pz_workflow.Db.Conditions.{encode_condition}

module _ (t : Trigger) (w : World) where
  abbrev pub asked : String → Request
  asked body = add_percolation_query t.trigger_id body

  -- The stored trigger: that of the caller, with the query's id and its condition encoded.
  abbrev pub stored : String → Request
  stored id =
      post triggers trigger_db_mapping t.trigger_id
        (trigger_doc (record t { percolation_id = id; condition = encode_condition t.condition }))

  -- What an error leaves behind: nothing was requested; or the query alone; or the query, the trigger,
  -- and then the deletion of the query.
  abbrev pub IsCompensated : World → Type 0
  IsCompensated v =
      (requests v ≡ requests w)
      ⊎ ((body : String) × (requests v ≡ asked body ∷ requests w))
      ⊎ ((body : String) × (id : String) × (requests v
            ≡ delete_percolation_query t.trigger_id ∷ stored id ∷ asked body ∷ requests w))

  -- If `PostData` returns an error, it has requested nothing, or the addition of the percolation query
  -- alone; or that, the trigger's document, and last the deletion of the query: once the document was
  -- sent, an error always takes the query back.
  pub post_data-IsCompensated :
      (v : World) (e : String) → Runs (Triggers.post_data t) w (some e) v → IsCompensated v
  unfolding Triggers.post_data ◌>>=◌
  post_data-IsCompensated v e r =
      ground (arith, Reads-requests (Reading.Triggers_check_service-Reads t) w)
