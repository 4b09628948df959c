-- ===== src/Db/Hits.antt =====
-- workflow/ResourceDB.go, and the loop over `searchResult.GetHits()` that the databases share.
use pz_workflow.Prelude.{String, Option, List, [], ◌∷◌}
use pz_workflow.Backend.{Backend, Result, ok, err, Error, Index, SearchResult, create}
use pz_workflow.Exec.{M, pure, deref, send, compute, ◌>>=◌, attempt, on_nil}

-- `NewResourceDB`: the index is created if it is not there.
unfoldable pub new_resource_db : Index → M Error
new_resource_db index = send (create index) (λ b. b.created index)

module _ {ℓ} {A : Type ℓ} (unmarshal : Backend → String → Result A) where
  abbrev prepend : A → Result (List A) → Result (List A)
  prepend a (ok rest) = ok (a ∷ rest)
  prepend a (err e) = err e

  -- `for _, hit := range *searchResult.GetHits()`: the first document that does not decode ends it.
  unfoldable pub decode_hits : List (Option String) → M (Result (List A))
  decode_hits [] = pure (ok [])
  decode_hits (hit ∷ hits) = do
    source ← deref hit
    decoded ← compute (λ b. unmarshal b source)
    attempt decoded (λ e. pure (err e)) λ a. do rest ← decode_hits hits; pure (prepend a rest)

  -- `if searchResult.GetHits() != nil { … }`, from the empty list.
  unfoldable pub decode_result : SearchResult → M (Result (List A))
  decode_result result = on_nil result.hits (pure (ok [])) decode_hits
