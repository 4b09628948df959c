-- ===== src/Service/Stats.antt =====
-- `Service.GetStats` and the methods that test Elasticsearch, workflow/Service.go, with
-- workflow/TestElasticsearchDB.go.
use pz_workflow.Prelude.{String, Bool, true, not, Option, none, some, ◌==◌, if◌then◌else◌, ◌<>◌}
use pz_workflow.Model.{Ident, TestElasticsearchBody, stats_data, text_data, test_data}
use pz_workflow.Backend.{Error, test_elasticsearch, test_doc, post}
use pz_workflow.Exec.{
  M, pure, deref, ask, send, compute, read_stats, recovered, ◌>>=◌, on_error, return_if, attempt,
  on_nil,
}
use pz_workflow.Response.{
  Reply, status_ok, status_created, status_bad_request, status_internal_error, status_not_found,
}
use pz_workflow.Texts.{has_suffix}

unfoldable pub get_stats : Reply
get_stats = recovered do stats ← read_stats; status_ok (stats_data stats)

abbrev pub test_elasticsearch_mapping : String
test_elasticsearch_mapping = "TestElasticsearch"

-- `TestElasticsearchDB.PostData` on the pointer that its one caller passes.
unfoldable pub post_data : TestElasticsearchBody → Ident → M (Ident × Error)
post_data body id = do
  let doc = test_doc body
  (response, failure) ←
      send (post test_elasticsearch test_elasticsearch_mapping id doc)
        (λ b. b.posted test_elasticsearch test_elasticsearch_mapping id doc)
  on_error failure (λ e. pure ("", some ("TestElasticsearchDB.PostData failed: " <> e)))
      do
        result ← deref response
        pure (
            if result.created
            then (id, none)
            else ("", some "TestElasticsearchDB.PostData failed: not created"))

unfoldable pub get_one : Ident → M (Option TestElasticsearchBody × Bool × Error)
get_one id = do
  (answer, failure) ← ask (λ b. b.get_by_id test_elasticsearch test_elasticsearch_mapping id)
  on_error failure
      (λ e. do
        result ← deref answer
        pure (none, result.found, some ("TestElasticsearchDB.GetOne failed: " <> e)))
      (on_nil answer (pure (none, true, some "TestElasticsearchDB.GetOne failed: no getResult"))
        λ result. do
          source ← deref result.source
          decoded ← compute (λ b. b.unmarshal_test source)
          attempt decoded (λ e. pure (none, result.found, some e))
              λ body. pure (some body, result.found, none))

unfoldable pub test_elasticsearch_version : Reply
test_elasticsearch_version = recovered do
  version ← ask (λ b. b.get_version test_elasticsearch)
  return_if (version == "")
      (status_internal_error (some "Service.TestElasticsearchVersion returned nil"))
      (pure (record {
        status_code = 200;
        type_name = "";
        payload = text_data version;
        pagination = none;
        message = "";
        origin = "";
      }))

unfoldable pub test_elasticsearch_get_one : Ident → Reply
test_elasticsearch_get_one id = recovered do
  (body, found, failure) ← get_one id
  return_if (not found) (status_not_found failure) do
    on_error failure (λ e. status_bad_request (some e)) do b ← deref body; status_ok (test_data b)

unfoldable pub test_elasticsearch_post : TestElasticsearchBody → Reply
test_elasticsearch_post body = recovered do
  id ← ask (λ b. b.new_ident)
  let posted = record body { id = id }
  (stored, refused) ← post_data posted id
  on_error refused
      (λ e.
        if has_suffix e "was not recognized as a valid mapping type"
        then status_bad_request (some e)
        else status_internal_error (some e))
      (status_created (test_data posted))
