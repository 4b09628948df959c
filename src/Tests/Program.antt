-- ===== src/Tests/Program.antt =====
-- The theorem on the program's main, at an example.
use pz_workflow.Prelude.{refl, none, [], ◌∷◌}
use pz_workflow.Json.{obj, end}
use pz_workflow.Backend.{ok}
use pz_workflow.Kit.Scripts.Indices.{Surroundings}
use pz_workflow.Exec.{final, pure, ◌>>=◌}
use pz_workflow.Exec.Wrote.{Runs}
use pz_workflow.Main.{main, make_clients, IsServed, main-IsServed}
use pz_workflow.Tests.Starts.{fresh, poll_once}

-- A directory with a script for each index.
abbrev surroundings : Surroundings
surroundings = record {
  getwd = ok "/pz";
  es_url = ok "http://es";
  read_dir = λ path. ok (
      "000-EventType.sh" ∷ "001-Event.sh" ∷ "002-Trigger.sh" ∷ "003-Alert.sh" ∷ "004-Cron.sh"
      ∷ "005-TestES.sh" ∷ []);
  output = λ pwd url index script. ok "{\"status\":\"success\"}";
  unmarshal = λ s. ok (record { status = "success"; message = ""; mapping = "{}" });
  new_index = λ index. ok tt;
  parse = λ s. ok (obj end);
  get_mapping = λ index typ. ok (obj end);
}

returns :
    Runs
      (main
        (pure none)
        (pure none)
        (pure none)
        poll_once
        "pz-workflow"
        "piazza"
        surroundings
        (pure none)
        (pure none)
        (pure none)
        "pen")
      fresh
      tt
      (final (
        main
          (pure none)
          (pure none)
          (pure none)
          poll_once
          "pz-workflow"
          "piazza"
          surroundings
          (pure none)
          (pure none)
          (pure none)
          "pen"
          fresh))
unfolding main ◌>>=◌ make_clients pz_workflow.Kit.new_kit pz_workflow.Service.Startup.init
    pz_workflow.Exec.recovered pz_workflow.Db.Hits.new_resource_db
    pz_workflow.Service.EventTypes.post_event_type pz_workflow.Db.Events.name_exists
    pz_workflow.Db.EventTypes.get_id_by_name pz_workflow.Service.EventTypes.tilde_name
    pz_workflow.Texts.contains pz_workflow.Db.EventTypes.post_data
    pz_workflow.Db.EventTypes.first_invalid pz_workflow.Db.Events.add_mapping
    pz_workflow.Db.Events.Schema.construct_event_mapping_schema pz_workflow.Unique.add_unique_params
    pz_workflow.Response.status_created pz_workflow.Service.Cron.init_cron
    pz_workflow.Kit.indices_of pz_workflow.Kit.Scripts.Indices.make_indices
    pz_workflow.Db.Crons.exists pz_workflow.Db.Crons.get_all pz_workflow.Kit.Scripts.Runs.make_index
returns = refl

main-IsServed_example :
    IsServed
      (pure none)
      (pure none)
      (pure none)
      poll_once
      "pz-workflow"
      "piazza"
      surroundings
      (pure none)
      (pure none)
      (pure none)
      "pen"
      fresh
      (final (
        main
          (pure none)
          (pure none)
          (pure none)
          poll_once
          "pz-workflow"
          "piazza"
          surroundings
          (pure none)
          (pure none)
          (pure none)
          "pen"
          fresh))
main-IsServed_example =
    main-IsServed (pure none) (pure none) (pure none) poll_once "pz-workflow" "piazza" surroundings
      (pure none) (pure none) (pure none) "pen" fresh _ returns
