-- ===== src/Api/Tests.antt =====
-- The theorems on the routes at concrete requests.
use dspark_edge.Base.{◌≡◌, refl, ◌∙◌, true, false, some, List, [], ◌∷◌, ◌++◌}
use dspark_edge.Base.Text.{lit, decimal}
use dspark_edge.Types.{server, daemon, ModelEntry, same_proc}
use dspark_edge.Process.{Env, Manager, busy, proc, Outcome, new, status, blank_status, blank_proc}
use dspark_edge.Process.Starts.{busy-start_other}
use dspark_edge.Process.Args.{daemon_args}
use dspark_edge.World.{World, Event, initial, starts, run}
use dspark_edge.Api.Actions.{Timeline, start_with}
use dspark_edge.Api.Stream.{Connection, StreamEvent, emits, beats, leaves, handle_all}
use dspark_edge.Api.Stream.Laws.{failed_write_leaks}
use dspark_edge.Api.Models.{Nodes, nil, cons, file, directory, Names}
use dspark_edge.Samples.{sample_env, bare_env, sample_bin, sample_config}

abbrev sample_timeline : Timeline
sample_timeline = record { first = sample_env; second = sample_env; meanwhile = [] }

abbrev bare_timeline : Timeline
bare_timeline = record { first = bare_env; second = bare_env; meanwhile = [] }

abbrev daemon_start : Manager × Outcome
daemon_start = start_with decimal sample_env daemon sample_config initial.manager

abbrev between : World
between = run [] (record initial { manager = daemon_start.0 })

abbrev server_start : Manager × Outcome
server_start = start_with decimal sample_env server sample_config between.manager

abbrev after_quickstart : World
after_quickstart = record between { manager = server_start.0 }

server_idle : busy (proc between.manager server) ≡ false
unfolding run start_with same_proc
server_idle =
    busy-start_other sample_env daemon server sample_bin (daemon_args decimal sample_config.daemon)
      initial.manager refl
    ∙ (unfold initial new blank_proc in refl)

abbrev refusal : Manager × Outcome
refusal = start_with decimal bare_env daemon sample_config initial.manager

abbrev one_start : List (Env × Event)
one_start = (sample_env, starts server sample_bin []) ∷ []

abbrev sample_connection : Connection
sample_connection = record {
  closed = false;
  listening = true;
  beating = true;
  ended = false;
  written = [];
}

abbrev sample_events : List StreamEvent
sample_events = emits true (status (blank_status server)) ∷ beats true ∷ []

failed_write_leaks_example :
    let c =
      handle_all (emits false (status (blank_status server)) ∷ leaves ∷ []) sample_connection in
    (c.listening ≡ true) × (c.beating ≡ true) × (c.ended ≡ false)
failed_write_leaks_example =
    failed_write_leaks (status (blank_status server)) (leaves ∷ []) sample_connection refl refl refl

abbrev sample_names : Names
sample_names = record { join = λ dir name. dir ++ name; lower = λ name. name; before = λ a b. true }

abbrev sample_nodes : Nodes
sample_nodes = cons (directory (100 ∷ []) true (cons (file (lit "m.gguf") (some 5)) nil)) nil

abbrev sample_model : ModelEntry
sample_model = record { name = lit "m.gguf"; path = 100 ∷ lit "m.gguf"; size_bytes = 5 }
