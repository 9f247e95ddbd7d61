-- ===== src/Panels/Metrics/Fetched/Tests.antt =====
-- The metrics panel after a poll at concrete answers.
use dspark_edge.Base.{ℕ, ◌≡◌, ◌↔◌, false, true, none, some, [], if◌then◌else◌, leb, ltb}
use dspark_edge.Base.Text.{lit, decimal}
use dspark_edge.Store
use dspark_edge.Store.{SpecStats, AppState, poll_spec_done}
use dspark_edge.Api.Urls.{Fetched, answered, threw, try_fetch, spec_reply}
use dspark_edge.Panels.StatCard.{Display}
use dspark_edge.Panels.Metrics
use dspark_edge.Panels.Metrics.{waiting, metrics_panel}
use dspark_edge.Panels.Metrics.Fetched.{response_of, Lacks, grown, fetched_panel}
use dspark_edge.Samples.{sample_numbers}

abbrev shown : Display ℕ
shown = record {
  to_fixed = λ digits n. decimal n;
  to_locale = decimal;
  least = λ a b. if leb a b then a else b;
  most = λ a b. if leb a b then b else a;
  is_positive = ltb 0;
}

-- The time of a call is missing.
abbrev partial : SpecStats ℕ
partial = record {
  connected = true;
  edge_host = [];
  draft_blocks = some 3;
  draft_tokens = some 21;
  accepted_tokens = some 12;
  acceptance_rate = none;
  avg_edge_draft_ms = some 30;
  avg_grpc_ms = none;
  fallback_steps = some 0;
}

abbrev page : AppState ℕ
page = Store.initial

abbrev refusing : Fetched ℕ
refusing = answered false (some 1)

-- /health is refused and /props fails.
fetched_panel_example :
    let r = spec_reply (lit "http://a") (answered true (some partial)) refusing threw in
    let s' = poll_spec_done sample_numbers [] 1000 (some (response_of r)) page in
    let panel = metrics_panel sample_numbers shown s'.spec s'.spec_history in
    ((panel ≡ waiting) ↔ (try_fetch (answered true (some partial)) ≡ none))
    × ((panel ≡ Metrics.threw) ↔ Lacks (try_fetch (answered true (some partial))))
    × (s'.spec_history
        ≡ grown sample_numbers [] 1000 (try_fetch (answered true (some partial))) page.spec_history)
fetched_panel_example =
    fetched_panel sample_numbers shown [] (lit "http://a") 1000 (answered true (some partial))
      refusing threw page
