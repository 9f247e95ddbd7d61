-- ===== src/Panels/Metrics.antt =====
-- The metrics panel (tools/llama-dspark-test-ui/components/dashboard/metrics-panel.tsx). The texts and
-- numbers that are shown are modelled; the style classes are not.
pub mod Laws
pub mod Gradients
pub mod Fetched
use dspark_edge.Base.{
  Bool, true, false, Option, none, some, List, [], ◌∷◌, ◌++◌, map, if◌then◌else◌, ◌>>=◌,
}
use dspark_edge.Base.Text.{Text, lit}
use dspark_edge.Numbers.{Numbers}
use dspark_edge.Store.{SpecStats, SpecResponse, SpecPoint, or_zero}
use dspark_edge.Panels.Chart.{
  Color, blue, emerald, violet, amber, cyan, slate, at, Chart, area_chart,
}
use dspark_edge.Panels.StatCard.{Display, shown_if, CardProps, Card, stat_card, plain_card}

-- `ConnectionPill`: whether it is lit, its text, and the edge host.
pub record Pill : Type 0 where
  pub lit_up : Bool
  pub text : Text
  pub host : Option Text

module _ {N : Type 0} where
  abbrev pub is_connected : Option (SpecStats N) → Bool
  is_connected none = false
  is_connected (some s) = s.connected

  abbrev pub host_of : Option (SpecStats N) → Text
  host_of none = []
  host_of (some s) = s.edge_host

  -- `spec?.spec ?? null`
  abbrev pub stats_of : Option (SpecResponse N) → Option (SpecStats N)
  stats_of none = none
  stats_of (some r) = r.spec

  pub connection_pill : Option (SpecResponse N) → Pill
  connection_pill spec =
      let on = is_connected (stats_of spec) in
      record {
        lit_up = on;
        text = if on then lit "edge connected" else lit "edge disconnected";
        host = shown_if on (host_of (stats_of spec));
      }

-- The numbers that the panel calls a method on, all there.
pub record Given (N : Type 0) : Type 0 where
  pub draft_blocks : N
  pub draft_tokens : N
  pub accepted_tokens : N
  pub avg_edge_draft_ms : N
  pub avg_grpc_ms : N
  pub fallback_steps : N

-- The panel with its numbers: the pill, the four cards in a row, the text beside the first chart and
-- that chart, the two cards next to it, and the chart below.
pub record Metrics (N : Type 0) : Type 0 where
  pub pill : Pill
  pub cards : List (Card (SpecPoint N) N)
  pub rate : Text
  pub rate_chart : Chart (SpecPoint N) N
  pub side_cards : List (Card (SpecPoint N) N)
  pub latency_chart : Chart (SpecPoint N) N

-- What rendering the panel comes to; a method called on a missing number throws.
pub data Rendered (N : Type 0) : Type 0 where
  waiting threw : Rendered N
  shown : Metrics N → Rendered N

module _ {N : Type 0} where
  unfoldable pub all_given : SpecStats N → Option (Given N)
  all_given s = do
    accepted ← s.accepted_tokens
    drafted ← s.draft_tokens
    blocks ← s.draft_blocks
    edge ← s.avg_edge_draft_ms
    grpc ← s.avg_grpc_ms
    fallbacks ← s.fallback_steps
    some (record {
      draft_blocks = blocks;
      draft_tokens = drafted;
      accepted_tokens = accepted;
      avg_edge_draft_ms = edge;
      avg_grpc_ms = grpc;
      fallback_steps = fallbacks;
    })

module _ {N : Type 0} (num : Numbers N) (display : Display N) where
  -- `acceptancePct`
  abbrev pub acceptance_pct : SpecStats N → N
  acceptance_pct s = num.times (or_zero num s.acceptance_rate) (num.of_nat 100)

  abbrev pub int_text : N → Text
  int_text = display.to_locale

  abbrev pub ms_text : N → Text
  ms_text = display.to_fixed 2

  abbrev pub rate_props : SpecStats N → Given N → CardProps (SpecPoint N) N
  rate_props s g = record {
    label = lit "Acceptance rate";
    value = display.to_fixed 1 (acceptance_pct s);
    unit = some (lit "%");
    accent = some emerald;
    spark = none;
    spark_key = none;
    progress = some (acceptance_pct s);
    subtle =
        some
          (int_text g.accepted_tokens ++ (lit " / " ++ (int_text g.draft_tokens ++ lit " tokens")));
  }

  abbrev pub latency_props :
      Text → N → Color → Text → Text → List (SpecPoint N) → CardProps (SpecPoint N) N
  latency_props label value accent key subtle history = record {
    label = label;
    value = ms_text value;
    unit = some (lit "ms");
    accent = some accent;
    spark = some history;
    spark_key = some key;
    progress = none;
    subtle = some subtle;
  }

  abbrev pub top_cards :
      SpecStats N → Given N → List (SpecPoint N) → List (CardProps (SpecPoint N) N)
  top_cards s g history =
      rate_props s g
      ∷ plain_card (lit "Draft blocks") (int_text g.draft_blocks) blue
          (lit "successful remote draft() calls")
      ∷ latency_props (lit "Edge draft") g.avg_edge_draft_ms violet (lit "edgeMs")
          (lit "avg per block") history
      ∷ latency_props (lit "gRPC round-trip") g.avg_grpc_ms cyan (lit "grpcMs") (lit "avg per call")
          history
      ∷ []

  abbrev pub lower_cards : Given N → List (CardProps (SpecPoint N) N)
  lower_cards g =
      plain_card (lit "Fallback steps") (int_text g.fallback_steps)
        (if display.is_positive g.fallback_steps then amber else slate)
        (lit "remote draft calls that failed")
      ∷ plain_card (lit "Accepted tokens") (int_text g.accepted_tokens) emerald
          (lit "of " ++ (int_text g.draft_tokens ++ lit " proposed"))
      ∷ []

  abbrev pub rate_chart_of : List (SpecPoint N) → Chart (SpecPoint N) N
  rate_chart_of history = area_chart num.text (record {
    rows = history;
    index = lit "t";
    categories = lit "acceptance" ∷ [];
    colors = some (emerald ∷ []);
    format = some (λ v. display.to_fixed 0 v ++ lit "%");
    domain = some (at (num.of_nat 0), at (num.of_nat 100));
    show_grid = none;
    show_x_axis = some true;
    show_y_axis = some true;
  })

  abbrev pub latency_chart_of : List (SpecPoint N) → Chart (SpecPoint N) N
  latency_chart_of history = area_chart num.text (record {
    rows = history;
    index = lit "t";
    categories = lit "edgeMs" ∷ lit "grpcMs" ∷ [];
    colors = some (violet ∷ cyan ∷ []);
    format = some (λ v. display.to_fixed 1 v ++ lit " ms");
    domain = none;
    show_grid = none;
    show_x_axis = some true;
    show_y_axis = some true;
  })

  abbrev pub metrics_of :
      Option (SpecResponse N) → SpecStats N → List (SpecPoint N) → Given N → Metrics N
  metrics_of spec s history g = record {
    pill = connection_pill spec;
    cards = map (stat_card num display) (top_cards s g history);
    rate = display.to_fixed 1 (acceptance_pct s) ++ lit "%";
    rate_chart = rate_chart_of history;
    side_cards = map (stat_card num display) (lower_cards g);
    latency_chart = latency_chart_of history;
  }

  abbrev pub rendered_of :
      Option (SpecResponse N) → SpecStats N → List (SpecPoint N) → Option (Given N) → Rendered N
  rendered_of spec s history none = threw
  rendered_of spec s history (some g) = shown (metrics_of spec s history g)

  abbrev pub panel_with :
      Option (SpecResponse N) → Bool → Option (SpecStats N) → List (SpecPoint N) → Rendered N
  panel_with spec reachable none history = waiting
  panel_with spec false (some s) history = waiting
  panel_with spec true (some s) history = rendered_of spec s history (all_given s)

  abbrev pub is_reachable : Option (SpecResponse N) → Bool
  is_reachable none = false
  is_reachable (some r) = r.reachable

  -- `MetricsPanel`
  unfoldable pub metrics_panel : Option (SpecResponse N) → List (SpecPoint N) → Rendered N
  metrics_panel spec history = panel_with spec (is_reachable spec) (stats_of spec) history
