-- ===== src/Panels/Metrics/Laws.antt =====
-- The metrics panel after a poll of the statistics.
use dspark_edge.Base.{
  ℕ, ◌≡◌, ◌⊎◌, ◌↔◌, ◌≢◌, refl, true, Option, none, some, List, [], ◌∷◌, ◌++◌, arith, take_last,
}
use dspark_edge.Base.Text.{Text}
use dspark_edge.Numbers.{Numbers}
use dspark_edge.Store.{
  SpecStats, SpecResponse, SpecPoint, AppState, max_history, spec_point, poll_spec_done,
}
use dspark_edge.Panels.StatCard.{Display}
use dspark_edge.Panels.Metrics.{Given, waiting, threw, all_given, metrics_panel, rendered_of}

-- One of the numbers that the panel calls a method on is missing.
abbrev pub MissesOne : {N : Type 0} → SpecStats N → Type 0
MissesOne s =
    (s.accepted_tokens ≡ none)
    ⊎ (s.draft_tokens ≡ none)
    ⊎ (s.draft_blocks ≡ none)
    ⊎ (s.avg_edge_draft_ms ≡ none)
    ⊎ (s.avg_grpc_ms ≡ none)
    ⊎ (s.fallback_steps ≡ none)

all_given-missing : {N : Type 0} (s : SpecStats N) → (all_given s ≡ none) ↔ MissesOne s
unfolding all_given
all_given-missing s = ground arith

module _ {N : Type 0} (num : Numbers N) (display : Display N) where
  rendered_of-threw :
      (spec : Option (SpecResponse N)) (s : SpecStats N) (history : List (SpecPoint N))
      (o : Option (Given N))
      → (rendered_of num display spec s history o ≡ threw) ↔ (o ≡ none)
  rendered_of-threw spec s history o = ground arith

  rendered_of-waiting :
      (spec : Option (SpecResponse N)) (s : SpecStats N) (history : List (SpecPoint N))
      (o : Option (Given N))
      → rendered_of num display spec s history o ≢ waiting
  rendered_of-waiting spec s history o = ground arith

  panel_of_reachable :
      (r : SpecResponse N) (stats : SpecStats N) (history : List (SpecPoint N))
      → r.reachable ≡ true
      → r.spec ≡ some stats
      → metrics_panel num display (some r) history
        ≡ rendered_of num display (some r) stats history (all_given stats)
  unfolding metrics_panel
  panel_of_reachable r stats history h k = rw (h, k) refl

  abbrev longer : Text → ℕ → SpecStats N → AppState N → List (SpecPoint N)
  longer t now stats s = take_last max_history (s.spec_history ++ spec_point num t now stats ∷ [])

  polled :
      (t : Text) (now : ℕ) (r : SpecResponse N) (stats : SpecStats N) (s : AppState N)
      → r.reachable ≡ true
      → r.spec ≡ some stats
      → poll_spec_done num t now (some r) s
        ≡ record s { spec = some r; spec_history = longer t now stats s }
  unfolding poll_spec_done
  polled t now r stats s h k = rw (h, k) refl

  -- A reply of a reachable server with its statistics becomes a point of the history, the oldest
  -- point going if there are more than 120, and the panel is not left waiting: rendering it throws
  -- exactly if one of the six numbers that it calls a method on is missing, though the point took
  -- these as 0.
  pub polled_panel :
      (t : Text) (now : ℕ) (r : SpecResponse N) (stats : SpecStats N) (s : AppState N)
      → r.reachable ≡ true
      → r.spec ≡ some stats
      → let s' = poll_spec_done num t now (some r) s in
        (s'.spec_history
          ≡ take_last max_history (s.spec_history ++ spec_point num t now stats ∷ []))
        × (metrics_panel num display s'.spec s'.spec_history ≢ waiting)
        × ((metrics_panel num display s'.spec s'.spec_history ≡ threw) ↔ MissesOne stats)
  polled_panel t now r stats s h k =
      let history = longer t now stats s in
      let panel = panel_of_reachable r stats history h k in
      let threw_iff = rendered_of-threw (some r) stats history (all_given stats) in
      let none_iff = all_given-missing stats in
      rw (polled t now r stats s h k) (
        refl,
        rw panel (rendered_of-waiting (some r) stats history (all_given stats)),
        rw panel (λ x. none_iff.0 (threw_iff.0 x), λ x. threw_iff.1 (none_iff.1 x)),
      )
