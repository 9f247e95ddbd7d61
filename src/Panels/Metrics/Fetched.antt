-- ===== src/Panels/Metrics/Fetched.antt =====
-- The metrics panel after a poll, from the three answers that GET /api/spec waits for
-- (tools/llama-dspark-test-ui/app/api/spec/route.ts, lib/store.ts and
-- components/dashboard/metrics-panel.tsx).
mod Tests
use dspark_edge.Base.{
  ℕ, ◌≡◌, ◌↔◌, ◌≢◌, refl, Bool, true, false, ◌||◌, Option, none, some, List, [], ◌∷◌, ◌++◌, arith,
  take_last,
}
use dspark_edge.Base.Text.{Text}
use dspark_edge.Numbers.{Numbers}
use dspark_edge.Store.{
  SpecStats, SpecResponse, SpecPoint, AppState, max_history, spec_point, poll_spec_done,
}
use dspark_edge.Api.Urls.{Fetched, answered, threw, try_fetch, is_some, SpecReply, spec_reply}
use dspark_edge.Panels.StatCard.{Display}
use dspark_edge.Panels.Metrics.{Rendered, waiting, metrics_panel}
use dspark_edge.Panels.Metrics
use dspark_edge.Panels.Metrics.Laws.{MissesOne, polled_panel}

module _ {N A : Type 0} where
  -- The reply as the browser reads it.
  abbrev pub response_of : SpecReply (SpecStats N) A → SpecResponse N
  response_of r = record { base = r.base; reachable = r.reachable; spec = r.spec }

-- Statistics were answered, and one of the numbers that the panel calls a method on is missing.
abbrev pub Lacks : {N : Type 0} → Option (SpecStats N) → Type 0
Lacks none = ⊥
Lacks (some stats) = MissesOne stats

reached_with_stats :
    {S : Type 0} (o : Option S) (a b : Bool) → is_some o ≡ true → (a || is_some o || b) ≡ true
reached_with_stats o a b h = rw h (ground arith)

module _ {N : Type 0} (num : Numbers N) where
  -- The history after a poll.
  abbrev pub grown : Text → ℕ → Option (SpecStats N) → List (SpecPoint N) → List (SpecPoint N)
  grown t now none history = history
  grown t now (some stats) history =
      take_last max_history (history ++ spec_point num t now stats ∷ [])

module _ {N A : Type 0} (num : Numbers N) (display : Display N) where
  -- What the panel comes to once a poll has ended.
  abbrev pub panel_after : Text → ℕ → SpecReply (SpecStats N) A → AppState N → Rendered N
  panel_after t now r s =
      let s' = poll_spec_done num t now (some (response_of r)) s in
      metrics_panel num display s'.spec s'.spec_history

  abbrev Outcome : Text → ℕ → SpecReply (SpecStats N) A → AppState N → Option (SpecStats N) → Type 0
  Outcome t now r s stats =
      ((panel_after t now r s ≡ waiting) ↔ (stats ≡ none))
      × ((panel_after t now r s ≡ Metrics.threw) ↔ Lacks stats)
      × ((poll_spec_done num t now (some (response_of r)) s).spec_history
          ≡ grown num t now stats s.spec_history)

  outcome :
      (t : Text) (now : ℕ) (r : SpecReply (SpecStats N) A) (s : AppState N)
      (o : Option (SpecStats N))
      → r.spec ≡ o
      → (is_some o ≡ true → r.reachable ≡ true)
      → Outcome t now r s o
  unfolding poll_spec_done metrics_panel
  outcome t now r s none h reach =
      rw h ((λ _. refl, λ _. refl), (λ x. absurd (cc), λ x. absurd x), refl)
  outcome t now r s (some stats) h reach =
      let (history, shows, throws) =
        polled_panel num display t now (response_of r) stats s (reach refl) h in
      ((λ w. absurd (shows w), λ n. absurd (cc)), throws, history)

  -- After a poll, the metrics panel waits exactly if the server's /debug/spec gave no statistics in
  -- time, whatever /health and /props answered; rendering it throws exactly if statistics came with
  -- one of the six numbers missing that the panel calls a method on; and the history has got the
  -- point of the statistics, the oldest going if there are more than 120, or is as it was if none
  -- came.
  pub fetched_panel :
      (t base : Text) (now : ℕ) (spec : Fetched (SpecStats N)) (health props : Fetched A)
      (s : AppState N)
      → let s' =
          poll_spec_done num t now (some (response_of (spec_reply base spec health props))) s in
        let panel = metrics_panel num display s'.spec s'.spec_history in
        ((panel ≡ waiting) ↔ (try_fetch spec ≡ none))
        × ((panel ≡ Metrics.threw) ↔ Lacks (try_fetch spec))
        × (s'.spec_history ≡ grown num t now (try_fetch spec) s.spec_history)
  unfolding spec_reply
  fetched_panel t base now spec health props s =
      outcome t now (spec_reply base spec health props) s (try_fetch spec) refl (λ here.
        reached_with_stats (try_fetch spec) (is_some (try_fetch health)) (is_some (try_fetch props))
          here)
