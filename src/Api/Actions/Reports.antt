-- ===== src/Api/Actions/Reports.antt =====
-- Every answer to a known action carries the status of both processes.
use dspark_edge.Base.{◌≡◌, ◌⊎◌, refl, inl, inr}
use dspark_edge.Base.Text.{Text}
use dspark_edge.Types.{ProcId, server, daemon, DashboardConfig}
use dspark_edge.Process.{Env, Manager, Outcome, returned, thrown}
use dspark_edge.Store.{
  ActionName, start_server, stop_server, start_daemon, stop_daemon, quickstart, stop_all,
}
use dspark_edge.World.{World, run}
use dspark_edge.Api.Actions.{
  Response, accepted, refused, Timeline, statuses, accept, start_with, go_on, try_start, perform,
}

-- A response that carries the status of both processes at its own time.
abbrev pub Reports : World × Response → Type 0
Reports r = (r.1 ≡ accepted (statuses r.0)) ⊎ ((msg : Text) × (r.1 ≡ refused msg (statuses r.0)))

module _ {N : Type 0} (text : N → Text) where
  go_on-Reports :
      (w : World) (r : Manager × Outcome) (next : World → World × Response)
      → ((v : World) → Reports (next v))
      → Reports (go_on text w r next)
  go_on-Reports w (m, returned s) next h = h (record w { manager = m })
  go_on-Reports w (m, thrown msg) next h = inr (msg, refl)

  try_start-Reports :
      (e : Env) (id : ProcId) (cfg : DashboardConfig N) (w : World)
      (next : World → World × Response)
      → ((v : World) → Reports (next v))
      → Reports (try_start text e id cfg w next)
  unfolding try_start
  try_start-Reports e id cfg w next h = go_on-Reports w (start_with text e id cfg w.manager) next h

  accept-Reports : (v : World) → Reports (accept v)
  accept-Reports v = inl refl

  pub perform-Reports :
      (t : Timeline) (a : ActionName) (cfg : DashboardConfig N) (w : World)
      → Reports (perform text t a cfg w)
  unfolding perform
  perform-Reports t start_server cfg w =
      try_start-Reports t.first server cfg w accept accept-Reports
  perform-Reports t stop_server cfg w = inl refl
  perform-Reports t start_daemon cfg w =
      try_start-Reports t.first daemon cfg w accept accept-Reports
  perform-Reports t stop_daemon cfg w = inl refl
  perform-Reports t quickstart cfg w =
      try_start-Reports t.first daemon cfg w
        (λ w'. try_start text t.second server cfg (run t.meanwhile w') accept)
        (λ v. try_start-Reports t.second server cfg (run t.meanwhile v) accept accept-Reports)
  perform-Reports t stop_all cfg w = inl refl
