-- ===== src/Console/Quick.antt =====
-- A click of Quick start, seen from the browser.
use dspark_edge.Base.{Bool, List}
use dspark_edge.Numbers.{Numbers}
use dspark_edge.Types.{server, daemon, DashboardConfig}
use dspark_edge.Config.{Json}
use dspark_edge.Store.Actions.{Action}
use dspark_edge.World.{World, run}
use dspark_edge.Api.Actions.{Timeline, start_with}
use dspark_edge.Console.{Console}

module _ {N : Type 0} (num : Numbers N) (json : Json N) (written : Bool) (t : Timeline)
    (during : List (Action N)) (cfg : DashboardConfig N) (c : Console N) where
  -- The world while the handler waits, and the one that it leaves.
  abbrev pub with_daemon : World
  with_daemon = record c.world {
    manager = (start_with num.text t.first daemon cfg c.world.manager).0;
  }

  abbrev pub waited : World
  waited = run t.meanwhile with_daemon

  abbrev pub with_both : World
  with_both = record waited { manager = (start_with num.text t.second server cfg waited.manager).0 }
