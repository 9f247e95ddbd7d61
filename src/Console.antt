-- ===== src/Console.antt =====
-- One click of an action, from the store (tools/llama-dspark-test-ui/lib/store.ts, `runAction`)
-- through POST /api/process (app/api/process/route.ts) to the manager, and back.
pub mod Laws
pub mod Clicks
pub mod Quick
pub mod AllStop
pub mod Edited
pub mod Refused
pub mod EditLost
pub mod Preset
mod Tests
use dspark_edge.Base.{Bool, true, false, Option, none, some, List, []}
use dspark_edge.Base.Text.{Text, lit}
use dspark_edge.Numbers.{Numbers}
use dspark_edge.Types.{DashboardConfig}
use dspark_edge.Config.{Json}
use dspark_edge.Store.{
  ActionName, AppState, ActionReply, ActionResult, replied, failed, run_action_begin,
  run_action_end,
}
use dspark_edge.Store.Actions.{Action, act_all}
use dspark_edge.Process.{Env}
use dspark_edge.World.{World, Event, run}
use dspark_edge.Api.Actions.{Response, accepted, refused, unknown_action, Timeline, post}

-- The JSON and the code of a response, as `runAction` reads them.
unfoldable pub reply_of : Response → ActionReply
reply_of (accepted st) = replied true none (some st)
reply_of (refused msg st) = replied false (some msg) (some st)
reply_of unknown_action = replied false (some (lit "unknown action")) none

-- What a click reads and leaves: the configuration file, the manager's world, the browser's state.
pub record Console (N : Type 0) : Type 0 where
  pub file : Option Text
  pub world : World
  pub state : AppState N

-- The way of a request: it never got to the handler; it was handled, and the response was lost or
-- its body is no JSON; or the response arrived. A failure has the message of the error that `fetch`
-- or `json` throws. `later` is what runs in the manager until the browser hears of it, after the
-- response was made.
pub data Delivery : Type 0 where
  unsent broken : (msg : Text) → (later : List (Env × Event)) → Delivery
  arrives : (later : List (Env × Event)) → Delivery

module _ {N : Type 0} (num : Numbers N) (json : Json N) where
  -- What `runAction` makes of the reply or the error, on the state that it finds then.
  abbrev finish :
      ActionName → ActionReply → Option Text → World → AppState N → Console N × ActionResult
  finish a reply file world s =
      let (state, result) = run_action_end a reply s in
      (record { file = file; world = world; state = state }, result)

  -- The request on its way.
  pub deliver :
      Delivery
      → Bool
      → Timeline
      → ActionName
      → DashboardConfig N
      → Console N
      → Console N × ActionResult
  deliver (unsent msg later) written t a cfg c =
      finish a (failed msg) c.file (run later c.world) c.state
  deliver (broken msg later) written t a cfg c =
      let ((file, w), r) = post num.text json written t (some a) cfg (c.file, c.world) in
      finish a (failed msg) file (run later w) c.state
  deliver (arrives later) written t a cfg c =
      let ((file, w), r) = post num.text json written t (some a) cfg (c.file, c.world) in
      finish a (reply_of r) file (run later w) c.state

  -- The request that `runAction` sends and what it makes of the reply. `during` are the actions of
  -- the store that run while the reply is awaited.
  pub click_with :
      Delivery
      → Bool
      → Timeline
      → List (Action N)
      → ActionName
      → Option (DashboardConfig N)
      → Console N
      → Console N × ActionResult
  click_with d written t during a none c =
      (c, record { ok = false; error = some (lit "config not loaded") })
  click_with d written t during a (some cfg) c =
      deliver d written t a cfg
        (record c { state = act_all num during (run_action_begin a c.state).0 })

  -- The whole of `runAction`, which sends nothing without a configuration.
  pub run_action :
      Delivery
      → Bool
      → Timeline
      → List (Action N)
      → ActionName
      → Console N
      → Console N × ActionResult
  run_action d written t during a c = click_with d written t during a c.state.config c

  -- A click whose response arrives before anything more happens in the manager.
  pub click : Bool → Timeline → List (Action N) → ActionName → Console N → Console N × ActionResult
  click written t during a c = run_action (arrives []) written t during a c
