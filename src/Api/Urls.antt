-- ===== src/Api/Urls.antt =====
-- The address of llama-server in GET /api/spec (tools/llama-dspark-test-ui/app/api/spec/route.ts)
-- and in POST /api/chat (app/api/chat/route.ts).
pub mod Laws
use dspark_edge.Base.{
  ℕ, ◌≡◌, Bool, true, false, ◌||◌, Option, none, some, List, [], ◌∷◌, ◌++◌, ◌==◌, if◌then◌else◌,
}
use dspark_edge.Base.Text.{Text, lit, text_eq}
use dspark_edge.Types.{DashboardConfig}
use dspark_edge.Config.{override}

-- `s.replace(/\/$/, "")`
pub strip_slash : Text → Text
strip_slash [] = []
strip_slash (c ∷ []) = if c == 47 then [] else c ∷ []
strip_slash (c ∷ d ∷ s) = c ∷ strip_slash (d ∷ s)

-- 0.0.0.0 is an address to listen on, not one to call.
pub reachable_host : Text → Text
reachable_host host = if text_eq host (lit "0.0.0.0") then lit "127.0.0.1" else host

module _ {N : Type 0} (text : N → Text) where
  pub server_url : DashboardConfig N → Text
  server_url cfg =
      lit "http://" ++ (reachable_host cfg.server.host ++ (lit ":" ++ text cfg.server.http_port))

  abbrev pub spec_base_with : Option Text → DashboardConfig N → Text
  spec_base_with none cfg = server_url cfg
  spec_base_with (some base) cfg = strip_slash base

  -- `baseUrl` of the spec route, on its `base` parameter.
  pub spec_base : Option Text → DashboardConfig N → Text
  spec_base base cfg = spec_base_with (override base) cfg

  abbrev pub chat_base_with : Option Text → DashboardConfig N → Text
  chat_base_with none cfg = server_url cfg
  chat_base_with (some base) cfg = base

  -- The chat route's base, on the `base` of its body.
  pub chat_base : Option Text → DashboardConfig N → Text
  chat_base base cfg = strip_slash (chat_base_with (override base) cfg)

  -- The `baseURL` that the chat route hands to the provider.
  pub chat_url : Option Text → DashboardConfig N → Text
  chat_url base cfg = chat_base base cfg ++ lit "/v1"

-- `tryFetch`: an answer that failed, timed out, was no success or did not parse is null.
pub data Fetched (A : Type 0) : Type 0 where
  answered : (ok : Bool) → Option A → Fetched A
  threw : Fetched A

unfoldable pub try_fetch : {A : Type 0} → Fetched A → Option A
try_fetch threw = none
try_fetch (answered false body) = none
try_fetch (answered true body) = body

abbrev pub is_some : {A : Type 0} → Option A → Bool
is_some none = false
is_some (some a) = true

pub record SpecReply (S A : Type 0) : Type 0 where
  pub base : Text
  pub reachable : Bool
  pub spec : Option S
  pub health : Option A
  pub props : Option A

unfoldable pub spec_reply :
    {S A : Type 0} → Text → Fetched S → Fetched A → Fetched A → SpecReply S A
spec_reply base spec health props = record {
  base = base;
  reachable = is_some (try_fetch health) || is_some (try_fetch spec) || is_some (try_fetch props);
  spec = try_fetch spec;
  health = try_fetch health;
  props = try_fetch props;
}
