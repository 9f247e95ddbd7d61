-- ===== src/Api/Urls/Laws.antt =====
-- The two routes call the same server.
use dspark_edge.Base.{if◌then◌else◌, ◌≡◌, ◌≢◌, ap, ◌++◌, refl, Option, none, some, [], ◌∷◌, arith}
use dspark_edge.Base.Text.{Text, lit, text_eq}
use dspark_edge.Types.{DashboardConfig}
use dspark_edge.Api.Urls.{
  strip_slash, reachable_host, spec_base, chat_base, chat_url, server_url, spec_base_with,
  chat_base_with,
}
use dspark_edge.Config.{override}

-- A text without a slash at its end.
abbrev pub NoSlashEnd : Text → Type 0
NoSlashEnd [] = Unit
NoSlashEnd (c ∷ []) = c ≢ 47
NoSlashEnd (c ∷ d ∷ s) = NoSlashEnd (d ∷ s)

strip_slash_same : (s : Text) → NoSlashEnd s → strip_slash s ≡ s
unfolding strip_slash
strip_slash_same [] h = refl
strip_slash_same (c ∷ []) h = ground arith
strip_slash_same (c ∷ d ∷ s) h = ap (λ t. c ∷ t) (strip_slash_same (d ∷ s) h)

NoSlashEnd-append : (s t : Text) → t ≢ [] → NoSlashEnd t → NoSlashEnd (s ++ t)
NoSlashEnd-append [] t n h = h
NoSlashEnd-append (c ∷ []) [] n h = absurd (n refl)
NoSlashEnd-append (c ∷ []) (d ∷ t) n h = h
NoSlashEnd-append (c ∷ d ∷ s) t n h = NoSlashEnd-append (d ∷ s) t n h

append-ne-nil : (s t : Text) → t ≢ [] → s ++ t ≢ []
append-ne-nil [] t n = n
append-ne-nil (c ∷ s) t n = cc

colon-NoSlashEnd : (t : Text) → NoSlashEnd t → NoSlashEnd (58 ∷ t)
colon-NoSlashEnd [] h = omega arith
colon-NoSlashEnd (c ∷ t) h = h

server_url-NoSlashEnd :
    {N : Type 0} (text : N → Text) (cfg : DashboardConfig N)
    → NoSlashEnd (text cfg.server.http_port)
    → NoSlashEnd (server_url text cfg)
unfolding server_url lit
server_url-NoSlashEnd text cfg h =
    let port = 58 ∷ text cfg.server.http_port in
    let host = reachable_host cfg.server.host in
    NoSlashEnd-append (lit "http://") (host ++ port) (append-ne-nil host port (cc))
      (NoSlashEnd-append host port (cc) (colon-NoSlashEnd (text cfg.server.http_port) h))

bases_agree :
    {N : Type 0} (text : N → Text) (base : Option Text) (cfg : DashboardConfig N)
    → NoSlashEnd (server_url text cfg)
    → strip_slash (chat_base_with text base cfg) ≡ spec_base_with text base cfg
bases_agree text none cfg h = strip_slash_same (server_url text cfg) h
bases_agree text (some base) cfg h = refl

-- On the same configuration and the same `base`, given or not, the metrics and the chat reach the
-- same server, given that the port's text does not end in a slash.
pub chat_base-spec_base :
    {N : Type 0} (text : N → Text) (base : Option Text) (cfg : DashboardConfig N)
    → NoSlashEnd (text cfg.server.http_port)
    → chat_base text base cfg ≡ spec_base text base cfg
unfolding chat_base spec_base
chat_base-spec_base text base cfg h =
    bases_agree text (override base) cfg (server_url-NoSlashEnd text cfg h)

-- Without a `base`, the chat goes to the host and the port of the settings, or to this machine if the
-- host is the address of all interfaces.
pub chat_url_own :
    {N : Type 0} (text : N → Text) (cfg : DashboardConfig N)
    → NoSlashEnd (text cfg.server.http_port)
    → chat_url text none cfg
      ≡ (lit "http://"
          ++ ((if text_eq cfg.server.host (lit "0.0.0.0") then lit "127.0.0.1" else cfg.server.host)
              ++ (lit ":" ++ text cfg.server.http_port)))
        ++ lit "/v1"
unfolding chat_url chat_base server_url reachable_host
chat_url_own text cfg h =
    ap (λ u. u ++ lit "/v1")
      (strip_slash_same (server_url text cfg) (server_url-NoSlashEnd text cfg h))
