-- ===== src/Panels/Fields.antt =====
-- The forms of the two cards (ServerCard and DaemonCard of
-- tools/llama-dspark-test-ui/components/dashboard/launch-cards.tsx) and their fields
-- (components/dashboard/fields.tsx): what they show, and the patch that an edit makes.
use dspark_edge.Base.{◌≡◌, refl, Bool, true, Option, none, some, List, [], ◌∷◌, ◌++◌, if◌then◌else◌}
use dspark_edge.Base.Text.{Text, lit}
use dspark_edge.Types.{
  FlashAttn, ServerConfig, DaemonConfig, DashboardConfig, ServerPatch, DaemonPatch,
}
use dspark_edge.Config.{empty_server, empty_daemon, merge_server}
use dspark_edge.Store.{AppState, patch_server}

-- A field with its label and the value that it shows.
pub data Field (N : Type 0) : Type 0 where
  text_field : Text → Text → Field N
  model_picker : Text → Text → Field N
  number_field : Text → N → Field N
  choice_field : Text → FlashAttn → Field N
  switch_field : Text → Bool → Field N

-- What a number field hands on of the text typed into it: `number` is `Number(s)`, none for NaN.
pub number_typed : {N : Type 0} → (number : Text → Option N) → (nought : N) → Text → N
number_typed number nought [] = nought
number_typed number nought (c ∷ s) = elim (number (c ∷ s)) [ none ↦ nought | some n ↦ n ]

-- An edit of one field of a card.
pub data ServerEdit (N : Type 0) : Type 0 where
  to_target_model to_host to_grpc_target to_extra_args : Text → ServerEdit N
  to_http_port to_ctx_size to_n_gpu_layers to_parallel to_n_max to_temp to_top_k : N → ServerEdit N
  to_flash_attn : FlashAttn → ServerEdit N
  to_remote_spec : Bool → ServerEdit N

pub data DaemonEdit (N : Type 0) : Type 0 where
  to_draft_model to_target_model to_host to_extra_args : Text → DaemonEdit N
  to_grpc_port to_threads to_ctx_size : N → DaemonEdit N

module _ {N : Type 0} where
  -- The fields of the remote drafter are there only while remote decoding is on.
  abbrev pub remote_fields : ServerConfig N → List (Field N)
  remote_fields cfg =
      if cfg.remote_spec
      then text_field (lit "Edge gRPC target") cfg.grpc_target
        ∷ number_field (lit "n-max") cfg.n_max
        ∷ number_field (lit "temp") cfg.temp
        ∷ number_field (lit "top-k") cfg.top_k
        ∷ []
      else []

  pub server_card : ServerConfig N → List (Field N)
  server_card cfg =
      (model_picker (lit "Main model (target)") cfg.target_model
        ∷ text_field (lit "Host") cfg.host
        ∷ number_field (lit "HTTP port") cfg.http_port
        ∷ number_field (lit "Context size") cfg.ctx_size
        ∷ number_field (lit "GPU layers") cfg.n_gpu_layers
        ∷ choice_field (lit "Flash attention") cfg.flash_attn
        ∷ number_field (lit "Parallel") cfg.parallel
        ∷ switch_field (lit "Remote DSpark speculative decoding") cfg.remote_spec
        ∷ [])
      ++ (remote_fields cfg ++ text_field (lit "Extra args") cfg.extra_args ∷ [])

  pub daemon_card : DaemonConfig N → List (Field N)
  daemon_card cfg =
      model_picker (lit "Draft model (DSpark)") cfg.draft_model
      ∷ model_picker (lit "Target model (dflash / Qwen3 only)") cfg.target_model
      ∷ text_field (lit "Host") cfg.host
      ∷ number_field (lit "gRPC port") cfg.grpc_port
      ∷ number_field (lit "Threads") cfg.threads
      ∷ number_field (lit "Context size") cfg.ctx_size
      ∷ text_field (lit "Extra args") cfg.extra_args
      ∷ []

  -- The `onChange` of the server card's fields.
  pub server_edit : ServerEdit N → ServerPatch N
  server_edit (to_target_model v) = record empty_server { target_model = some v }
  server_edit (to_host v) = record empty_server { host = some v }
  server_edit (to_grpc_target v) = record empty_server { grpc_target = some v }
  server_edit (to_extra_args v) = record empty_server { extra_args = some v }
  server_edit (to_http_port v) = record empty_server { http_port = some v }
  server_edit (to_ctx_size v) = record empty_server { ctx_size = some v }
  server_edit (to_n_gpu_layers v) = record empty_server { n_gpu_layers = some v }
  server_edit (to_parallel v) = record empty_server { parallel = some v }
  server_edit (to_n_max v) = record empty_server { n_max = some v }
  server_edit (to_temp v) = record empty_server { temp = some v }
  server_edit (to_top_k v) = record empty_server { top_k = some v }
  server_edit (to_flash_attn v) = record empty_server { flash_attn = some v }
  server_edit (to_remote_spec v) = record empty_server { remote_spec = some v }

  -- The `onChange` of the daemon card's fields.
  pub daemon_edit : DaemonEdit N → DaemonPatch N
  daemon_edit (to_draft_model v) = record empty_daemon { draft_model = some v }
  daemon_edit (to_target_model v) = record empty_daemon { target_model = some v }
  daemon_edit (to_host v) = record empty_daemon { host = some v }
  daemon_edit (to_extra_args v) = record empty_daemon { extra_args = some v }
  daemon_edit (to_grpc_port v) = record empty_daemon { grpc_port = some v }
  daemon_edit (to_threads v) = record empty_daemon { threads = some v }
  daemon_edit (to_ctx_size v) = record empty_daemon { ctx_size = some v }

  -- The configuration with the one setting replaced that an edit is about.
  abbrev pub with_edit : ServerEdit N → ServerConfig N → ServerConfig N
  with_edit (to_target_model v) c = record c { target_model = v }
  with_edit (to_host v) c = record c { host = v }
  with_edit (to_grpc_target v) c = record c { grpc_target = v }
  with_edit (to_extra_args v) c = record c { extra_args = v }
  with_edit (to_http_port v) c = record c { http_port = v }
  with_edit (to_ctx_size v) c = record c { ctx_size = v }
  with_edit (to_n_gpu_layers v) c = record c { n_gpu_layers = v }
  with_edit (to_parallel v) c = record c { parallel = v }
  with_edit (to_n_max v) c = record c { n_max = v }
  with_edit (to_temp v) c = record c { temp = v }
  with_edit (to_top_k v) c = record c { top_k = v }
  with_edit (to_flash_attn v) c = record c { flash_attn = v }
  with_edit (to_remote_spec v) c = record c { remote_spec = v }

  merge_server-server_edit :
      (e : ServerEdit N) (c : ServerConfig N) → merge_server c (server_edit e) ≡ with_edit e c
  unfolding merge_server server_edit empty_server
  merge_server-server_edit (to_target_model v) c = refl
  merge_server-server_edit (to_host v) c = refl
  merge_server-server_edit (to_grpc_target v) c = refl
  merge_server-server_edit (to_extra_args v) c = refl
  merge_server-server_edit (to_http_port v) c = refl
  merge_server-server_edit (to_ctx_size v) c = refl
  merge_server-server_edit (to_n_gpu_layers v) c = refl
  merge_server-server_edit (to_parallel v) c = refl
  merge_server-server_edit (to_n_max v) c = refl
  merge_server-server_edit (to_temp v) c = refl
  merge_server-server_edit (to_top_k v) c = refl
  merge_server-server_edit (to_flash_attn v) c = refl
  merge_server-server_edit (to_remote_spec v) c = refl

  -- An edit of a field of the server card replaces that one setting, leaves every other setting of
  -- both programs, and marks the configuration as unsaved.
  pub patch_server-server_edit :
      (e : ServerEdit N) (s : AppState N) (cfg : DashboardConfig N)
      → s.config ≡ some cfg
      → let s' = patch_server (server_edit e) s in
        (s'.config ≡ some (record cfg { server = with_edit e cfg.server })) × (s'.dirty ≡ true)
  unfolding patch_server
  patch_server-server_edit e s cfg h = rw (h, merge_server-server_edit) (refl, refl)
