-- ===== src/Process/Tests.antt =====
-- The theorems on the process manager (tools/llama-dspark-test-ui/lib/process-manager.ts) at
-- concrete inputs.
use dspark_edge.Base.{
  ℕ, ◌≡◌, refl, true, false, List, [], ◌∷◌, ◌++◌, arith, take_last, All, map, if◌then◌else◌,
}
use dspark_edge.Base.Text.{lit, is_space, trim}
use dspark_edge.Types.{server, daemon, stdout, ProcStatus, ServerConfig, same_proc}
use dspark_edge.Process.{
  Manager, Child, child, new, proc, busy, start, Outcome, push_log, status_of, max_log_lines, new,
  blank_proc, not_found, launch, missing,
}
use dspark_edge.Process.Lines.{split_lines}
use dspark_edge.Process.Lifecycle.{core, started, Refusal, start_ok, start_thrown}
use dspark_edge.Process.Ring.{numbered, logs-push_log}
use dspark_edge.Process.Tokenize.{tokenize_extra}
use dspark_edge.Process.Tokenize.Fuel.{Scan, tokenize_extra-Scan}
use dspark_edge.Process.Tokenize.RoundTrip.{
  Arg, bare, double_quoted, value, IsWritable, command_text, tokenize_extra-command_text,
}
use dspark_edge.Samples.{sample_env, bare_env, sample_bin, sample_server}

abbrev local_server : ServerConfig ℕ
local_server = record sample_server { remote_spec = false; extra_args = 45 ∷ 118 ∷ [] }

-- A server that was started on a manager without processes.
abbrev up : Manager × Outcome
up = start sample_env server sample_bin [] new

logs-push_log_example :
    (proc (push_log sample_env server stdout (104 ∷ 10 ∷ 105 ∷ []) new) server).logs
    ≡ take_last max_log_lines (
        (proc new server).logs
        ++ numbered sample_env server stdout new.log_seq (split_lines (104 ∷ 10 ∷ 105 ∷ [])))
unfolding new blank_proc
logs-push_log_example =
    logs-push_log sample_env server stdout (104 ∷ 10 ∷ 105 ∷ []) new (omega arith)

abbrev sample_args : List Arg
sample_args = bare (45 ∷ 118 ∷ []) ∷ double_quoted (97 ∷ 32 ∷ 98 ∷ []) ∷ []

sample_args-IsWritable : All IsWritable sample_args
unfolding is_space
sample_args-IsWritable = (
  ((refl, (refl, tt)), (omega arith, omega arith)),
  ((omega arith, (omega arith, (omega arith, tt))), tt),
)

tokenize_extra-command_text_example :
    tokenize_extra (command_text sample_args) ≡ map value sample_args
tokenize_extra-command_text_example = tokenize_extra-command_text sample_args sample_args-IsWritable

abbrev up_status : ProcStatus
up_status = status_of up.0 server

start_ok_example :
    (c : Child) × (sample_env.spawn sample_bin [] ≡ child c)
    × (busy (proc new server) ≡ false)
    × (sample_env.exists sample_bin ≡ true)
    × (up_status ≡ (core up.0 server).status)
    × (core up.0 daemon ≡ (
        if same_proc server daemon
        then started sample_env sample_bin [] c (core new daemon)
        else core new daemon))
start_ok_example =
    start_ok sample_env server daemon sample_bin [] new up_status
      (unfold start launch new blank_proc in refl)

start_thrown_example : Refusal bare_env server sample_bin [] new (not_found sample_bin)
start_thrown_example =
    start_thrown bare_env server sample_bin [] new (not_found sample_bin)
      (unfold start missing new blank_proc in refl)

-- `-v "a b"`
tokenize_extra-Scan_example : Scan (trim (lit "-v \"a b\"")) (tokenize_extra (lit "-v \"a b\""))
tokenize_extra-Scan_example = tokenize_extra-Scan (lit "-v \"a b\"")
