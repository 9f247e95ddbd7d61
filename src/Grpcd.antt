-- ===== src/Grpcd.antt =====
-- The options of the edge daemon: cmdline_args and parse_args of tools/llama-dspark-grpcd/main.cpp, at
-- the repository's root. `std::atoi` is a parameter.
pub mod Laws
mod Tests
use dspark_edge.Base.{ℕ, Bool, true, false, List, [], ◌∷◌, if◌then◌else◌}
use dspark_edge.Base.Text.{Text, lit, text_eq}
use dspark_edge.Numbers.{Numbers}

pub record CmdlineArgs (N : Type 0) : Type 0 where
  pub model_path : Text
  pub target_model_path : Text
  pub host : Text
  pub port : N
  pub n_threads : N
  pub n_ctx : N
  pub watch : Bool
  pub selftest : Bool
  pub replay_dir : Text

-- The options that take a value, those that do not, and a word that is no option.
pub data OptionKind : Type 0 where
  model target_model host port threads ctx_size replay : OptionKind
  watch selftest help unknown : OptionKind

-- How the parsing ends: with the settings, or with the exit code of the program.
pub data Parsed (N : Type 0) : Type 0 where
  parsed : CmdlineArgs N → Parsed N
  exited : ℕ → Parsed N

pub option_of : Text → OptionKind
option_of arg =
    if text_eq arg (lit "--model")
    then model
    else if text_eq arg (lit "-m")
    then model
    else if text_eq arg (lit "--target-model")
    then target_model
    else if text_eq arg (lit "--host")
    then host
    else if text_eq arg (lit "--port")
    then port
    else if text_eq arg (lit "--threads")
    then threads
    else if text_eq arg (lit "--ctx-size")
    then ctx_size
    else if text_eq arg (lit "--watch")
    then watch
    else if text_eq arg (lit "--selftest")
    then selftest
    else if text_eq arg (lit "--replay")
    then replay
    else if text_eq arg (lit "--help")
    then help
    else if text_eq arg (lit "-h")
    then help
    else unknown

module _ {N : Type 0} (num : Numbers N) (atoi : Text → N) where
  pub default_args : CmdlineArgs N
  default_args = record {
    model_path = [];
    target_model_path = [];
    host = lit "0.0.0.0";
    port = num.of_nat 50051;
    n_threads = num.of_nat 4;
    n_ctx = num.of_nat 4096;
    watch = false;
    selftest = false;
    replay_dir = [];
  }

  -- The rounds of the loop, on what is left of the arguments. An option that takes a value is one
  -- only if there is a word after it.
  pub parse_from : List Text → CmdlineArgs N → Parsed N
  parse_from [] args = parsed args
  parse_from (arg ∷ []) args = elim (option_of arg) [
    | watch ↦ parsed (record args { watch = true })
    | selftest ↦ parsed (record args { selftest = true })
    | help ↦ exited 0
    | _ ↦ exited 1
  ]
  parse_from (arg ∷ value ∷ rest) args = elim (option_of arg) [
    | model ↦ parse_from rest (record args { model_path = value })
    | target_model ↦ parse_from rest (record args { target_model_path = value })
    | host ↦ parse_from rest (record args { host = value })
    | port ↦ parse_from rest (record args { port = atoi value })
    | threads ↦ parse_from rest (record args { n_threads = atoi value })
    | ctx_size ↦ parse_from rest (record args { n_ctx = atoi value })
    | replay ↦ parse_from rest (record args { replay_dir = value })
    | watch ↦ parse_from (value ∷ rest) (record args { watch = true })
    | selftest ↦ parse_from (value ∷ rest) (record args { selftest = true })
    | help ↦ exited 0
    | unknown ↦ exited 1
  ]

  -- `parse_args`, on the arguments after the program's name.
  pub parse_args : List Text → Parsed N
  parse_args argv = parse_from argv default_args
