-- ===== src/Grpcd/Tests.antt =====
-- The daemon's options at concrete arguments.
use dspark_edge.Base.{ℕ, ◌+◌, ◌*◌, ◌-◌, [], ◌∷◌}
use dspark_edge.Base.Text.{Text, lit}
use dspark_edge.Types.{DaemonConfig}
use dspark_edge.Samples.{sample_daemon}

-- `atoi` on digits.
abbrev atoi_from : ℕ → Text → ℕ
atoi_from n [] = n
atoi_from n (c ∷ s) = atoi_from (n * 10 + (c - 48)) s

abbrev sample_atoi : Text → ℕ
sample_atoi = atoi_from 0

-- The host is given a second time.
abbrev overridden : DaemonConfig ℕ
overridden = record sample_daemon { extra_args = lit "--host ::" }
