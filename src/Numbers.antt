-- ===== src/Numbers.antt =====
-- The JavaScript numbers that the console computes with. The host gives them: a number type, the
-- whole numbers in it, `String(n)`, and the arithmetic of the metrics.
use dspark_edge.Base.{ℕ}
use dspark_edge.Base.Text.{Text}

pub record Numbers (N : Type 0) : Type 0 where
  pub of_nat : ℕ → N
  pub text : N → Text
  pub times : N → N → N
  pub over : N → N → N
  pub round : N → N
