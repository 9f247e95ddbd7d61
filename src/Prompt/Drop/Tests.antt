-- ===== src/Prompt/Drop/Tests.antt =====
-- The drop listeners at concrete renderings, and the theorem on them.
use dspark_edge.Base.Text.{lit}
use dspark_edge.Prompt.Accept.{File}

abbrev picture : File
picture = record { name = lit "a.png"; media = lit "image/png"; size = 3 }
