-- ===== src/Api/Models.antt =====
-- GET /api/models (tools/llama-dspark-test-ui/app/api/models/route.ts): the .gguf files below a
-- directory, two levels down. The file system is given as a tree.
pub mod Laws
use dspark_edge.Base.{
  ℕ, zero, suc, ◌≡◌, Bool, true, false, Option, none, some, List, [], ◌∷◌, ◌++◌, if◌then◌else◌,
}
use dspark_edge.Base.Sorting.{sort}
use dspark_edge.Base.Text.{Text, lit, ends_with}
use dspark_edge.Types.{ModelEntry}
use dspark_edge.Config.{override}

-- A directory entry: a file and its size, if `statSync` gives one; a directory, whether it can be
-- read, and its entries; anything else, such as a link.
mutual
  pub data Node : Type 0 where
    file : Text → Option ℕ → Node
    directory : Text → (readable : Bool) → Nodes → Node
    other : Text → Node

  pub data Nodes : Type 0 where
    nil : Nodes
    cons : Node → Nodes → Nodes

abbrev pub size_of : Option ℕ → ℕ
size_of none = 0
size_of (some n) = n

-- What the route takes from the host: `path.join`, `toLowerCase`, and whether the first of two
-- names may stand before the second by `localeCompare`.
pub record Names : Type 0 where
  pub join : Text → Text → Text
  pub lower : Text → Text
  pub before : Text → Text → Bool

module _ (n : Names) where
  abbrev pub is_model : Text → Bool
  is_model name = ends_with (lit ".gguf") (n.lower name)

  abbrev pub entry : Text → Text → Option ℕ → ModelEntry
  entry dir name size = record { name = name; path = n.join dir name; size_bytes = size_of size }

  -- The loop of `walk` over the entries of `dir`, `depth` levels further down.
  pub walk : Text → ℕ → Nodes → List ModelEntry
  walk dir depth nil = []
  walk dir depth (cons (file name size) rest) =
      let found = walk dir depth rest in
      if is_model name then entry dir name size ∷ found else found
  walk dir (suc depth) (cons (directory name true sub) rest) =
      walk (n.join dir name) depth sub ++ walk dir (suc depth) rest
  walk dir depth (cons (directory name readable sub) rest) = walk dir depth rest
  walk dir depth (cons (other name) rest) = walk dir depth rest

  -- `url.searchParams.get("dir") || modelsDir()`
  abbrev pub dir_or : Option Text → Text → Text
  dir_or none models_dir = models_dir
  dir_or (some t) models_dir = t

  unfoldable pub list_models : Option Text → Text → (Text → Nodes) → Text × List ModelEntry
  list_models query models_dir read =
      let dir = dir_or (override query) models_dir in
      (dir, sort (λ a b. n.before a.name b.name) (walk dir 2 (read dir)))
