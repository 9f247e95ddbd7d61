-- ===== src/Panels/Pickers/Tests.antt =====
-- A model picker over a concrete directory, and the theorem on it.
use mathlib.Core.List.{Memᴰ}
use dspark_edge.Base.{ℕ, ◌≡◌, ◌++◌, true, false, none, some, [], ◌∷◌, ltb, leb, if◌then◌else◌}
use dspark_edge.Base.Text.{Text, lit, decimal}
use dspark_edge.Types.{ModelEntry}
use dspark_edge.Store
use dspark_edge.Api.Models.{Names, Nodes, nil, cons, file, directory, dir_or}
use dspark_edge.Api.Models.Laws.{Lies}
use dspark_edge.Config.{override}
use dspark_edge.Panels.StatCard.{Display}
use dspark_edge.Panels.Pickers.{ModelItem, model_picker_view}
use dspark_edge.Panels.Pickers.Listed.{listed, picker_offers}
use dspark_edge.Samples.{sample_numbers}

abbrev names : Names
names = record { join = λ dir name. dir ++ name; lower = λ name. name; before = λ a b. true }

abbrev display : Display ℕ
display = record {
  to_fixed = λ digits n. decimal n;
  to_locale = decimal;
  least = λ a b. if leb a b then a else b;
  most = λ a b. if leb a b then b else a;
  is_positive = ltb 0;
}

-- A directory with one model file in a directory of its own.
abbrev tree : Text → Nodes
tree dir = cons (directory (100 ∷ []) true (cons (file (lit "m.gguf") (some 5)) nil)) nil

picker_offers_example :
    let dir = dir_or names (override none) (lit "/models") in
    let s = listed {N = ℕ} names none (lit "/models") tree Store.initial in
    let items =
      (model_picker_view sample_numbers display (lit "Model") [] s.models none false).items in
    ((m : ModelEntry)
      → Lies names m dir 2 (tree dir)
      → (i : ModelItem) × Memᴰ i items × (i.value ≡ m.path) × (i.name ≡ m.name))
    × ((i : ModelItem)
        → Memᴰ i items
        → (m : ModelEntry) × Lies names m dir 2 (tree dir) × (i.value ≡ m.path) × (i.name ≡ m.name))
    × (s.models_dir ≡ dir)
picker_offers_example =
    picker_offers names none (lit "/models") tree Store.initial sample_numbers display (lit "Model")
      [] none false
