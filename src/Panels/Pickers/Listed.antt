-- ===== src/Panels/Pickers/Listed.antt =====
-- From the directory of the models to the list of a model picker: GET /api/models, `refreshModels`
-- of the store, and the picker.
use mathlib.Core.List.{Memᴰ}
use dspark_edge.Base.{◌≡◌, refl, ap, Bool, Option, List, [], ◌∷◌, map}
use dspark_edge.Base.Sorting.{sort_mem, mem_sort}
use dspark_edge.Base.Text.{Text}
use dspark_edge.Numbers.{Numbers}
use dspark_edge.Types.{ModelEntry}
use dspark_edge.Config.{override}
use dspark_edge.Store.{AppState, refresh_models_done}
use dspark_edge.Api.Models.{Names, Nodes, walk, list_models, dir_or}
use dspark_edge.Api.Models.Laws.{Lies, walk_iff}
use dspark_edge.Panels.StatCard.{Display}
use dspark_edge.Panels.Pickers.{ModelItem, model_item, model_picker_view}

module _ {A B : Type 0} (f : A → B) where
  mem_map : (a : A) (xs : List A) → Memᴰ a xs → Memᴰ (f a) (map f xs)
  mem_map a [] m = elim m [ ]
  mem_map a (x ∷ xs) (Memᴰ.head p) = Memᴰ.head (ap f p)
  mem_map a (x ∷ xs) (Memᴰ.tail m) = Memᴰ.tail (mem_map a xs m)

  map_mem : (b : B) (xs : List A) → Memᴰ b (map f xs) → (a : A) × Memᴰ a xs × (b ≡ f a)
  map_mem b [] m = elim m [ ]
  map_mem b (x ∷ xs) (Memᴰ.head p) = (x, Memᴰ.head refl, p)
  map_mem b (x ∷ xs) (Memᴰ.tail m) =
      let (a, there, same) = map_mem b xs m in (a, Memᴰ.tail there, same)

module _ {N : Type 0} (n : Names) (query : Option Text) (models_dir : Text) (read : Text → Nodes)
    (s : AppState N) where
  -- The browser with the reply of GET /api/models.
  abbrev pub listed : AppState N
  listed =
      let (dir, models) = list_models n query models_dir read in refresh_models_done dir models s

  -- After the reply of GET /api/models, a model picker offers exactly the model files that lie in
  -- the directory asked for, or else the default one, at most two levels down in directories that
  -- can be read: for each there is an item whose value is its path and which shows its name, and
  -- each item is of such a file; and the store names that directory.
  pub picker_offers :
      (num : Numbers N) (display : Display N) (label value : Text) (hint : Option Text)
      (optional : Bool)
      → let dir = dir_or n (override query) models_dir in
        let items = (model_picker_view num display label value listed.models hint optional).items in
        ((m : ModelEntry)
          → Lies n m dir 2 (read dir)
          → (i : ModelItem) × Memᴰ i items × (i.value ≡ m.path) × (i.name ≡ m.name))
        × ((i : ModelItem)
            → Memᴰ i items
            → (m : ModelEntry) × Lies n m dir 2 (read dir) × (i.value ≡ m.path) × (i.name ≡ m.name))
        × (listed.models_dir ≡ dir)
  unfolding list_models refresh_models_done model_picker_view
  picker_offers num display label value hint optional =
      let dir = dir_or n (override query) models_dir in
      let found = walk n dir 2 (read dir) in
      let before = λ (a b : ModelEntry). n.before a.name b.name in
      (
        λ m l. (
          model_item num display m,
          mem_map (model_item num display) m _
              (mem_sort before m found ((walk_iff n m dir 2 (read dir)).1 l)),
          refl,
          refl,
        ),
        λ i there.
            let (m, listed_there, same) = map_mem (model_item num display) i _ there in
            (
              m,
              (walk_iff n m dir 2 (read dir)).0 (sort_mem before m found listed_there),
              ap (λ x. x.value) same,
              ap (λ x. x.name) same,
            ),
        refl,
      )
