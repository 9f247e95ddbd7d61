-- ===== src/Api/Models/Laws.antt =====
-- The walk finds exactly the model files that lie within its depth.
use mathlib.Core.List.{Memᴰ}
use dspark_edge.Base.{
  ℕ, zero, suc, ◌≡◌, refl, Bool, true, false, Option, List, [], ◌∷◌, ◌++◌, if◌then◌else◌,
  Bool-cases, inl, inr, ◌⊎◌,
}
use dspark_edge.Base.Text.{Text, lit, ends_with}
use dspark_edge.Types.{ModelEntry}
use dspark_edge.Api.Models.{
  Node, file, directory, other, Nodes, nil, cons, Names, is_model, entry, size_of, walk,
}

module _ (n : Names) where
  -- A model file in the directory `dir` or in a readable one below it, at most `depth` levels down:
  -- its name ends in .gguf, and its path is that of its directory joined with its name.
  pub data Lies (e : ModelEntry) : Text → ℕ → Nodes → Type 0 where
    here :
        {dir : Text} {depth : ℕ} {rest : Nodes} (name : Text) (size : Option ℕ)
        → ends_with (lit ".gguf") (n.lower name) ≡ true
        → e ≡ record { name = name; path = n.join dir name; size_bytes = size_of size }
        → Lies e dir depth (cons (file name size) rest)
    below :
        {dir : Text} {depth : ℕ} {sub rest : Nodes} {name : Text}
        → Lies e (n.join dir name) depth sub
        → Lies e dir (suc depth) (cons (directory name true sub) rest)
    later :
        {dir : Text} {depth : ℕ} {rest : Nodes} (node : Node)
        → Lies e dir depth rest
        → Lies e dir depth (cons node rest)

  Memᴰ-append : {A : Type 0} {a : A} (xs ys : List A) → Memᴰ a (xs ++ ys) → Memᴰ a xs ⊎ Memᴰ a ys
  Memᴰ-append [] ys m = inr m
  Memᴰ-append (x ∷ xs) ys (Memᴰ.head p) = inl (Memᴰ.head p)
  Memᴰ-append (x ∷ xs) ys (Memᴰ.tail m) = elim (Memᴰ-append xs ys m) [
    | inl l ↦ inl (Memᴰ.tail l)
    | inr r ↦ inr r
  ]

  Memᴰ-append_left :
      {A : Type 0} {a : A} {xs : List A} (ys : List A) → Memᴰ a xs → Memᴰ a (xs ++ ys)
  Memᴰ-append_left ys (Memᴰ.head p) = Memᴰ.head p
  Memᴰ-append_left ys (Memᴰ.tail m) = Memᴰ.tail (Memᴰ-append_left ys m)

  Memᴰ-append_right :
      {A : Type 0} {a : A} (xs : List A) {ys : List A} → Memᴰ a ys → Memᴰ a (xs ++ ys)
  Memᴰ-append_right [] m = m
  Memᴰ-append_right (x ∷ xs) m = Memᴰ.tail (Memᴰ-append_right xs m)

  file-Lies :
      (e : ModelEntry) (dir name : Text) (size : Option ℕ) (depth : ℕ) (rest : Nodes)
      (found : List ModelEntry) (b : Bool)
      → is_model n name ≡ b
      → (Memᴰ e found → Lies e dir depth rest)
      → Memᴰ e (if b then entry n dir name size ∷ found else found)
      → Lies e dir depth (cons (file name size) rest)
  file-Lies e dir name size depth rest found true h f (Memᴰ.head p) = here name size h p
  file-Lies e dir name size depth rest found true h f (Memᴰ.tail m) = later (file name size) (f m)
  file-Lies e dir name size depth rest found false h f m = later (file name size) (f m)

  directory-Lies :
      (e : ModelEntry) (dir name : Text) (depth : ℕ) (sub rest : Nodes) {A B : Type 0}
      → (A → Lies e (n.join dir name) depth sub)
      → (B → Lies e dir (suc depth) rest)
      → A ⊎ B
      → Lies e dir (suc depth) (cons (directory name true sub) rest)
  directory-Lies e dir name depth sub rest f g (inl a) = below (f a)
  directory-Lies e dir name depth sub rest f g (inr b) = later (directory name true sub) (g b)

  walk-Lies :
      (e : ModelEntry) (dir : Text) (depth : ℕ) (nodes : Nodes)
      → Memᴰ e (walk n dir depth nodes)
      → Lies e dir depth nodes
  unfolding walk
  walk-Lies e dir depth nil m = elim m [ ]
  walk-Lies e dir depth (cons (file name size) rest) m =
      file-Lies e dir name size depth rest (walk n dir depth rest) (is_model n name) refl
        (walk-Lies e dir depth rest) m
  walk-Lies e dir zero (cons (directory name readable sub) rest) m =
      later (directory name readable sub) (walk-Lies e dir zero rest m)
  walk-Lies e dir (suc depth) (cons (directory name true sub) rest) m =
      directory-Lies e dir name depth sub rest (walk-Lies e (n.join dir name) depth sub)
        (walk-Lies e dir (suc depth) rest)
        (Memᴰ-append (walk n (n.join dir name) depth sub) (walk n dir (suc depth) rest) m)
  walk-Lies e dir (suc depth) (cons (directory name false sub) rest) m =
      later (directory name false sub) (walk-Lies e dir (suc depth) rest m)
  walk-Lies e dir depth (cons (other name) rest) m =
      later (other name) (walk-Lies e dir depth rest m)

  -- What is found in the rest is found with one more node in front.
  walk-cons :
      (e : ModelEntry) (dir : Text) (depth : ℕ) (node : Node) (rest : Nodes)
      → Memᴰ e (walk n dir depth rest)
      → Memᴰ e (walk n dir depth (cons node rest))
  unfolding walk
  walk-cons e dir depth (file name size) rest m = elim (Bool-cases (is_model n name)) [
    | inl b ↦ rw b (Memᴰ.tail m)
    | inr b ↦ rw b m
  ]
  walk-cons e dir zero (directory name readable sub) rest m = m
  walk-cons e dir (suc depth) (directory name true sub) rest m =
      Memᴰ-append_right (walk n (n.join dir name) depth sub) m
  walk-cons e dir (suc depth) (directory name false sub) rest m = m
  walk-cons e dir depth (other name) rest m = m

  Lies-walk :
      (e : ModelEntry) {dir : Text} {depth : ℕ} {nodes : Nodes}
      → Lies e dir depth nodes
      → Memᴰ e (walk n dir depth nodes)
  unfolding walk
  Lies-walk e (here name size h p) = rw h (Memᴰ.head p)
  Lies-walk e (below {dir = d} {depth = k} {rest = r} l) =
      Memᴰ-append_left (walk n d (suc k) r) (Lies-walk e l)
  Lies-walk e (later {dir = d} {depth = k} {rest = r} node l) =
      walk-cons e d k node r (Lies-walk e l)

  -- The walk returns exactly the model files that lie in the directory or at most `depth` levels
  -- below it, in directories that can be read.
  pub walk_iff :
      (e : ModelEntry) (dir : Text) (depth : ℕ) (nodes : Nodes)
      → (Memᴰ e (walk n dir depth nodes) → Lies e dir depth nodes)
        × (Lies e dir depth nodes → Memᴰ e (walk n dir depth nodes))
  walk_iff e dir depth nodes = (walk-Lies e dir depth nodes, Lies-walk e)
