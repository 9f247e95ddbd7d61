-- ===== src/Panels/Pickers/Laws.antt =====
-- The file name below a model's path.
use dspark_edge.Base.{
  ◌≡◌, refl, sym, ◌∙◌, append-nil, if◌then◌else◌, false, [], ◌∷◌, ◌++◌, append_assoc, All, ◌==◌,
}
use dspark_edge.Base.Text.{Text}
use dspark_edge.Panels.Pickers.{last_part, base_name}

-- A text without a slash.
abbrev pub NoSlash : Text → Type 0
NoSlash = All (λ c. c == 47 ≡ false)

last_part-NoSlash : (sofar s : Text) → NoSlash s → last_part sofar s ≡ sofar ++ s
last_part-NoSlash sofar [] h = sym (append-nil sofar)
last_part-NoSlash sofar (c ∷ s) h =
    rw h.0 (last_part-NoSlash (sofar ++ c ∷ []) s h.1 ∙ append_assoc sofar (c ∷ []) s)

last_part-slash : (sofar dir name : Text) → last_part sofar (dir ++ 47 ∷ name) ≡ last_part [] name
last_part-slash sofar [] name = refl
last_part-slash sofar (c ∷ dir) name =
    last_part-slash (if c == 47 then [] else sofar ++ c ∷ []) dir name

-- The name shown below a path is its last part, whatever directories stand before it.
pub base_name_lem : (dir name : Text) → NoSlash name → base_name (dir ++ 47 ∷ name) ≡ name
unfolding base_name
base_name_lem dir name h = last_part-slash [] dir name ∙ last_part-NoSlash [] name h
