-- ===== src/Prompt/Drop.antt =====
-- The drop listeners of the prompt, on its form or on the document
-- (tools/llama-dspark-test-ui/components/ai-elements/prompt-input.tsx). An effect that runs anew is
-- cleaned up first; each run listens with functions of its own, which hold the `add` of that run.
pub mod Laws
mod Tests
use dspark_edge.Base.{
  ℕ, suc, Bool, true, false, not, ◌&&◌, ◌||◌, Option, none, some, List, [], ◌∷◌, ◌++◌, map, keep,
  ◌==◌, if◌then◌else◌,
}
use dspark_edge.Prompt.Accept.{File, is_empty}
use dspark_edge.Prompt.Keys.{handle_drop}

-- The listeners of one run: whether they are the document's, and the number of the run.
pub record Listener : Type 0 where
  pub on_document : Bool
  pub run : ℕ

abbrev same_bool : Bool → Bool → Bool
same_bool true b = b
same_bool false b = not b

pub same_listener : Listener → Listener → Bool
same_listener x y = same_bool x.on_document y.on_document && (x.run == y.run)

-- The listeners that there are, those that the two effects would remove, and the runs so far.
pub record DropZone : Type 0 where
  pub listeners : List Listener
  pub form_cleanup : Option Listener
  pub document_cleanup : Option Listener
  pub runs : ℕ

pub new_zone : DropZone
new_zone = record { listeners = []; form_cleanup = none; document_cleanup = none; runs = 0 }

abbrev pub removed : Option Listener → List Listener → List Listener
removed none ls = ls
removed (some l) ls = keep (λ x. not (same_listener x l)) ls

-- What both effects returned, run.
pub clean_up : DropZone → DropZone
clean_up z = record z {
  listeners = removed z.document_cleanup (removed z.form_cleanup z.listeners);
  form_cleanup = none;
  document_cleanup = none;
}

-- The effect of the form, which leaves the drops to the document with `globalDrop`.
pub form_effect : (has_form global_drop : Bool) → DropZone → DropZone
form_effect has_form global_drop z =
    let l : Listener = record { on_document = false; run = z.runs } in
    if has_form && not global_drop
    then record z { listeners = z.listeners ++ l ∷ []; form_cleanup = some l }
    else z

-- The effect of the document.
pub document_effect : (global_drop : Bool) → DropZone → DropZone
document_effect global_drop z =
    let l : Listener = record { on_document = true; run = z.runs } in
    if global_drop
    then record z { listeners = z.listeners ++ l ∷ []; document_cleanup = some l }
    else z

-- A rendering in which `add` or `globalDrop` is a new one.
pub render : (has_form global_drop : Bool) → DropZone → DropZone
render has_form global_drop z =
    let z' = document_effect global_drop (form_effect has_form global_drop (clean_up z)) in
    record z' { runs = suc z'.runs }

pub render_all : (has_form : Bool) → List Bool → DropZone → DropZone
render_all has_form [] z = z
render_all has_form (g ∷ gs) z = render_all has_form gs (render has_form g z)

-- What one listener adds: the run whose `add` it calls, with the files.
abbrev pub added : ℕ → List File → List (ℕ × List File)
added run files = if is_empty files then [] else (run, files) ∷ []

abbrev pub drop_at :
    (in_form : Bool)
    → (has_files : Bool) → Option (List File)
    → List Listener
    → List (ℕ × List File)
drop_at in_form has_files files [] = []
drop_at in_form has_files files (l ∷ ls) =
    let rest = drop_at in_form has_files files ls in
    if in_form || l.on_document then added l.run (handle_drop has_files files).1 ++ rest else rest

-- The calls of `add` for a drop. The form hears of it only if it fell into the form, the document of
-- any.
pub drop :
    (in_form : Bool) → (has_files : Bool) → Option (List File) → DropZone → List (ℕ × List File)
drop in_form has_files files z = drop_at in_form has_files files z.listeners
