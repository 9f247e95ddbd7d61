-- ===== src/Prompt/Accept.antt =====
-- Which files the prompt accepts: `matchesAccept` and the checks in front of `add`
-- (tools/llama-dspark-test-ui/components/ai-elements/prompt-input.tsx).
use dspark_edge.Base.{
  ℕ, Bool, true, false, not, ◌&&◌, Option, none, some, List, [], ◌∷◌, map, keep, any, take, length,
  ltb, leb, ◌==◌, if◌then◌else◌, ◌-◌,
}
use dspark_edge.Base.Text.{Text, is_set, lit, trim, starts_with, ends_with, text_eq}

-- A `File`: its name, its media type and its size in bytes.
pub record File : Type 0 where
  pub name : Text
  pub media : Text
  pub size : ℕ

-- The properties of the component that restrict files; a missing one is none.
pub record Limits : Type 0 where
  pub accept : Option Text
  pub max_files : Option ℕ
  pub max_file_size : Option ℕ

pub data PromptError : Type 0 where
  not_accepted too_large too_many : PromptError

-- One more unit at the front of the first part.
abbrev pub extend : ℕ → List Text → List Text
extend c [] = (c ∷ []) ∷ []
extend c (p ∷ ps) = (c ∷ p) ∷ ps

-- `s.split(",")`
unfoldable pub split_commas : Text → List Text
split_commas [] = [] ∷ []
split_commas (c ∷ s) = let rest = split_commas s in if c == 44 then [] ∷ rest else extend c rest

-- `s.slice(0, -1)`
unfoldable pub drop_last : Text → Text
drop_last [] = []
drop_last (c ∷ []) = []
drop_last (c ∷ d ∷ s) = c ∷ drop_last (d ∷ s)

unfoldable pub matches_pattern : File → Text → Bool
matches_pattern f pattern =
    if ends_with (lit "/*") pattern
    then starts_with (drop_last pattern) f.media
    else text_eq f.media pattern

abbrev pub patterns : Text → List Text
patterns accept = keep is_set (map trim (split_commas accept))

abbrev pub matches_accept : Option Text → File → Bool
matches_accept none f = true
matches_accept (some accept) f =
    if is_set (trim accept) then any (matches_pattern f) (patterns accept) else true

-- `maxFileSize ? f.size <= maxFileSize : true`; a limit of 0 is no limit.
abbrev pub within_size : Option ℕ → File → Bool
within_size none f = true
within_size (some n) f = if n == 0 then true else leb f.size n

abbrev pub is_empty : List File → Bool
is_empty [] = true
is_empty (f ∷ fs) = false

pub data Checked : Type 0 where
  rejects : PromptError → Checked
  passes : List File → Checked

-- The two checks in front of both versions of `add`.
pub check : Limits → List File → Checked
check l incoming =
    let accepted = keep (matches_accept l.accept) incoming in
    let sized = keep (within_size l.max_file_size) accepted in
    if not (is_empty incoming) && is_empty accepted
    then rejects not_accepted
    else if not (is_empty accepted) && is_empty sized
    then rejects too_large
    else passes sized

-- `Math.max(0, maxFiles - count)`, if there is a limit.
abbrev pub capacity : Option ℕ → ℕ → Option ℕ
capacity none count = none
capacity (some n) count = some (n - count)

abbrev pub capped : Option ℕ → List File → List File
capped none fs = fs
capped (some n) fs = take n fs

abbrev pub exceeds : Option ℕ → List File → Bool
exceeds none fs = false
exceeds (some n) fs = ltb n (length fs)
