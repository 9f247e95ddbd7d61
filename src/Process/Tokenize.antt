-- ===== src/Process/Tokenize.antt =====
-- `tokenizeExtra` (tools/llama-dspark-test-ui/lib/process-manager.ts): the arguments of a text, by
-- the regular expression /"([^"]*)"|'([^']*)'|(\S+)/g run over the trimmed text.
pub mod Fuel
pub mod RoundTrip
use dspark_edge.Base.{
  ℕ, zero, suc, ◌≡◌, refl, Bool, true, false, ◌&&◌, not, Option, none, some, List, [], ◌∷◌, ◌++◌,
  ◌==◌, if◌then◌else◌, length,
}
use dspark_edge.Base.Text.{Text, is_space, trim}

-- `[^q]*` and the closing `q`: what stands before the first `q`, and after it.
break_at : ℕ → Text → Option (Text × Text)
break_at q [] = none
break_at q (c ∷ s) =
    if c == q
    then some ([], s)
    else elim (break_at q s) [ none ↦ none | some (inner, rest) ↦ some (c ∷ inner, rest) ]

-- `\S*`: the longest run without white space, and what follows.
word : Text → Text × Text
word [] = ([], [])
word (c ∷ s) = if is_space c then ([], c ∷ s) else (c ∷ (word s).0, (word s).1)

-- The alternatives of the expression after the two quoted ones: `\S+`, or no match here.
unquoted : ℕ → Text → List Text × Text
unquoted c s = if is_space c then ([], s) else ((c ∷ (word s).0) ∷ [], (word s).1)

-- An alternative with the quote `q`; `found` is what `break_at` finds behind it.
abbrev quoted_or : Option (Text × Text) → List Text × Text → List Text × Text
quoted_or none other = other
quoted_or (some (inner, rest)) other = (inner ∷ [], rest)

-- The tokens that match where `c ∷ s` begins, one or none, and where the search goes on.
pub next : ℕ → Text → List Text × Text
unfolding unquoted break_at word
next c s =
    if c == 34
    then quoted_or (break_at 34 s) (unquoted c s)
    else if c == 39
    then quoted_or (break_at 39 s) (unquoted c s)
    else unquoted c s

-- The loop over `re.exec`, on fuel.
pub tokens : ℕ → Text → List Text
tokens zero s = []
tokens (suc f) [] = []
tokens (suc f) (c ∷ s) = (next c s).0 ++ tokens f (next c s).1

-- Each round uses up at least one unit of the text, so its length is enough fuel.
pub tokenize_extra : Text → List Text
tokenize_extra extra = tokens (length (trim extra)) (trim extra)

pub tokenize_extra-nil : tokenize_extra [] ≡ []
unfolding tokenize_extra tokens trim
tokenize_extra-nil = refl
