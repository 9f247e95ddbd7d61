-- ===== src/Process/Lines.antt =====
-- How `pushLog` cuts a chunk of output into lines: `text.split(/\r?\n/)`
-- (tools/llama-dspark-test-ui/lib/process-manager.ts).
use dspark_edge.Base.{
  ℕ, ◌≡◌, refl, ap, ◌∙◌, ◌≢◌, Bool, false, List, [], ◌∷◌, ◌++◌, ◌&&◌, arith, ◌==◌, if◌then◌else◌,
  All,
}
use dspark_edge.Base.Text.{Text}

-- Does the text begin with a line feed?
abbrev at_newline : Text → Bool
at_newline [] = false
at_newline (c ∷ s) = c == 10

-- One more unit at the front of the first line.
abbrev extend : ℕ → List Text → List Text
extend c [] = (c ∷ []) ∷ []
extend c (l ∷ ls) = (c ∷ l) ∷ ls

unfoldable pub split_lines : Text → List Text
split_lines [] = [] ∷ []
split_lines (c ∷ s) =
    let rest = split_lines s in
    if c == 10 then [] ∷ rest else if c == 13 && at_newline s then rest else extend c rest

-- The lines put together again, with a line feed between two.
pub join_lines : List Text → Text
join_lines [] = []
join_lines (l ∷ []) = l
join_lines (l ∷ m ∷ ls) = l ++ 10 ∷ join_lines (m ∷ ls)

abbrev pub NoFeed : Text → Type 0
NoFeed = All (λ c. c ≢ 10)

abbrev NoReturn : Text → Type 0
NoReturn = All (λ c. c ≢ 13)

extend-NoFeed : (c : ℕ) (ls : List Text) → c ≢ 10 → All NoFeed ls → All NoFeed (extend c ls)
extend-NoFeed c [] h k = ((h, tt), tt)
extend-NoFeed c (l ∷ ls) h k = ((h, k.0), k.1)

-- No line holds a line feed.
pub split_lines-NoFeed : (s : Text) → All NoFeed (split_lines s)
unfolding split_lines
split_lines-NoFeed [] = (tt, tt)
split_lines-NoFeed (c ∷ s) = ground (arith, split_lines-NoFeed s, extend-NoFeed c (split_lines s))

join_lines-extend : (c : ℕ) (ls : List Text) → join_lines (extend c ls) ≡ c ∷ join_lines ls
unfolding join_lines
join_lines-extend c [] = refl
join_lines-extend c (l ∷ []) = refl
join_lines-extend c (l ∷ m ∷ ls) = refl

extend-ne-nil : (c : ℕ) (ls : List Text) → extend c ls ≢ []
extend-ne-nil c [] = cc
extend-ne-nil c (l ∷ ls) = cc

split_lines-ne-nil : (s : Text) → split_lines s ≢ []
unfolding split_lines
split_lines-ne-nil [] = cc
split_lines-ne-nil (c ∷ s) = ground (arith, split_lines-ne-nil s, extend-ne-nil c (split_lines s))

join_lines-newline : (ls : List Text) → ls ≢ [] → join_lines ([] ∷ ls) ≡ 10 ∷ join_lines ls
unfolding join_lines
join_lines-newline [] h = absurd (h refl)
join_lines-newline (l ∷ ls) h = refl

-- On output without carriage returns, joining the lines gives the output back.
pub join_lines-split_lines : (s : Text) → NoReturn s → join_lines (split_lines s) ≡ s
unfolding split_lines
join_lines-split_lines [] h = unfold join_lines in refl
join_lines-split_lines (c ∷ s) h = ground (
  arith,
  join_lines-split_lines s h.1,
  split_lines-ne-nil s,
  join_lines-newline (split_lines s),
  join_lines-extend c (split_lines s),
)

split_lines-append :
    (l s : Text) → NoFeed l → NoReturn l → split_lines (l ++ 10 ∷ s) ≡ l ∷ split_lines s
unfolding split_lines
split_lines-append [] s h k = refl
split_lines-append (c ∷ l) s h k = ground (arith, split_lines-append l s h.1 k.1)

split_lines_of_line : (l : Text) → NoFeed l → NoReturn l → split_lines l ≡ l ∷ []
unfolding split_lines
split_lines_of_line [] h k = refl
split_lines_of_line (c ∷ l) h k = ground (arith, split_lines_of_line l h.1 k.1)

abbrev pub IsPlainLine : Text → Type 0
IsPlainLine l = NoFeed l × NoReturn l

-- Lines joined by line feeds are cut into the same lines again.
pub split_lines-join_lines :
    (l : Text) (ls : List Text)
    → All IsPlainLine (l ∷ ls)
    → split_lines (join_lines (l ∷ ls)) ≡ l ∷ ls
unfolding join_lines
split_lines-join_lines l [] h = split_lines_of_line l h.0.0 h.0.1
split_lines-join_lines l (m ∷ ls) h =
    split_lines-append l (join_lines (m ∷ ls)) h.0.0 h.0.1
    ∙ ap (λ ms. l ∷ ms) (split_lines-join_lines m ls h.1)
