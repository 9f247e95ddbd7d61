-- ===== src/Process/Tokenize/RoundTrip.antt =====
-- `tokenizeExtra` reads back a command line that was written with quotes.
use mathlib.Core.List.{reverse, reverse-append, reverse-reverse}
use dspark_edge.Base.{
  ℕ, ◌≤◌, ◌≡◌, ◌≢◌, refl, ap, ◌∙◌, true, false, some, List, [], ◌∷◌, ◌++◌, append_assoc, arith,
  length, All, map, append-nil,
}
use dspark_edge.Base.Text.{Text, is_space, trim, trim_start, join}
use dspark_edge.Process.Tokenize.Fuel.{all_tokens, all_tokens-cons}
use dspark_edge.Process.Tokenize.{break_at, word, unquoted, next, tokens, tokenize_extra}

length-word : (s : Text) → length (word s).1 ≤ length s
unfolding word
length-word [] = omega arith
length-word (c ∷ s) = ground (arith, length-word s)

-- An argument of a command line, as a user writes it: bare, or in quotes of either kind.
pub data Arg : Type 0 where
  bare double_quoted single_quoted : Text → Arg

pub value : Arg → Text
value (bare t) = t
value (double_quoted t) = t
value (single_quoted t) = t

pub render : Arg → Text
render (bare t) = t
render (double_quoted t) = 34 ∷ t ++ 34 ∷ []
render (single_quoted t) = 39 ∷ t ++ 39 ∷ []

abbrev pub NoSpace : Text → Type 0
NoSpace = All (λ c. is_space c ≡ false)

abbrev pub StartsBare : Text → Type 0
StartsBare [] = ⊥
StartsBare (c ∷ t) = (c ≢ 34) × (c ≢ 39)

-- What an argument may hold: no white space and no quote in front if it is bare, else no quote of
-- its own kind.
abbrev pub IsWritable : Arg → Type 0
IsWritable (bare t) = NoSpace t × StartsBare t
IsWritable (double_quoted t) = All (λ c. c ≢ 34) t
IsWritable (single_quoted t) = All (λ c. c ≢ 39) t

break_at-append :
    (q : ℕ) (t rest : Text) → All (λ c. c ≢ q) t → break_at q (t ++ q ∷ rest) ≡ some (t, rest)
unfolding break_at
break_at-append q [] rest h = ground arith
break_at-append q (c ∷ t) rest h = ground (arith, break_at-append q t rest h.1)

-- The text ends, or white space follows.
abbrev Ends : Text → Type 0
Ends [] = Unit
Ends (c ∷ s) = is_space c ≡ true

word-append : (t rest : Text) → NoSpace t → Ends rest → word (t ++ rest) ≡ (t, rest)
unfolding word
word-append [] [] h k = refl
word-append [] (c ∷ rest) h k = rw k
word-append (c ∷ t) rest h k = rw (h.0, word-append t rest h.1 k)

next_at : Text → List Text × Text
next_at [] = ([], [])
next_at (c ∷ s) = next c s

-- In front of white space or the end, a rendered argument is matched whole.
next-render :
    (a : Arg) (rest : Text)
    → IsWritable a
    → Ends rest
    → next_at (render a ++ rest) ≡ (value a ∷ [], rest)
unfolding next_at render value next unquoted
next-render (bare []) rest h k = absurd h.1
next-render (bare (c ∷ t)) rest h k = ground (arith, word-append t rest h.0.1 k)
next-render (double_quoted t) rest h k =
    rw (append_assoc t (34 ∷ []) rest) (ground (arith, break_at-append 34 t rest h))
next-render (single_quoted t) rest h k =
    rw (append_assoc t (39 ∷ []) rest) (ground (arith, break_at-append 39 t rest h))

all_tokens-next_at : (s : Text) → s ≢ [] → all_tokens s ≡ (next_at s).0 ++ all_tokens (next_at s).1
unfolding next_at
all_tokens-next_at [] h = absurd (h refl)
all_tokens-next_at (c ∷ s) h = all_tokens-cons c s

all_tokens-space : (s : Text) → all_tokens (32 ∷ s) ≡ all_tokens s
all_tokens-space s = rw all_tokens-cons (unfold next unquoted is_space in refl)

render-append-ne-nil : (a : Arg) (rest : Text) → IsWritable a → render a ++ rest ≢ []
unfolding render
render-append-ne-nil (bare []) rest h = absurd h.1
render-append-ne-nil (bare (c ∷ t)) rest h = cc
render-append-ne-nil (double_quoted t) rest h = cc
render-append-ne-nil (single_quoted t) rest h = cc

all_tokens-render :
    (a : Arg) (rest : Text)
    → IsWritable a
    → Ends rest
    → all_tokens (render a ++ rest) ≡ value a ∷ all_tokens rest
all_tokens-render a rest h k =
    all_tokens-next_at (render a ++ rest) (render-append-ne-nil a rest h)
    ∙ rw (next-render a rest h k)

-- A command line: the arguments with a space between two.
pub command_text : List Arg → Text
command_text args = join (32 ∷ []) (map render args)

all_tokens-command_text :
    (args : List Arg) → All IsWritable args → all_tokens (command_text args) ≡ map value args
unfolding command_text join tokens
all_tokens-command_text [] h = refl
all_tokens-command_text (a ∷ []) h = rw (← append-nil (render a)) (all_tokens-render a [] h.0 tt)
all_tokens-command_text (a ∷ b ∷ args) h =
    all_tokens-render a (32 ∷ command_text (b ∷ args)) h.0 (unfold is_space in refl)
    ∙ ap (λ ts. value a ∷ ts)
        (all_tokens-space (command_text (b ∷ args)) ∙ all_tokens-command_text (b ∷ args) h.1)

-- The text begins with something that `trim` leaves.
abbrev Solid : Text → Type 0
Solid [] = ⊥
Solid (c ∷ s) = is_space c ≡ false

trim_start_of_Solid : (s : Text) → Solid s → trim_start s ≡ s
unfolding trim_start
trim_start_of_Solid [] h = absurd h
trim_start_of_Solid (c ∷ s) h = rw h

trim_of_Solid : (s : Text) → Solid s → Solid (reverse s) → trim s ≡ s
unfolding trim
trim_of_Solid s h k =
    rw (trim_start_of_Solid s h, trim_start_of_Solid (reverse s) k) (reverse-reverse s)

Solid-append : (s t : Text) → Solid s → Solid (s ++ t)
Solid-append [] t h = absurd h
Solid-append (c ∷ s) t h = h

Solid-reverse-append : (s t : Text) → Solid (reverse t) → Solid (reverse (s ++ t))
Solid-reverse-append s t h = rw reverse-append (Solid-append (reverse t) (reverse s) h)

Solid-reverse : (c : ℕ) (t : Text) → NoSpace (c ∷ t) → Solid (reverse (c ∷ t))
Solid-reverse c [] h = h.0
Solid-reverse c (d ∷ t) h = Solid-reverse-append (c ∷ []) (d ∷ t) (Solid-reverse d t h.1)

Solid-render : (a : Arg) → IsWritable a → Solid (render a)
unfolding render is_space
Solid-render (bare []) h = absurd h.1
Solid-render (bare (c ∷ t)) h = h.0.0
Solid-render (double_quoted t) h = refl
Solid-render (single_quoted t) h = refl

Solid-reverse-render : (a : Arg) → IsWritable a → Solid (reverse (render a))
unfolding render
Solid-reverse-render (bare []) h = absurd h.1
Solid-reverse-render (bare (c ∷ t)) h = Solid-reverse c t h.0
Solid-reverse-render (double_quoted t) h =
    Solid-reverse-append (34 ∷ t) (34 ∷ []) (unfold is_space in refl)
Solid-reverse-render (single_quoted t) h =
    Solid-reverse-append (39 ∷ t) (39 ∷ []) (unfold is_space in refl)

Solid-command_text :
    (a : Arg) (args : List Arg)
    → All IsWritable (a ∷ args)
    → Solid (command_text (a ∷ args)) × Solid (reverse (command_text (a ∷ args)))
unfolding command_text join
Solid-command_text a [] h = (Solid-render a h.0, Solid-reverse-render a h.0)
Solid-command_text a (b ∷ args) h = (
  Solid-append (render a) _ (Solid-render a h.0),
  Solid-reverse-append (render a) (32 ∷ command_text (b ∷ args))
      (Solid-reverse-append (32 ∷ []) (command_text (b ∷ args)) (Solid-command_text b args h.1).1),
)

trim-command_text :
    (args : List Arg) → All IsWritable args → trim (command_text args) ≡ command_text args
trim-command_text [] h = unfold command_text join trim trim_start in refl
trim-command_text (a ∷ args) h =
    let (front, back) = Solid-command_text a args h in
    trim_of_Solid (command_text (a ∷ args)) front back

-- Arguments are read back one by one when they are written with a space between two, each either
-- bare, not empty, without white space and without a quote in front, or in quotes of one kind and
-- without a quote of that kind inside.
pub tokenize_extra-command_text :
    (args : List Arg) → All IsWritable args → tokenize_extra (command_text args) ≡ map value args
unfolding tokenize_extra
tokenize_extra-command_text args h = rw (trim-command_text args h) (all_tokens-command_text args h)
