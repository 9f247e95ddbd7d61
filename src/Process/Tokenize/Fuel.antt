-- ===== src/Process/Tokenize/Fuel.antt =====
-- The loop of `tokenizeExtra` has enough fuel.
use dspark_edge.Base.{
  ℕ, zero, suc, ◌≤◌, ◌<◌, ◌≡◌, refl, ap, inl, inr, Option, none, some, List, [], ◌∷◌, ◌++◌, arith,
  length, ◌==◌, Bool-cases,
}
use dspark_edge.Base.Text.{Text, trim}
use dspark_edge.Process.Tokenize.{break_at, word, unquoted, quoted_or, next, tokens, tokenize_extra}

length-word : (s : Text) → length (word s).1 ≤ length s
unfolding word
length-word [] = omega arith
length-word (c ∷ s) = ground (arith, length-word s)

-- What is left behind a closing quote is shorter than the text.
abbrev Shorter : ℕ → Option (Text × Text) → Type 0
Shorter n none = Unit
Shorter n (some (inner, rest)) = length rest < n

break_at-Shorter : (q : ℕ) (s : Text) → Shorter (length s) (break_at q s)
unfolding break_at
break_at-Shorter q [] = tt
break_at-Shorter q (c ∷ s) = ground (arith, break_at-Shorter q s)

length-unquoted : (c : ℕ) (s : Text) → length (unquoted c s).1 ≤ length s
unfolding unquoted
length-unquoted c s = ground (arith, length-word s)

length-quoted_or :
    (n : ℕ) (found : Option (Text × Text)) (other : List Text × Text)
    → Shorter n found
    → length other.1 ≤ n
    → length (quoted_or found other).1 ≤ n
length-quoted_or n none other h k = k
length-quoted_or n (some (inner, rest)) other h k = omega arith

length-next : (c : ℕ) (s : Text) → length (next c s).1 ≤ length s
unfolding next
length-next c s =
    let plain = length-unquoted c s in
    let double =
      length-quoted_or (length s) (break_at 34 s) (unquoted c s) (break_at-Shorter 34 s) plain in
    let single =
      length-quoted_or (length s) (break_at 39 s) (unquoted c s) (break_at-Shorter 39 s) plain in
    elim (Bool-cases (c == 34)) [
      | inl e ↦ rw e double
      | inr e ↦ elim (Bool-cases (c == 39)) [ inl d ↦ rw (e, d) single | inr d ↦ rw (e, d) plain ]
    ]

-- Fuel beyond the length of the text changes nothing.
pub tokens_fuel : (f g : ℕ) (s : Text) → length s ≤ f → length s ≤ g → tokens f s ≡ tokens g s
unfolding tokens
tokens_fuel zero zero s h k = refl
tokens_fuel zero (suc g) [] h k = refl
tokens_fuel zero (suc g) (c ∷ s) h k = absurd (omega arith)
tokens_fuel (suc f) zero [] h k = refl
tokens_fuel (suc f) zero (c ∷ s) h k = absurd (omega arith)
tokens_fuel (suc f) (suc g) [] h k = refl
tokens_fuel (suc f) (suc g) (c ∷ s) h k =
    ap (λ ts. (next c s).0 ++ ts)
      (tokens_fuel f g (next c s).1 (omega (arith, length-next c s))
        (omega (arith, length-next c s)))

-- The loop with just enough fuel.
abbrev pub all_tokens : Text → List Text
all_tokens s = tokens (length s) s

pub all_tokens-cons :
    (c : ℕ) (s : Text) → all_tokens (c ∷ s) ≡ (next c s).0 ++ all_tokens (next c s).1
unfolding tokens
all_tokens-cons c s =
    ap (λ ts. (next c s).0 ++ ts)
      (tokens_fuel (length s) (length (next c s).1) (next c s).1 (length-next c s) (omega arith))

-- A run of the loop to its end: it starts at a text and gathers a list.
pub data Scan : Text → List Text → Type 0 where
  at_end : Scan [] []
  round :
      {c : ℕ} {s : Text} {ts : List Text} → Scan (next c s).1 ts → Scan (c ∷ s) ((next c s).0 ++ ts)

tokens-Scan : (f : ℕ) (s : Text) → length s ≤ f → Scan s (tokens f s)
unfolding tokens
tokens-Scan zero [] h = at_end
tokens-Scan zero (c ∷ s) h = absurd (omega arith)
tokens-Scan (suc f) [] h = at_end
tokens-Scan (suc f) (c ∷ s) h = round (tokens-Scan f (next c s).1 (omega (arith, length-next c s)))

-- The loop of `tokenizeExtra` comes to its end on every text, and what it has gathered there is the
-- value of the function: no fuel runs out.
pub tokenize_extra-Scan : (extra : Text) → Scan (trim extra) (tokenize_extra extra)
unfolding tokenize_extra
tokenize_extra-Scan extra = tokens-Scan (length (trim extra)) (trim extra) (omega arith)
