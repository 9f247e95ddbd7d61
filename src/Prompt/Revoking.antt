-- ===== src/Prompt/Revoking.antt =====
-- Revoking the URLs of attachments.
use dspark_edge.Base.{
  ℕ, ◌≡◌, refl, sym, ap, ◌∙◌, Bool, true, not, Option, none, some, List, [], ◌∷◌, arith, map, keep,
  find, any, All, Bool-cases, inl, inr,
}
use dspark_edge.Base.Text.{Text, text_eq, text_eq_iff, text_eq_refl}
use dspark_edge.Base.Text.{is_set}
use dspark_edge.Prompt.{Makers, Attachment, revoke, revoke_all, revoke_found}

abbrev pub urls : List Attachment → List Text
urls = map (λ a. a.url)

-- What the program relies on: two calls of a maker give two results, and an object URL is not empty.
pub record AreFresh (h : Makers) : Type 0 where
  pub ids : (i j : ℕ) → h.nanoid i ≡ h.nanoid j → i ≡ j
  pub urls : (i j : ℕ) → h.object_url i ≡ h.object_url j → i ≡ j
  pub set : (i : ℕ) → is_set (h.object_url i) ≡ true

-- An attachment's id and URL were made together.
abbrev pub IsMade : Makers → Attachment → Type 0
IsMade h a = (n : ℕ) × (a.id ≡ h.nanoid n) × (a.url ≡ h.object_url n)

abbrev holds : List Attachment → Text → Bool
holds items v = any (λ a. text_eq v a.url) items

All-weaken :
    (items : List Attachment) (a : Attachment) (live : List Text)
    → All (λ v. holds items v ≡ true) live
    → All (λ v. holds (a ∷ items) v ≡ true) live
All-weaken items a [] h = tt
All-weaken items a (v ∷ vs) h = (ground (arith, h.0), All-weaken items a vs h.1)

urls_held : (items : List Attachment) → All (λ v. holds items v ≡ true) (urls items)
urls_held [] = tt
urls_held (a ∷ items) =
    (rw (text_eq_refl a.url) refl, All-weaken items a (urls items) (urls_held items))

revoke_held :
    (a : Attachment) (items : List Attachment) (live : List Text)
    → is_set a.url ≡ true
    → All (λ v. holds (a ∷ items) v ≡ true) live
    → All (λ v. holds items v ≡ true) (revoke a.url live)
revoke_held a items [] s h = rw s tt
revoke_held a items (v ∷ vs) s h = elim (Bool-cases (text_eq v a.url)) [
  | inl b ↦ let rest = revoke_held a items vs s h.1 in ground (arith, rest, s, b)
  | inr b ↦ let rest = revoke_held a items vs s h.1 in ground (arith, rest, s, b, h.0)
]

revoke_all_held :
    (items : List Attachment) (live : List Text)
    → All (λ a. is_set a.url ≡ true) items
    → All (λ v. holds items v ≡ true) live
    → revoke_all items live ≡ []
unfolding revoke_all
revoke_all_held [] [] s h = refl
revoke_all_held [] (v ∷ vs) s h = cc (h.0)
revoke_all_held (a ∷ items) live s h =
    revoke_all_held items (revoke a.url live) s.1 (revoke_held a items live s.0 h)

module _ (h : Makers) (fresh : AreFresh h) where
  made_set : (items : List Attachment) → All (IsMade h) items → All (λ a. is_set a.url ≡ true) items
  made_set [] m = tt
  made_set (a ∷ items) m = (ap is_set m.0.2 ∙ fresh.set m.0.0, made_set items m.1)

  -- Revoking the URLs of all attachments leaves none of them.
  pub revoke_all_urls :
      (items : List Attachment) → All (IsMade h) items → revoke_all items (urls items) ≡ []
  revoke_all_urls items m = revoke_all_held items (urls items) (made_set items m) (urls_held items)

  -- Two attachments have the same id when they have the same URL.
  same_test : (a b : Attachment) → IsMade h a → IsMade h b → text_eq a.url b.url ≡ text_eq a.id b.id
  same_test a b (i, ai, au) (j, bi, bu) = elim (Bool-cases (text_eq a.id b.id)) [
    | inl e ↦
        let same = fresh.ids i j (sym ai ∙ ((text_eq_iff a.id b.id).0 e ∙ bi)) in
        (text_eq_iff a.url b.url).1 (au ∙ (ap h.object_url same ∙ sym bu)) ∙ sym e
    | inr e ↦ elim (Bool-cases (text_eq a.url b.url)) [
      | inl u ↦
          let same = fresh.urls i j (sym au ∙ ((text_eq_iff a.url b.url).0 u ∙ bu)) in
          absurd (cc ((text_eq_iff a.id b.id).1 (ai ∙ (ap h.nanoid same ∙ sym bi)), e))
      | inr u ↦ u ∙ sym e
    ]
  ]

  pub keep_urls :
      (b : Attachment) (items : List Attachment)
      → IsMade h b
      → All (IsMade h) items
      → keep (λ v. not (text_eq v b.url)) (urls items)
        ≡ urls (keep (λ a. not (text_eq a.id b.id)) items)
  keep_urls b [] mb m = refl
  keep_urls b (a ∷ items) mb m = ground (arith, keep_urls b items mb m.1, same_test a b m.0 mb)

  pub All-keep :
      (p : Attachment → Bool) (items : List Attachment)
      → All (IsMade h) items
      → All (IsMade h) (keep p items)
  All-keep p [] m = tt
  All-keep p (a ∷ items) m = elim (Bool-cases (p a)) [
    | inl b ↦ rw b (m.0, All-keep p items m.1)
    | inr b ↦ rw b (All-keep p items m.1)
  ]

  -- What `find` does not find, the filter leaves; what it finds has the id and is in the list.
  find-none :
      (id : Text) (xs : List Attachment)
      → find (λ a. text_eq a.id id) xs ≡ none
      → keep (λ a. not (text_eq a.id id)) xs ≡ xs
  find-none id [] e = refl
  find-none id (x ∷ xs) e = elim (Bool-cases (text_eq x.id id)) [
    | inl b ↦ ground (arith, b, e)
    | inr b ↦ ground (arith, b, e, find-none id xs)
  ]

  find-some :
      (id : Text) (xs : List Attachment) (a : Attachment)
      → find (λ a. text_eq a.id id) xs ≡ some a
      → All (IsMade h) xs
      → (a.id ≡ id) × IsMade h a
  find-some id [] a e m = cc
  find-some id (x ∷ xs) a e m = elim (Bool-cases (text_eq x.id id)) [
    | inl b ↦
        let same : x ≡ a = ground (arith, b, e) in
        (ap (λ y. y.id) (sym same) ∙ (text_eq_iff x.id id).0 b, rw (← same) m.0)
    | inr b ↦ find-some id xs a (ground (arith, b, e)) m.1
  ]

  pub revoke_found-urls :
      (id : Text) (xs : List Attachment) (o : Option Attachment)
      → find (λ a. text_eq a.id id) xs ≡ o
      → All (IsMade h) xs
      → revoke_found o (urls xs) ≡ urls (keep (λ a. not (text_eq a.id id)) xs)
  revoke_found-urls id xs none e m = ap urls (sym (find-none id xs e))
  revoke_found-urls id xs (some a) e m =
      let (same, made) = find-some id xs a e m in
      let (n, ids, us) = made in
      rw (us, fresh.set n, ← us)
        (keep_urls a xs (n, ids, us) m ∙ ap (λ i. urls (keep (λ b. not (text_eq b.id i)) xs)) same)
