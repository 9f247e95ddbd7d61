-- ===== src/Base/Sorting.antt =====
-- `xs.sort(compare)` as insertion from the right, which keeps equal elements in their order.
use mathlib.Core.List.{Perm, Memᴰ}
use mathlib.Core.List.Perm
use dspark_edge.Base.{
  ◌≡◌, inl, inr, Bool, true, false, List, [], ◌∷◌, arith, if◌then◌else◌, Bool-cases, All,
}

module _ {ℓ} {A : Type ℓ} (before : A → A → Bool) where
  unfoldable pub insert : A → List A → List A
  insert a [] = a ∷ []
  insert a (x ∷ xs) = let rest = insert a xs in if before a x then a ∷ x ∷ xs else x ∷ rest

  unfoldable pub sort : List A → List A
  unfolding insert
  sort [] = []
  sort (a ∷ xs) = insert a (sort xs)

  -- Each element may stand before the next.
  abbrev pub IsChain : List A → Type 0
  IsChain [] = Unit
  IsChain (a ∷ []) = Unit
  IsChain (a ∷ b ∷ xs) = (before a b ≡ true) × IsChain (b ∷ xs)

  insert-perm : (a : A) (xs : List A) → Perm (insert a xs) (a ∷ xs)
  unfolding insert
  insert-perm a [] = Perm.refl (a ∷ [])
  insert-perm a (x ∷ xs) = elim (Bool-cases (before a x)) [
    | inl b ↦ rw b (Perm.refl (a ∷ x ∷ xs))
    | inr b ↦ rw b (Perm.trans (Perm.cons x (insert-perm a xs)) (Perm.swap a x xs))
  ]

  pub sort-perm : (xs : List A) → Perm (sort xs) xs
  unfolding sort
  sort-perm [] = Perm.refl []
  sort-perm (a ∷ xs) = Perm.trans (insert-perm a (sort xs)) (Perm.cons a (sort-perm xs))

  insert-All {κ} : (P : A → Type κ) (a : A) (xs : List A) → P a → All P xs → All P (insert a xs)
  unfolding insert
  insert-All P a [] h k = (h, tt)
  insert-All P a (x ∷ xs) h k = ground (arith, insert-All P a xs h k.1)

  pub sort-All {κ} : (P : A → Type κ) (xs : List A) → All P xs → All P (sort xs)
  unfolding sort
  sort-All P [] h = tt
  sort-All P (a ∷ xs) h = insert-All P a (sort xs) h.0 (sort-All P xs h.1)

  module _ (total : (a b : A) → before a b ≡ false → before b a ≡ true) where
    insert-IsChain : (a : A) (xs : List A) → IsChain xs → IsChain (insert a xs)
    unfolding insert
    insert-IsChain a [] c = tt
    insert-IsChain a (x ∷ []) c = elim (Bool-cases (before a x)) [
      | inl b ↦ rw b (b, tt)
      | inr b ↦ rw b (total a x b, tt)
    ]
    insert-IsChain a (x ∷ y ∷ xs) c = ground (arith, insert-IsChain a (y ∷ xs) c.1, total a x)

    pub sort-IsChain : (xs : List A) → IsChain (sort xs)
    unfolding sort
    sort-IsChain [] = tt
    sort-IsChain (a ∷ xs) = insert-IsChain a (sort xs) (sort-IsChain xs)

module _ {A : Type 0} where
  -- A list's members with one more element behind the first.
  behind : (a b x : A) (xs : List A) → Memᴰ b (a ∷ xs) → Memᴰ b (a ∷ x ∷ xs)
  behind a b x xs (Memᴰ.head p) = Memᴰ.head p
  behind a b x xs (Memᴰ.tail m) = Memᴰ.tail (Memᴰ.tail m)

  swap_front :
      (a b x : A) (xs ys : List A)
      → (Memᴰ b ys → Memᴰ b (a ∷ xs))
      → Memᴰ b (x ∷ ys)
      → Memᴰ b (a ∷ x ∷ xs)
  swap_front a b x xs ys f (Memᴰ.head p) = Memᴰ.tail (Memᴰ.head p)
  swap_front a b x xs ys f (Memᴰ.tail m) = behind a b x xs (f m)

  swap_back :
      (a b x : A) (xs ys : List A)
      → (Memᴰ b (a ∷ xs) → Memᴰ b ys)
      → Memᴰ b (a ∷ x ∷ xs)
      → Memᴰ b (x ∷ ys)
  swap_back a b x xs ys f (Memᴰ.head p) = Memᴰ.tail (f (Memᴰ.head p))
  swap_back a b x xs ys f (Memᴰ.tail (Memᴰ.head p)) = Memᴰ.head p
  swap_back a b x xs ys f (Memᴰ.tail (Memᴰ.tail m)) = Memᴰ.tail (f (Memᴰ.tail m))

  cons_mem :
      (a b : A) (xs ys : List A) → (Memᴰ b xs → Memᴰ b ys) → Memᴰ b (a ∷ xs) → Memᴰ b (a ∷ ys)
  cons_mem a b xs ys f (Memᴰ.head p) = Memᴰ.head p
  cons_mem a b xs ys f (Memᴰ.tail m) = Memᴰ.tail (f m)

module _ {A : Type 0} (before : A → A → Bool) where
  insert_mem : (a b : A) (xs : List A) → Memᴰ b (insert before a xs) → Memᴰ b (a ∷ xs)
  unfolding insert
  insert_mem a b [] m = m
  insert_mem a b (x ∷ xs) m = elim (Bool-cases (before a x)) [
    | inl h ↦ rw h at m
    | inr h ↦ swap_front a b x xs (insert before a xs) (insert_mem a b xs) (rw h at m)
  ]

  mem_insert : (a b : A) (xs : List A) → Memᴰ b (a ∷ xs) → Memᴰ b (insert before a xs)
  unfolding insert
  mem_insert a b [] m = m
  mem_insert a b (x ∷ xs) m = elim (Bool-cases (before a x)) [
    | inl h ↦ rw h m
    | inr h ↦ rw h (swap_back a b x xs (insert before a xs) (mem_insert a b xs) m)
  ]

  -- A sorted list has the same members.
  pub sort_mem : (b : A) (xs : List A) → Memᴰ b (sort before xs) → Memᴰ b xs
  unfolding sort
  sort_mem b [] m = m
  sort_mem b (x ∷ xs) m =
      cons_mem x b (sort before xs) xs (sort_mem b xs) (insert_mem x b (sort before xs) m)

  pub mem_sort : (b : A) (xs : List A) → Memᴰ b xs → Memᴰ b (sort before xs)
  unfolding sort
  mem_sort b [] m = m
  mem_sort b (x ∷ xs) m =
      mem_insert x b (sort before xs) (cons_mem x b xs (sort before xs) (mem_sort b xs) m)
