-- ===== src/Panels/Message/Laws.antt =====
-- Which branch of a message is shown.
use native.Mathlib.Nat.{mod-add-mod, mod-eq_of_lt, mod_self, add-mod_right}
use native.Mathlib.Nat.{mul-suc}
use dspark_edge.Base.{
  ℕ, zero, suc, ◌+◌, ◌-◌, ◌*◌, ◌%◌, ◌<◌, ltb, ◌≤◌, ◌≡◌, refl, sym, ap, ◌∙◌, Bool, true, false, not,
  ◌&&◌, List, [], ◌∷◌, none, arith, keep, map, length, leb, All, All-append, All-map, if◌then◌else◌,
}
use dspark_edge.Panels.Message.{
  Branches, new_branches, change_branch, go_to_previous, go_to_next, press_previous, press_next,
  set_branches, BranchEvent, previous, next, children, branch, branch_all, blocks,
}

-- How many of the children from index `i` on are shown.
abbrev pub shown_from : ℕ → ℕ → ℕ → ℕ
shown_from i count current = length (keep (λ x. x) (blocks i count current))

shown_from-before : (i count current : ℕ) → current < i → shown_from i count current ≡ 0
unfolding blocks
shown_from-before i zero current h = refl
shown_from-before i (suc count) current h = ground (arith, shown_from-before (suc i) count current)

shown_from-within :
    (i count current : ℕ) → i ≤ current → current < i + count → shown_from i count current ≡ 1
unfolding blocks
shown_from-within i zero current h k = omega arith
shown_from-within i (suc count) current h k =
    ground (arith, shown_from-before (suc i) count current, shown_from-within (suc i) count current)

shown_from-after : (i count current : ℕ) → i + count ≤ current → shown_from i count current ≡ 0
unfolding blocks
shown_from-after i zero current h = refl
shown_from-after i (suc count) current h = ground (arith, shown_from-after (suc i) count current)

-- The number of children never becomes smaller.
abbrev pub grows : ℕ → List BranchEvent → Bool
grows n [] = true
grows n (previous ∷ es) = grows n es
grows n (next ∷ es) = grows n es
grows n (children k ∷ es) = leb n k && grows k es

-- A branch is shown, and the owner was told of no branch that is not there.
abbrev IsValid : Branches → Type 0
IsValid b = (b.current < b.total) × All (λ i. i < b.total) b.told

change_branch-IsValid :
    (i : ℕ) (b : Branches) → i < b.total → IsValid b → IsValid (change_branch i b)
change_branch-IsValid i b l (h, k) = (l, All-append (λ j. j < b.total) b.told _ k (l, tt))

press_previous-IsValid : (b : Branches) → IsValid b → IsValid (press_previous b)
unfolding press_previous go_to_previous
press_previous-IsValid b v =
    ground (arith, change_branch-IsValid (b.current - 1) b, change_branch-IsValid (b.total - 1) b)

press_next-IsValid : (b : Branches) → IsValid b → IsValid (press_next b)
unfolding press_next go_to_next
press_next-IsValid b v =
    ground (arith, change_branch-IsValid (b.current + 1) b, change_branch-IsValid 0 b)

-- What the effect leaves as it is, and the number that it sets.
set_branches-fields :
    (n : ℕ) (b : Branches)
    → let b' = set_branches n b in (b'.current ≡ b.current) × (b'.total ≡ n) × (b'.told ≡ b.told)
unfolding set_branches
set_branches-fields n b = (ground arith, ground arith, ground arith)

set_branches-IsValid : (n : ℕ) (b : Branches) → b.total ≤ n → IsValid b → IsValid (set_branches n b)
set_branches-IsValid n b l (h, k) =
    let (current, total, told) = set_branches-fields n b in
    (
      omega arith,
      rw told
          (rw total (All-map (λ i. i < b.total) (λ i. i < n) (λ i below. omega arith) b.told k)),
    )

-- A click on one of the two buttons: `next` if true.
abbrev pub press : Bool → BranchEvent
press true = next
press false = previous

press_next-mod :
    (b : Branches) → b.current < b.total → (press_next b).current ≡ (b.current + 1) % b.total
unfolding press_next go_to_next
press_next-mod b h = grind (arith, mod-eq_of_lt, mod_self)

-- One step back is `t - 1` steps ahead.
back-mod : (c t : ℕ) → c < t → (c + (t - 1)) % t ≡ (if ltb 0 c then c - 1 else t - 1)
back-mod zero t h = ap (λ x. x % t) {y = t - 1} (omega arith) ∙ mod-eq_of_lt (omega arith)
back-mod (suc k) t h =
    ap (λ x. x % t) {y = k + t} (omega arith)
    ∙ add-mod_right k t
    ∙ mod-eq_of_lt (omega arith)
    ∙ ground arith

press_previous-mod :
    (b : Branches)
    → b.current < b.total
    → (press_previous b).current ≡ (b.current + (b.total - 1)) % b.total
unfolding press_previous go_to_previous
press_previous-mod b h = ground (arith, back-mod b.current b.total h)

total-press : (p : Bool) (b : Branches) → (branch (press p) b).total ≡ b.total
unfolding press_previous press_next go_to_previous go_to_next
total-press true b = ground arith
total-press false b = ground arith

shown-press :
    (p : Bool) (b : Branches)
    → b.current < b.total
    → (branch (press p) b).current < (branch (press p) b).total
unfolding press_previous press_next go_to_previous go_to_next
shown-press true b h = ground arith
shown-press false b h = ground arith

-- How often `next` was clicked, and how often `previous`.
abbrev pub nexts : List Bool → ℕ
nexts ps = length (keep (λ p. p) ps)

abbrev pub previouses : List Bool → ℕ
previouses ps = length (keep not ps)

-- With a branch shown and the number of branches fixed, the branch shown after any clicks is the
-- first one moved on by 1 for each click on next, and by the number of branches less 1 for each
-- click on previous, modulo the number of branches.
pub press_all-mod :
    (ps : List Bool) (b : Branches)
    → b.current < b.total
    → (branch_all (map press ps) b).current
      ≡ (b.current + (nexts ps + (b.total - 1) * previouses ps)) % b.total
unfolding branch_all
press_all-mod [] b h = sym (ap (λ x. x % b.total) {y = b.current} (omega arith) ∙ mod-eq_of_lt h)
press_all-mod (true ∷ ps) b h =
    let b' = press_next b in
    let same : b'.total ≡ b.total = total-press true b in
    press_all-mod ps b' (shown-press true b h)
    ∙ rw same (
        ap (λ c. (c + (nexts ps + (b.total - 1) * previouses ps)) % b.total) (press_next-mod b h)
        ∙ mod-add-mod (b.current + 1) b.total _
        ∙ ap (λ x. x % b.total) (omega arith))
press_all-mod (false ∷ ps) b h =
    let b' = press_previous b in
    let same : b'.total ≡ b.total = total-press false b in
    press_all-mod ps b' (shown-press false b h)
    ∙ rw same (
        ap (λ c. (c + (nexts ps + (b.total - 1) * previouses ps)) % b.total)
          (press_previous-mod b h)
        ∙ mod-add-mod (b.current + (b.total - 1)) b.total _
        ∙ ap (λ x. x % b.total) (rw mul-suc (omega arith)))

branch_all-IsValid :
    (es : List BranchEvent) (b : Branches)
    → grows b.total es ≡ true
    → IsValid b
    → IsValid (branch_all es b)
unfolding branch_all
branch_all-IsValid [] b g v = v
branch_all-IsValid (previous ∷ es) b g v =
    branch_all-IsValid es (press_previous b) (rw (total-press false b) g)
      (press_previous-IsValid b v)
branch_all-IsValid (next ∷ es) b g v =
    branch_all-IsValid es (press_next b) (rw (total-press true b) g) (press_next-IsValid b v)
branch_all-IsValid (children n ∷ es) b g v =
    branch_all-IsValid es (set_branches n b) (rw ((set_branches-fields n b).1) (ground arith))
      (set_branches-IsValid n b (ground arith) v)

-- With at least one branch at first and their number never becoming smaller, after any clicks and
-- changes exactly one branch is shown, and the owner was told only of branches that there are.
pub one_branch_shown :
    (n : ℕ) (es : List BranchEvent)
    → 0 < n
    → grows n es ≡ true
    → let b = branch_all es (set_branches n (new_branches none)) in
      (shown_from 0 b.total b.current ≡ 1) × All (λ i. i < b.total) b.told
unfolding new_branches
one_branch_shown n es h g =
    let first = set_branches n (new_branches none) in
    let (current, total, told) = set_branches-fields n (new_branches none) in
    let v = branch_all-IsValid es first (rw total g) (omega arith, rw told tt) in
    (shown_from-within 0 _ _ (omega arith) (omega arith), v.1)

-- When the branches become fewer than the one shown, none is shown.
pub no_branch_shown :
    (b : Branches) (count : ℕ)
    → count ≤ b.current
    → let b' = set_branches count b in shown_from 0 b'.total b'.current ≡ 0
no_branch_shown b count h =
    let (current, total, told) = set_branches-fields count b in shown_from-after 0 _ _ (omega arith)
