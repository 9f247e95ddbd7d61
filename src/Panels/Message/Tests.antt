-- ===== src/Panels/Message/Tests.antt =====
-- The branches of a message at concrete values, and the theorems on them.
use dspark_edge.Base.{◌≡◌, refl, true, false, Bool, List, [], ◌∷◌, ◌++◌, some}
use dspark_edge.Base.Text.{lit, decimal}
use dspark_edge.Panels.Message.{
  Branches, BranchEvent, previous, next, children, branch_selector, page_text,
}

-- The second of three branches.
abbrev second_of_three : Branches
second_of_three = record { current = 1; total = 3; told = [] }

page_of_second :
    branch_selector second_of_three ≡ some (decimal 2 ++ (lit " of " ++ decimal 3), true)
unfolding branch_selector page_text lit
page_of_second = refl

abbrev clicks : List Bool
clicks = true ∷ true ∷ false ∷ true ∷ []

-- Two branches, a third one while the second is shown.
abbrev events : List BranchEvent
events = next ∷ children 3 ∷ next ∷ next ∷ previous ∷ []
