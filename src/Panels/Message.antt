-- ===== src/Panels/Message.antt =====
-- The branches of a message and the reply's text
-- (tools/llama-dspark-test-ui/components/ai-elements/message.tsx).
pub mod Laws
mod Tests
use dspark_edge.Base.{
  ℕ, zero, suc, ◌+◌, ◌-◌, Bool, true, false, ◌&&◌, Option, none, some, List, [], ◌∷◌, ◌++◌, ltb,
  leb, ◌==◌, if◌then◌else◌,
}
use dspark_edge.Base.Text.{Text, lit, decimal, text_eq}

-- A message's branches: the one shown, how many there are, and the calls of `onBranchChange`.
pub record Branches : Type 0 where
  pub current : ℕ
  pub total : ℕ
  pub told : List ℕ

-- The state before the effect of `MessageBranchContent` has run.
pub new_branches : (default_branch : Option ℕ) → Branches
new_branches none = record { current = 0; total = 0; told = [] }
new_branches (some i) = record { current = i; total = 0; told = [] }

-- `handleBranchChange`
abbrev pub change_branch : ℕ → Branches → Branches
change_branch i b = record b { current = i; told = b.told ++ i ∷ [] }

pub go_to_previous : Branches → Branches
go_to_previous b = change_branch (if ltb 0 b.current then b.current - 1 else b.total - 1) b

pub go_to_next : Branches → Branches
go_to_next b = change_branch (if ltb b.current (b.total - 1) then b.current + 1 else 0) b

-- A click on the two buttons, which are disabled when there is at most one branch.
pub press_previous : Branches → Branches
press_previous b = if leb b.total 1 then b else go_to_previous b

pub press_next : Branches → Branches
press_next b = if leb b.total 1 then b else go_to_next b

-- The effect of `MessageBranchContent` when its children change.
pub set_branches : ℕ → Branches → Branches
set_branches count b = if b.total == count then b else record b { total = count }

-- What happens to the branches of a message: the two clicks, and a new number of children.
pub data BranchEvent : Type 0 where
  previous next : BranchEvent
  children : ℕ → BranchEvent

abbrev pub branch : BranchEvent → Branches → Branches
branch previous b = press_previous b
branch next b = press_next b
branch (children n) b = set_branches n b

pub branch_all : List BranchEvent → Branches → Branches
branch_all [] b = b
branch_all (e ∷ es) b = branch_all es (branch e b)

-- For each of the children from index `i` on, whether it is shown.
pub blocks : (i count current : ℕ) → List Bool
blocks i zero current = []
blocks i (suc count) current = (i == current) ∷ blocks (suc i) count current

-- The text of `MessageBranchPage`
pub page_text : Branches → Text
page_text b = decimal (b.current + 1) ++ (lit " of " ++ decimal b.total)

-- The selector: none with at most one branch, else its page and whether its buttons are enabled.
pub branch_selector : Branches → Option (Text × Bool)
branch_selector b = if leb b.total 1 then none else some (page_text b, leb 2 b.total)

-- The comparison of `MessageResponse`: whether the text is kept as it was drawn.
pub keeps_response : (was is : Text) → (was_animating is_animating : Bool) → Bool
keeps_response was is true animating = text_eq was is && animating
keeps_response was is false true = false
keeps_response was is false false = text_eq was is
