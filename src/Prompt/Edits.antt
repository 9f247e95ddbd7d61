-- ===== src/Prompt/Edits.antt =====
-- Any sequence of the prompt's operations, on its own attachments or on a provider's.
use dspark_edge.Base.{ℕ, Bool, none, List, [], ◌∷◌}
use dspark_edge.Base.Text.{Text}
use dspark_edge.Prompt.Accept.{File, Limits}
use dspark_edge.Prompt.{
  Makers, Prompt, add_local, add_with_provider, remove, clear_attachments, add_sources,
  remove_source, clear_sources, set_text, Ending, submit_begin, submit_end,
}

pub data Edit (S : Type 0) : Type 0 where
  adds : List File → Edit S
  adds_provided : (seen : ℕ) → List File → Edit S
  removes : Text → Edit S
  clears : Edit S
  adds_sources : List S → Edit S
  removes_source : Text → Edit S
  clears_sources : Edit S
  types : Text → Edit S
  submits : (provided : Bool) → Edit S
  ends : (provided : Bool) → Ending → Edit S

module _ {S : Type 0} (h : Makers) (l : Limits) where
  unfoldable pub edit : Edit S → Prompt S → Prompt S
  edit (adds fs) s = add_local h l fs s
  edit (adds_provided seen fs) s = add_with_provider h l seen fs s
  edit (removes id) s = remove id s
  edit clears s = clear_attachments s
  edit (adds_sources parts) s = add_sources h parts s
  edit (removes_source id) s = remove_source id s
  edit clears_sources s = clear_sources s
  edit (types t) s = set_text t s
  edit (submits provided) s = (submit_begin provided (λ url. none) s).1
  edit (ends provided how) s = submit_end provided how s

  unfoldable pub edit_all : List (Edit S) → Prompt S → Prompt S
  edit_all [] s = s
  edit_all (e ∷ es) s = edit_all es (edit e s)

  module _ (P : Prompt S → Type 0) (keeps : (e : Edit S) (s : Prompt S) → P s → P (edit e s)) where
    pub edit_all_induction : (es : List (Edit S)) (s : Prompt S) → P s → P (edit_all es s)
    unfolding edit_all
    edit_all_induction [] s h = h
    edit_all_induction (e ∷ es) s h = edit_all_induction es (edit e s) (keeps e s h)
