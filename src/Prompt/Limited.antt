-- ===== src/Prompt/Limited.antt =====
-- The limit on the number of files.
use dspark_edge.Base.{
  ℕ, suc, ◌+◌, ◌-◌, ◌≤◌, ◌≡◌, refl, sym, ap, Bool, true, false, not, Option, some, List, [], ◌∷◌,
  append-nil, arith, length, length-append, length-take, length-keep-le, All,
}
use dspark_edge.Base.Text.{Text, text_eq}
use dspark_edge.Prompt.Accept.{File, Limits, Checked, rejects, passes, check, capacity}
use dspark_edge.Prompt.{
  Makers, Prompt, attach_all, initial, append_files, provider_add, report_over, add_checked,
  add_local, add_seen, add_with_provider, remove, clear_attachments, add_sources, remove_source,
  clear_sources, set_text, Ending, throws, rejected, returns, resolved, submit_begin, submit_end,
}
use dspark_edge.Prompt.Edits.{
  Edit, adds, adds_provided, removes, clears, adds_sources, removes_source, clears_sources, types,
  submits, ends, edit, edit_all,
}

length-attach_all : (h : Makers) (n : ℕ) (fs : List File) → length (attach_all h n fs) ≡ length fs
unfolding attach_all
length-attach_all h n [] = refl
length-attach_all h n (f ∷ fs) = ap suc (length-attach_all h (suc n) fs)

-- The edits of a prompt that has its own attachments.
abbrev pub IsOwn : {S : Type 0} → Edit S → Type 0
IsOwn (adds_provided seen fs) = ⊥
IsOwn _ = Unit

module _ {S : Type 0} (h : Makers) where
  report_over-items :
      (cap : Option ℕ) (fs : List File) (s : Prompt S) → (report_over cap fs s).items ≡ s.items
  report_over-items cap fs s = ground (arith)

  length-add_checked :
      (l : Limits) (k : ℕ) (c : Checked) (s : Prompt S)
      → l.max_files ≡ some k
      → length s.items ≤ k
      → length (add_checked h l c s).items ≤ k
  unfolding append_files
  length-add_checked l k (rejects e) s m b = b
  length-add_checked l k (passes fs) s m b =
      let cap = capacity l.max_files (length s.items) in
      let s' = report_over cap fs s in
      rw (length-append, length-attach_all, report_over-items cap fs s, m)
        (omega (arith, length-take (k - length s.items) fs, b))

  length-submit_end :
      (k : ℕ) (provided : Bool) (how : Ending) (s : Prompt S)
      → length s.items ≤ k
      → length (submit_end provided how s).items ≤ k
  unfolding submit_end clear_sources clear_attachments
  length-submit_end k provided throws s b = b
  length-submit_end k provided rejected s b = b
  length-submit_end k true returns s b = omega arith
  length-submit_end k false returns s b = omega arith
  length-submit_end k true resolved s b = omega arith
  length-submit_end k false resolved s b = omega arith

  length-edit :
      (l : Limits) (k : ℕ) (e : Edit S) (s : Prompt S)
      → l.max_files ≡ some k
      → IsOwn e
      → length s.items ≤ k
      → length (edit h l e s).items ≤ k
  unfolding edit add_local remove clear_attachments add_sources remove_source clear_sources set_text
      submit_begin
  length-edit l k (adds fs) s m o b = length-add_checked l k (check l fs) s m b
  length-edit l k (adds_provided seen fs) s m o b = absurd o
  length-edit l k (removes id) s m o b =
      omega (arith, b, length-keep-le (λ a. not (text_eq a.id id)) s.items)
  length-edit l k clears s m o b = omega arith
  length-edit l k (adds_sources parts) s m o b = b
  length-edit l k (removes_source id) s m o b = b
  length-edit l k clears_sources s m o b = b
  length-edit l k (types t) s m o b = b
  length-edit l k (submits true) s m o b = b
  length-edit l k (submits false) s m o b = b
  length-edit l k (ends provided how) s m o b = length-submit_end k provided how s b

  length-edit_all_from :
      (l : Limits) (k : ℕ) (es : List (Edit S)) (s : Prompt S)
      → l.max_files ≡ some k
      → All IsOwn es
      → length s.items ≤ k
      → length (edit_all h l es s).items ≤ k
  unfolding edit_all
  length-edit_all_from l k [] s m o b = b
  length-edit_all_from l k (e ∷ es) s m o b =
      length-edit_all_from l k es (edit h l e s) m o.1 (length-edit l k e s m o.0 b)

  -- A prompt with a limit on the number of files, and with its own attachments, never holds more
  -- than that, whatever edits are made.
  pub length-edit_all :
      (l : Limits) (k : ℕ) (es : List (Edit S)) (t : Text)
      → l.max_files ≡ some k
      → All IsOwn es
      → length (edit_all h l es (initial t)).items ≤ k
  length-edit_all l k es t m o =
      length-edit_all_from l k es (initial t) m o (unfold initial in omega arith)

  append_files-nil : (s : Prompt S) → append_files h [] s ≡ s
  unfolding append_files attach_all
  append_files-nil s =
      let same : s.made + 0 ≡ s.made = omega arith in
      λ i. record s { items = append-nil s.items i; live = append-nil s.live i; made = same i }

  provider_add-append_files :
      (fs : List File) (s : Prompt S) → provider_add h fs s ≡ append_files h fs s
  provider_add-append_files [] s = sym (append_files-nil s)
  provider_add-append_files (f ∷ fs) s = refl

  add_seen-add_checked :
      (l : Limits) (c : Checked) (s : Prompt S)
      → add_seen h l (length s.items) c s ≡ add_checked h l c s
  add_seen-add_checked l (rejects e) s = refl
  add_seen-add_checked l (passes fs) s = provider_add-append_files _ _

  -- The two versions of `add` do the same when the number of attachments of the last render is the
  -- number that there is.
  pub add_with_provider-add_local :
      (l : Limits) (fs : List File) (s : Prompt S)
      → add_with_provider h l (length s.items) fs s ≡ add_local h l fs s
  unfolding add_with_provider add_local
  add_with_provider-add_local l fs s = add_seen-add_checked l (check l fs) s
