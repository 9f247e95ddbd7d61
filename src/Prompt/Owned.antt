-- ===== src/Prompt/Owned.antt =====
-- The object URLs that are alive are those of the attachments.
use dspark_edge.Base.{
  ℕ, suc, ◌≡◌, refl, sym, ap, ◌∙◌, Bool, true, false, not, Option, none, List, [], ◌∷◌, ◌++◌, find,
  length, All, Bool-cases, inl, inr,
}
use dspark_edge.Base.Text.{Text, text_eq}
use dspark_edge.Prompt.Accept.{
  File, Limits, PromptError, Checked, rejects, passes, check, capacity, capped, exceeds,
}
use dspark_edge.Prompt.{
  Makers, Attachment, Prompt, attach_all, revoke_all, revoke_found, initial, report, append_files,
  provider_add, report_over, add_checked, add_local, add_seen, add_with_provider, remove,
  clear_attachments, unmount, add_sources, remove_source, clear_sources, clear_submitted, set_text,
  Ending, throws, rejected, returns, resolved, submit_begin, submit_end,
}
use dspark_edge.Prompt.Edits.{
  Edit, adds, adds_provided, removes, clears, adds_sources, removes_source, clears_sources, types,
  submits, ends, edit, edit_all, edit_all_induction,
}
use dspark_edge.Prompt.Revoking.{
  urls, AreFresh, IsMade, revoke_all_urls, revoke_found-urls, All-keep,
}

map-append : (xs ys : List Attachment) → urls (xs ++ ys) ≡ urls xs ++ urls ys
map-append [] ys = refl
map-append (x ∷ xs) ys = ap (λ us. x.url ∷ us) (map-append xs ys)

module _ (h : Makers) where
  All-append :
      (xs ys : List Attachment) → All (IsMade h) xs → All (IsMade h) ys → All (IsMade h) (xs ++ ys)
  All-append [] ys p q = q
  All-append (x ∷ xs) ys p q = (p.0, All-append xs ys p.1 q)

  attach_all-IsMade : (n : ℕ) (fs : List File) → All (IsMade h) (attach_all h n fs)
  unfolding attach_all
  attach_all-IsMade n [] = tt
  attach_all-IsMade n (f ∷ fs) = ((n, refl, refl), attach_all-IsMade (suc n) fs)

  -- The live URLs are those of the attachments, in their order.
  pub record IsOwned {S : Type 0} (s : Prompt S) : Type 0 where
    pub owned : s.live ≡ urls s.items
    pub made : All (IsMade h) s.items

  module _ {S : Type 0} (fresh : AreFresh h) where
    append_files-IsOwned :
        (fs : List File) (s : Prompt S) → IsOwned s → IsOwned (append_files h fs s)
    unfolding append_files
    append_files-IsOwned fs s v = record {
      owned =
          ap (λ l. l ++ urls (attach_all h s.made fs)) v.owned
          ∙ sym (map-append s.items (attach_all h s.made fs));
      made = All-append s.items (attach_all h s.made fs) v.made (attach_all-IsMade s.made fs);
    }

    report-IsOwned : (e : PromptError) (s : Prompt S) → IsOwned s → IsOwned (report e s)
    report-IsOwned e s v = record { owned = v.owned; made = v.made }

    report_over-IsOwned :
        (cap : Option ℕ) (fs : List File) (s : Prompt S)
        → IsOwned s
        → IsOwned (report_over cap fs s)
    report_over-IsOwned cap fs s v = elim (Bool-cases (exceeds cap fs)) [
      | inl b ↦ rw b (record { owned = v.owned; made = v.made })
      | inr b ↦ rw b v
    ]

    provider_add-IsOwned :
        (fs : List File) (s : Prompt S) → IsOwned s → IsOwned (provider_add h fs s)
    provider_add-IsOwned [] s v = v
    provider_add-IsOwned (f ∷ fs) s v = append_files-IsOwned (f ∷ fs) s v

    add_checked-IsOwned :
        (l : Limits) (c : Checked) (s : Prompt S) → IsOwned s → IsOwned (add_checked h l c s)
    add_checked-IsOwned l (rejects e) s v = report-IsOwned e s v
    add_checked-IsOwned l (passes fs) s v =
        let cap = capacity l.max_files (length s.items) in
        append_files-IsOwned (capped cap fs) (report_over cap fs s) (report_over-IsOwned cap fs s v)

    add_seen-IsOwned :
        (l : Limits) (seen : ℕ) (c : Checked) (s : Prompt S)
        → IsOwned s
        → IsOwned (add_seen h l seen c s)
    add_seen-IsOwned l seen (rejects e) s v = report-IsOwned e s v
    add_seen-IsOwned l seen (passes fs) s v =
        let cap = capacity l.max_files seen in
        provider_add-IsOwned (capped cap fs) (report_over cap fs s) (report_over-IsOwned cap fs s v)

    remove-IsOwned : (id : Text) (s : Prompt S) → IsOwned s → IsOwned (remove id s)
    unfolding remove
    remove-IsOwned id s v = record {
      owned =
          ap (revoke_found (find (λ a. text_eq a.id id) s.items)) v.owned
          ∙ revoke_found-urls h fresh id s.items _ refl v.made;
      made = All-keep h fresh (λ a. not (text_eq a.id id)) s.items v.made;
    }

    clear_attachments-IsOwned : (s : Prompt S) → IsOwned s → IsOwned (clear_attachments s)
    unfolding clear_attachments
    clear_attachments-IsOwned s v = record {
      owned = ap (revoke_all s.items) v.owned ∙ revoke_all_urls h fresh s.items v.made;
      made = tt;
    }

    clear_submitted-IsOwned :
        (provided : Bool) (s : Prompt S) → IsOwned s → IsOwned (clear_submitted provided s)
    unfolding clear_sources
    clear_submitted-IsOwned true s v =
        let w = clear_attachments-IsOwned s v in record { owned = w.owned; made = w.made }
    clear_submitted-IsOwned false s v =
        let w = clear_attachments-IsOwned s v in record { owned = w.owned; made = w.made }

    submit_end-IsOwned :
        (provided : Bool) (how : Ending) (s : Prompt S)
        → IsOwned s
        → IsOwned (submit_end provided how s)
    unfolding submit_end
    submit_end-IsOwned provided throws s v = v
    submit_end-IsOwned provided rejected s v = v
    submit_end-IsOwned provided returns s v = clear_submitted-IsOwned provided s v
    submit_end-IsOwned provided resolved s v = clear_submitted-IsOwned provided s v

    submit_begin-IsOwned :
        (provided : Bool) (d : Text → Option Text) (s : Prompt S)
        → IsOwned s
        → IsOwned (submit_begin provided d s).1
    unfolding submit_begin
    submit_begin-IsOwned true d s v = v
    submit_begin-IsOwned false d s v = record { owned = v.owned; made = v.made }

    edit-IsOwned : (l : Limits) (e : Edit S) (s : Prompt S) → IsOwned s → IsOwned (edit h l e s)
    unfolding edit add_local add_with_provider add_sources remove_source clear_sources set_text
    edit-IsOwned l (adds fs) s v = add_checked-IsOwned l (check l fs) s v
    edit-IsOwned l (adds_provided seen fs) s v = add_seen-IsOwned l seen (check l fs) s v
    edit-IsOwned l (removes id) s v = remove-IsOwned id s v
    edit-IsOwned l clears s v = clear_attachments-IsOwned s v
    edit-IsOwned l (adds_sources parts) s v = record { owned = v.owned; made = v.made }
    edit-IsOwned l (removes_source id) s v = record { owned = v.owned; made = v.made }
    edit-IsOwned l clears_sources s v = record { owned = v.owned; made = v.made }
    edit-IsOwned l (types t) s v = record { owned = v.owned; made = v.made }
    edit-IsOwned l (submits provided) s v = submit_begin-IsOwned provided (λ u. none) s v
    edit-IsOwned l (ends provided how) s v = submit_end-IsOwned provided how s v

    edit_all-IsOwned :
        (l : Limits) (es : List (Edit S)) (t : Text) → IsOwned (edit_all h l es (initial t))
    edit_all-IsOwned l es t =
        edit_all_induction h l IsOwned (edit-IsOwned l) es (initial t)
          (unfold initial in record { owned = refl; made = tt })

    -- After any edits of an empty prompt, the object URLs that are alive are exactly those of its
    -- attachments, in their order, and none is alive once the prompt is unmounted; given that ids and
    -- object URLs are fresh.
    pub live-edit_all :
        (l : Limits) (es : List (Edit S)) (t : Text)
        → let s = edit_all h l es (initial t) in (s.live ≡ urls s.items) × ((unmount s).live ≡ [])
    unfolding unmount
    live-edit_all l es t =
        let s = edit_all h l es (initial t) in
        let v = edit_all-IsOwned l es t in
        (v.owned, ap (revoke_all s.items) v.owned ∙ revoke_all_urls h fresh s.items v.made)
