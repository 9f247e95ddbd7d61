-- ===== src/Prompt/Drop/Laws.antt =====
-- A drop is taken once, by the latest `add`.
use dspark_edge.Base.{
  ℕ, suc, ◌+◌, ◌≡◌, refl, ap, ◌∙◌, Bool, true, false, ◌&&◌, ◌||◌, Option, none, some, List, [], ◌∷◌,
  ◌++◌, append-nil, arith, length, if◌then◌else◌,
}
use dspark_edge.Prompt.Accept.{File}
use dspark_edge.Prompt.Keys.{handle_drop}
use dspark_edge.Prompt.Drop.{
  Listener, same_listener, DropZone, new_zone, clean_up, form_effect, document_effect, render,
  render_all, added, drop,
}

-- The zone after the run `n` with this form and this `globalDrop`.
abbrev zone_of : Bool → Bool → ℕ → DropZone
zone_of has_form true n = record {
  listeners = record { on_document = true; run = n } ∷ [];
  form_cleanup = none;
  document_cleanup = some (record { on_document = true; run = n });
  runs = suc n;
}
zone_of true false n = record {
  listeners = record { on_document = false; run = n } ∷ [];
  form_cleanup = some (record { on_document = false; run = n });
  document_cleanup = none;
  runs = suc n;
}
zone_of false false n = record {
  listeners = [];
  form_cleanup = none;
  document_cleanup = none;
  runs = suc n;
}

same_listener_self :
    (b : Bool) (n : ℕ)
    → let l : Listener = record { on_document = b; run = n } in same_listener l l ≡ true
unfolding same_listener
same_listener_self true n = ground arith
same_listener_self false n = ground arith

abbrev empty_zone : ℕ → DropZone
empty_zone n = record { listeners = []; form_cleanup = none; document_cleanup = none; runs = n }

-- The cleanup removes all listeners of the run before.
clean_up-zone_of : (h g : Bool) (n : ℕ) → clean_up (zone_of h g n) ≡ empty_zone (suc n)
unfolding clean_up
clean_up-zone_of h true n = rw (same_listener_self true n) refl
clean_up-zone_of true false n = rw (same_listener_self false n) refl
clean_up-zone_of false false n = refl

render-empty :
    (h g : Bool) (n : ℕ) (z : DropZone) → clean_up z ≡ empty_zone n → render h g z ≡ zone_of h g n
unfolding render form_effect document_effect
render-empty true true n z e = rw e refl
render-empty false true n z e = rw e refl
render-empty true false n z e = rw e refl
render-empty false false n z e = rw e refl

render_all-zone_of :
    (h : Bool) (gs : List Bool) (g : Bool) (n : ℕ) (z : DropZone)
    → clean_up z ≡ empty_zone n
    → render_all h (gs ++ g ∷ []) z ≡ zone_of h g (length gs + n)
unfolding render_all
render_all-zone_of h [] g n z e = render-empty h g n z e ∙ ap (zone_of h g) (omega arith)
render_all-zone_of h (x ∷ gs) g n z e =
    let once = render-empty h x n z e in
    render_all-zone_of h gs g (suc n) (render h x z) (ap clean_up once ∙ clean_up-zone_of h x n)
    ∙ ap (zone_of h g) (omega arith)

clean_up-new_zone : clean_up new_zone ≡ empty_zone 0
unfolding clean_up new_zone
clean_up-new_zone = refl

drop-zone_of :
    (h g in_form has_files : Bool) (files : Option (List File)) (n : ℕ)
    → drop in_form has_files files (zone_of h g n)
      ≡ (if g || (h && in_form) then added n (handle_drop has_files files).1 else [])
unfolding drop
drop-zone_of h true true has_files files n = append-nil _
drop-zone_of h true false has_files files n = append-nil _
drop-zone_of true false true has_files files n = append-nil _
drop-zone_of true false false has_files files n = refl
drop-zone_of false false in_form has_files files n = refl

-- After any renderings, the last with `globalDrop` as `g`, a drop is added once, with the `add` of
-- the last rendering, if there are files and either `g` holds or it fell into the form; else not at
-- all. Once the prompt is removed, no listener is left.
pub drop-render_all :
    (has_form : Bool) (gs : List Bool) (g in_form has_files : Bool) (files : Option (List File))
    → let z = render_all has_form (gs ++ g ∷ []) new_zone in
      (drop in_form has_files files z ≡ (
        if g || (has_form && in_form)
        then added (length gs) (handle_drop has_files files).1
        else []))
      × ((clean_up z).listeners ≡ [])
drop-render_all has_form gs g in_form has_files files =
    let last : length gs + 0 ≡ length gs = omega arith in
    let reached = render_all-zone_of has_form gs g 0 new_zone clean_up-new_zone in
    (
      ap (drop in_form has_files files) reached
          ∙ drop-zone_of has_form g in_form has_files files (length gs + 0)
          ∙ ap
              (λ n.
                if g || (has_form && in_form) then added n (handle_drop has_files files).1 else [])
              last,
      ap (λ z. (clean_up z).listeners) reached
          ∙ ap (λ z. z.listeners) (clean_up-zone_of has_form g (length gs + 0)),
    )
