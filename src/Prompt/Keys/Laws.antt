-- ===== src/Prompt/Keys/Laws.antt =====
-- When the prompt submits and removes, and what a screenshot is.
use dspark_edge.Base.{
  ℕ, ◌≡◌, ◌↔◌, refl, Bool, true, false, ◌||◌, Option, none, some, List, [], ◌∷◌, ◌==◌, arith,
  Bool-cases, inl, inr,
}
use dspark_edge.Base.Text.{Text, lit, text_eq, trim, trim_start, is_space, ends_with, starts_with}
use dspark_edge.Prompt.Accept.{File, matches_accept, split_commas, matches_pattern, drop_last}
use dspark_edge.Base.Text.{is_set}
use dspark_edge.Prompt.{Attachment}
use dspark_edge.Prompt.Keys.{
  KeyPress, Form, submits, removes, last, request_submit, handle_key, ChatStatus, is_generating,
  click_submit, submit_button_view, Screen, pictured, draw, draw_playing, from_stream,
  capture_screenshot, after_capture, select_screenshot,
}

-- A key submits the form exactly when it is Enter without shift and outside a composition, the
-- default was not prevented, and there is a form whose submit button is not disabled.
pub handle_key-submits :
    (e : KeyPress) (is_composing : Bool) (value : Text) (form : Option Form)
    (items : List Attachment)
    → ((handle_key e is_composing value form items).1 ≡ submits) ↔ (
        (e.prevented ≡ false)
        × (text_eq e.key (lit "Enter") ≡ true)
        × (is_composing ≡ false)
        × (e.composing ≡ false)
        × (e.shift ≡ false)
        × (request_submit form ≡ submits))
unfolding handle_key
handle_key-submits e is_composing value form items = ground arith

-- A key removes an attachment only when it is Backspace in an empty textarea, and then the last one.
pub handle_key-removes :
    (e : KeyPress) (is_composing : Bool) (value : Text) (form : Option Form)
    (items : List Attachment) (id : Text)
    → (handle_key e is_composing value form items).1 ≡ removes id
    → (text_eq e.key (lit "Backspace") ≡ true)
      × (is_set value ≡ false)
      × ((a : Attachment) × (last items ≡ some a) × (a.id ≡ id))
unfolding handle_key
handle_key-removes e is_composing value form items id h = ground arith

-- While an answer is being generated, a click on the submit button stops it without submitting the
-- form when the button has an `onStop`; without one, the form is submitted as well.
pub click_submit_generating :
    (s : ChatStatus) (has_on_click : Bool)
    → is_generating s ≡ true
    → ((click_submit s true has_on_click).stops ≡ true)
      × ((click_submit s true has_on_click).submits_form ≡ false)
      × ((click_submit s false has_on_click).calls_on_click ≡ has_on_click)
      × ((click_submit s false has_on_click).submits_form ≡ true)
unfolding click_submit submit_button_view
click_submit_generating s has_on_click h = ground arith

-- The list holds at most one file, and that is a PNG picture.
abbrev IsShot : List File → Type 0
IsShot [] = Unit
IsShot (f ∷ []) = f.media ≡ lit "image/png"
IsShot (f ∷ g ∷ fs) = ⊥

draw-IsShot : (s : Screen) → IsShot (after_capture (draw s)).0
unfolding draw
draw-IsShot s = elim (Bool-cases s.loads) [ inl b ↦ rw b (playing s.play_error) | inr b ↦ rw b tt ]
  where
    picture : (o : Option ℕ) → IsShot (after_capture (pictured s.name o)).0
    picture none = tt
    picture (some size) = refl

    playing : (o : Option Text) → IsShot (after_capture (draw_playing s o)).0
    playing (some err) = tt
    playing none = elim (Bool-cases (s.width == 0 || s.height == 0)) [
      | inl b ↦ rw b tt
      | inr b ↦ elim (Bool-cases s.has_context) [
        | inl c ↦ rw (b, c) (picture s.picture)
        | inr c ↦ rw (b, c) tt
      ]
    ]

stream-IsShot : (s : Screen) (o : Option (List ℕ)) → IsShot (after_capture (from_stream s o).0).0
stream-IsShot s none = tt
stream-IsShot s (some tracks) = draw-IsShot s

select-IsShot : (prevented : Bool) (s : Screen) → IsShot (select_screenshot prevented s).0
unfolding select_screenshot capture_screenshot draw
select-IsShot true s = tt
select-IsShot false s = elim (Bool-cases s.available) [
  | inl b ↦ rw b (stream-IsShot s s.granted)
  | inr b ↦ rw b tt
]

shot-accepted :
    (fs rest : List File) (f : File)
    → fs ≡ f ∷ rest
    → IsShot fs
    → matches_accept (some (lit "image/*")) f ≡ true
unfolding lit split_commas matches_pattern trim trim_start is_space ends_with starts_with drop_last
shot-accepted [] rest f e i = cc
shot-accepted (g ∷ []) rest f e i = let same : f.media ≡ lit "image/png" = cc (e, i) in rw same refl
shot-accepted (g ∷ k ∷ fs) rest f e i = absurd i

-- A screenshot that is added is always accepted by a prompt that takes images.
pub select_screenshot-matches_accept :
    (prevented : Bool) (s : Screen) (f : File) (rest : List File)
    → (select_screenshot prevented s).0 ≡ f ∷ rest
    → matches_accept (some (lit "image/*")) f ≡ true
select_screenshot-matches_accept prevented s f rest e =
    shot-accepted (select_screenshot prevented s).0 rest f e (select-IsShot prevented s)
