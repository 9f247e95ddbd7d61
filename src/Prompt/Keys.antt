-- ===== src/Prompt/Keys.antt =====
-- The handlers of the prompt's textarea, file input and submit button, and the screenshot
-- (tools/llama-dspark-test-ui/components/ai-elements/prompt-input.tsx). Each returns what it asks for:
-- whether the default is prevented, the files to add, the attachment to remove, a submission.
pub mod Laws
use dspark_edge.Base.{
  ℕ, Bool, true, false, not, ◌&&◌, ◌||◌, Option, none, some, List, [], ◌∷◌, ◌==◌, if◌then◌else◌,
}
use dspark_edge.Base.Text.{Text, lit, text_eq}
use dspark_edge.Prompt.Accept.{File, is_empty}
use dspark_edge.Base.Text.{is_set}
use dspark_edge.Prompt.{Attachment}

-- A key event; `prevented` is whether the handler of the owner has prevented the default.
pub record KeyPress : Type 0 where
  pub key : Text
  pub shift : Bool
  pub composing : Bool
  pub prevented : Bool

-- The form around the textarea; its submit button, if any, with whether it is disabled.
pub record Form : Type 0 where
  pub submit_button : Option Bool

pub data Wish : Type 0 where
  nothing submits : Wish
  removes : Text → Wish

pub last : List Attachment → Option Attachment
last [] = none
last (a ∷ []) = some a
last (a ∷ b ∷ rest) = last (b ∷ rest)

-- `form?.requestSubmit()`, unless the submit button is disabled.
abbrev pub request_submit : Option Form → Wish
request_submit none = nothing
request_submit (some form) = elim form.submit_button [
  | none ↦ submits
  | some disabled ↦ if disabled then nothing else submits
]

abbrev pub remove_last : Option Attachment → Bool × Wish
remove_last none = (false, nothing)
remove_last (some a) = (true, removes a.id)

-- `handleKeyDown`, with the state `isComposing`, the textarea's value and the attachments.
pub handle_key :
    KeyPress → (is_composing : Bool) → (value : Text) → Option Form → List Attachment → Bool × Wish
handle_key e is_composing value form items =
    if e.prevented
    then (true, nothing)
    else if text_eq e.key (lit "Enter")
    then (if is_composing || e.composing
        then (false, nothing)
        else if e.shift
        then (false, nothing)
        else (true, request_submit form))
    else if text_eq e.key (lit "Backspace") && not (is_set value)
    then remove_last (last items)
    else (false, nothing)

-- An item of the clipboard: a file, which `getAsFile` may not give, or something else.
pub data ClipItem : Type 0 where
  clip_file : Option File → ClipItem
  clip_other : ClipItem

pub pasted_files : List ClipItem → List File
pasted_files [] = []
pasted_files (clip_file none ∷ rest) = pasted_files rest
pasted_files (clip_file (some f) ∷ rest) = f ∷ pasted_files rest
pasted_files (clip_other ∷ rest) = pasted_files rest

-- `handlePaste`
pub handle_paste : Option (List ClipItem) → Bool × List File
handle_paste none = (false, [])
handle_paste (some items) = let files = pasted_files items in (not (is_empty files), files)

-- `handleChange` of the hidden file input, which then empties the input.
pub handle_change : Option (List File) → List File
handle_change none = []
handle_change (some files) = files

-- `onDrop`, on what a drag carries.
pub handle_drop : (has_files : Bool) → Option (List File) → Bool × List File
handle_drop has_files none = (has_files, [])
handle_drop has_files (some files) = (has_files, files)

pub data ChatStatus : Type 0 where
  ready submitted streaming failed : ChatStatus

abbrev pub is_generating : ChatStatus → Bool
is_generating submitted = true
is_generating streaming = true
is_generating _ = false

pub data Icon : Type 0 where
  return_arrow spinner square cross : Icon

-- `PromptInputSubmit` as it is shown: its icon, its label, and whether its type is `submit`.
pub record SubmitButton : Type 0 where
  pub icon : Icon
  pub label : Text
  pub is_submit : Bool

abbrev pub icon_of : ChatStatus → Icon
icon_of ready = return_arrow
icon_of submitted = spinner
icon_of streaming = square
icon_of failed = cross

pub submit_button_view : ChatStatus → (has_on_stop : Bool) → SubmitButton
submit_button_view s has_on_stop = record {
  icon = icon_of s;
  label = if is_generating s then lit "Stop" else lit "Submit";
  is_submit = not (is_generating s && has_on_stop);
}

-- What a click on `PromptInputSubmit` does: whether `onStop` is called, whether `onClick` is called,
-- and whether the browser then submits the form, which it does for the type `submit`.
pub record Click : Type 0 where
  pub stops : Bool
  pub calls_on_click : Bool
  pub submits_form : Bool

pub click_submit : ChatStatus → (has_on_stop has_on_click : Bool) → Click
click_submit s has_on_stop has_on_click =
    if is_generating s && has_on_stop
    then record {
      stops = true;
      calls_on_click = false;
      submits_form = (submit_button_view s has_on_stop).is_submit;
    }
    else record {
      stops = false;
      calls_on_click = has_on_click;
      submits_form = (submit_button_view s has_on_stop).is_submit;
    }

-- What the browser gives a screenshot: whether screens can be captured at all, the tracks of the
-- stream or the error of the request, whether its first picture loads, the error if it does not play,
-- its size, a drawing context, the picture's size, and the file's name by the time. An error is given
-- by its name.
pub record Screen : Type 0 where
  pub available : Bool
  pub granted : Option (List ℕ)
  pub denial : Text
  pub loads : Bool
  pub play_error : Option Text
  pub width : ℕ
  pub height : ℕ
  pub has_context : Bool
  pub picture : Option ℕ
  pub name : Text

pub data Captured : Type 0 where
  no_shot : Captured
  shot : File → Captured
  threw : Text → Captured

abbrev pub pictured : Text → Option ℕ → Captured
pictured name none = no_shot
pictured name (some size) = shot (record { name = name; media = lit "image/png"; size = size })

abbrev pub draw_playing : Screen → Option Text → Captured
draw_playing s (some err) = threw err
draw_playing s none =
    if s.width == 0 || s.height == 0
    then no_shot
    else if s.has_context
    then pictured s.name s.picture
    else no_shot

-- The `try` once the stream is there.
unfoldable pub draw : Screen → Captured
draw s = if s.loads then draw_playing s s.play_error else threw (lit "Error")

abbrev pub from_stream : Screen → Option (List ℕ) → Captured × List ℕ
from_stream s none = (threw s.denial, [])
from_stream s (some tracks) = (draw s, tracks)

-- `captureScreenshot`: its result, and the tracks that its `finally` stops.
unfoldable pub capture_screenshot : Screen → Captured × List ℕ
capture_screenshot s = if s.available then from_stream s s.granted else (no_shot, [])

abbrev pub is_denial : Text → Bool
is_denial name = text_eq name (lit "NotAllowedError") || text_eq name (lit "AbortError")

abbrev pub after_capture : Captured → List File × Option Text
after_capture no_shot = ([], none)
after_capture (shot f) = (f ∷ [], none)
after_capture (threw name) = ([], if is_denial name then none else some name)

-- `handleSelect` of the screenshot's menu item: the files that it adds, and the error that it throws
-- on; `prevented` is whether the owner's handler has prevented it.
unfoldable pub select_screenshot : (prevented : Bool) → Screen → List File × Option Text
select_screenshot prevented s =
    if prevented then ([], none) else after_capture (capture_screenshot s).0
