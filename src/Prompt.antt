-- ===== src/Prompt.antt =====
-- The prompt's attachments, sources and text
-- (tools/llama-dspark-test-ui/components/ai-elements/prompt-input.tsx). With a provider around it the
-- prompt uses the provider's attachments and text, without one its own.
pub mod Accept
pub mod Edits
pub mod Revoking
pub mod Owned
pub mod Limited
pub mod Keys
pub mod Drop
mod Tests
use dspark_edge.Base.{
  ℕ, suc, ◌+◌, Bool, true, false, not, Option, none, some, List, [], ◌∷◌, ◌++◌, map, keep, find,
  length, if◌then◌else◌,
}
use dspark_edge.Base.Text.{Text, lit, text_eq, starts_with}
use dspark_edge.Prompt.Accept.{
  File, Limits, PromptError, too_many, rejects, passes, Checked, check, capacity, capped, exceeds,
}
use dspark_edge.Base.Text.{is_set}

-- What `nanoid()` and `URL.createObjectURL` return, by the count of the calls before.
pub record Makers : Type 0 where
  pub nanoid : ℕ → Text
  pub object_url : ℕ → Text

pub record Attachment : Type 0 where
  pub id : Text
  pub filename : Text
  pub media_type : Text
  pub url : Text

-- A referenced source; what it holds beside the id is the SDK's.
pub record Source (S : Type 0) : Type 0 where
  pub id : Text
  pub part : S

-- `live` are the object URLs that were created and not revoked, `made` counts the calls of the
-- makers, and `errors` are the calls of `onError`.
pub record Prompt (S : Type 0) : Type 0 where
  pub items : List Attachment
  pub sources : List (Source S)
  pub text : Text
  pub live : List Text
  pub made : ℕ
  pub errors : List PromptError

abbrev pub attach : Makers → ℕ → File → Attachment
attach h n f = record {
  id = h.nanoid n;
  filename = f.name;
  media_type = f.media;
  url = h.object_url n;
}

pub attach_all : Makers → ℕ → List File → List Attachment
attach_all h n [] = []
attach_all h n (f ∷ fs) = attach h n f ∷ attach_all h (suc n) fs

-- `URL.revokeObjectURL(url)`, behind `if (url)`
abbrev pub revoke : Text → List Text → List Text
revoke url live = if is_set url then keep (λ v. not (text_eq v url)) live else live

pub revoke_all : List Attachment → List Text → List Text
revoke_all [] live = live
revoke_all (a ∷ rest) live = revoke_all rest (revoke a.url live)

abbrev pub revoke_found : Option Attachment → List Text → List Text
revoke_found none live = live
revoke_found (some a) live = revoke a.url live

abbrev pub source_all : {S : Type 0} → Makers → ℕ → List S → List (Source S)
source_all h n [] = []
source_all h n (p ∷ ps) = record { id = h.nanoid n; part = p } ∷ source_all h (suc n) ps

module _ {S : Type 0} where
  pub initial : Text → Prompt S
  initial text = record { items = []; sources = []; text = text; live = []; made = 0; errors = [] }

  abbrev pub report : PromptError → Prompt S → Prompt S
  report e s = record s { errors = s.errors ++ e ∷ [] }

  -- The loop that makes the new attachments, and the list with them at its end.
  pub append_files : Makers → List File → Prompt S → Prompt S
  append_files h fs s =
      let next = attach_all h s.made fs in
      record s {
        items = s.items ++ next;
        live = s.live ++ map (λ a. a.url) next;
        made = s.made + length fs;
      }

  -- The provider's `add`.
  abbrev pub provider_add : Makers → List File → Prompt S → Prompt S
  provider_add h [] s = s
  provider_add h (f ∷ fs) s = append_files h (f ∷ fs) s

  abbrev pub report_over : Option ℕ → List File → Prompt S → Prompt S
  report_over cap fs s = if exceeds cap fs then report too_many s else s

  abbrev pub add_checked : Makers → Limits → Checked → Prompt S → Prompt S
  add_checked h l (rejects e) s = report e s
  add_checked h l (passes fs) s =
      let cap = capacity l.max_files (length s.items) in
      append_files h (capped cap fs) (report_over cap fs s)

  -- `addLocal`
  pub add_local : Makers → Limits → List File → Prompt S → Prompt S
  add_local h l incoming s = add_checked h l (check l incoming) s

  abbrev pub add_seen : Makers → Limits → ℕ → Checked → Prompt S → Prompt S
  add_seen h l seen (rejects e) s = report e s
  add_seen h l seen (passes fs) s =
      let cap = capacity l.max_files seen in provider_add h (capped cap fs) (report_over cap fs s)

  -- `addWithProviderValidation`: `seen` is the number of attachments of the last render.
  pub add_with_provider : Makers → Limits → ℕ → List File → Prompt S → Prompt S
  add_with_provider h l seen incoming s = add_seen h l seen (check l incoming) s

  -- `removeLocal`, and the provider's `remove`.
  pub remove : Text → Prompt S → Prompt S
  remove id s = record s {
    items = keep (λ a. not (text_eq a.id id)) s.items;
    live = revoke_found (find (λ a. text_eq a.id id) s.items) s.live;
  }

  -- `clearAttachments`, and the provider's `clear`.
  pub clear_attachments : Prompt S → Prompt S
  clear_attachments s = record s { items = []; live = revoke_all s.items s.live }

  -- The cleanup when the owner of the attachments is unmounted.
  pub unmount : Prompt S → Prompt S
  unmount s = record s { live = revoke_all s.items s.live }

  pub add_sources : Makers → List S → Prompt S → Prompt S
  add_sources h parts s = record s {
    sources = s.sources ++ source_all h s.made parts;
    made = s.made + length parts;
  }

  pub remove_source : Text → Prompt S → Prompt S
  remove_source id s = record s { sources = keep (λ x. not (text_eq x.id id)) s.sources }

  pub clear_sources : Prompt S → Prompt S
  clear_sources s = record s { sources = [] }

  -- `clear`
  abbrev pub clear : Prompt S → Prompt S
  clear s = clear_sources (clear_attachments s)

  -- `setInput`, and typing into the form.
  pub set_text : Text → Prompt S → Prompt S
  set_text text s = record s { text = text }

-- A file of a message, as it is handed to `onSubmit`.
pub record FilePart : Type 0 where
  pub filename : Text
  pub media_type : Text
  pub url : Text

pub record Message : Type 0 where
  pub text : Text
  pub files : List FilePart

abbrev pub or_url : Option Text → Text → Text
or_url none url = url
or_url (some data_url) url = data_url

-- One file of the message; `data_url` is what reading a blob URL gives, if that works.
abbrev pub converted : (Text → Option Text) → Attachment → FilePart
converted data_url a = record {
  filename = a.filename;
  media_type = a.media_type;
  url = if starts_with (lit "blob:") a.url then or_url (data_url a.url) a.url else a.url;
}

-- How `onSubmit` ends: it throws, its promise is rejected, it returns, or its promise is resolved.
pub data Ending : Type 0 where
  throws rejected returns resolved : Ending

module _ {S : Type 0} where
  -- `handleSubmit` up to the call of `onSubmit`: the message, and the form reset if it is the
  -- prompt's own.
  pub submit_begin : (provided : Bool) → (Text → Option Text) → Prompt S → Message × Prompt S
  submit_begin provided data_url s = (
    record { text = s.text; files = map (converted data_url) s.items },
    if provided then s else record s { text = [] },
  )

  abbrev pub clear_submitted : (provided : Bool) → Prompt S → Prompt S
  clear_submitted provided s = if provided then record (clear s) { text = [] } else clear s

  -- The rest of `handleSubmit`.
  pub submit_end : (provided : Bool) → Ending → Prompt S → Prompt S
  submit_end provided throws s = s
  submit_end provided rejected s = s
  submit_end provided returns s = clear_submitted provided s
  submit_end provided resolved s = clear_submitted provided s
