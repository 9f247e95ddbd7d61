-- ===== src/Prompt/Tests.antt =====
-- The theorems on the prompt at concrete edits.
use dspark_edge.Base.{ℕ, ◌≡◌, refl, true, false, none, some, List, [], ◌∷◌, ◌≤◌, length}
use dspark_edge.Base.Text.{Text, lit}
use dspark_edge.Prompt.Accept.{File, Limits}
use dspark_edge.Prompt.{Makers, Attachment, Prompt, initial, unmount}
use dspark_edge.Prompt.Edits.{Edit, adds, removes, types, edit_all}
use dspark_edge.Prompt.Revoking.{urls, AreFresh}
use dspark_edge.Prompt.Owned.{live-edit_all}
use dspark_edge.Prompt.Limited.{length-edit_all}
use dspark_edge.Prompt.Keys.{KeyPress, Form, removes, Screen}

abbrev sample_makers : Makers
sample_makers = record { nanoid = λ n. n ∷ []; object_url = λ n. n ∷ [] }

head_eq : (i j : ℕ) (s t : Text) → i ∷ s ≡ j ∷ t → i ≡ j
head_eq i j s t e = cc e

sample_makers-AreFresh : AreFresh sample_makers
sample_makers-AreFresh = record {
  ids = λ i j e. head_eq i j [] [] e;
  urls = λ i j e. head_eq i j [] [] e;
  set = λ i. refl;
}

abbrev sample_file : File
sample_file = record { name = 102 ∷ []; media = lit "image/png"; size = 5 }

abbrev sample_limits : Limits
sample_limits = record { accept = none; max_files = some 1; max_file_size = none }

abbrev sample_edits : List (Edit ℕ)
sample_edits = adds (sample_file ∷ sample_file ∷ []) ∷ removes (0 ∷ []) ∷ types (104 ∷ []) ∷ []

abbrev sample_prompt : Prompt ℕ
sample_prompt = initial (104 ∷ [])

live-edit_all_example :
    let s = edit_all sample_makers sample_limits sample_edits (initial []) in
    (s.live ≡ urls s.items) × ((unmount s).live ≡ [])
live-edit_all_example =
    live-edit_all sample_makers sample_makers-AreFresh sample_limits sample_edits []

length-edit_all_example :
    length (edit_all sample_makers sample_limits sample_edits (initial [])).items ≤ 1
length-edit_all_example =
    length-edit_all sample_makers sample_limits 1 sample_edits [] refl (tt, (tt, (tt, tt)))

abbrev enter_key : KeyPress
enter_key = record { key = lit "Enter"; shift = false; composing = false; prevented = false }

abbrev backspace_key : KeyPress
backspace_key = record {
  key = lit "Backspace";
  shift = false;
  composing = false;
  prevented = false;
}

abbrev sample_form : Form
sample_form = record { submit_button = some false }

abbrev sample_attachment : Attachment
sample_attachment = record { id = 7 ∷ []; filename = []; media_type = []; url = 7 ∷ [] }

abbrev sample_screen : Screen
sample_screen = record {
  available = true;
  granted = some (1 ∷ []);
  denial = [];
  loads = true;
  play_error = none;
  width = 640;
  height = 480;
  has_context = true;
  picture = some 9;
  name = 115 ∷ [];
}

abbrev sample_shot : File
sample_shot = record { name = 115 ∷ []; media = lit "image/png"; size = 9 }
