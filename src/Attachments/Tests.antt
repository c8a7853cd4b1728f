-- ===== src/Attachments/Tests.antt =====
-- Attachments on concrete inputs.
use prism_harness_py.Prelude.{false, [], ◌∷◌, ◌≡◌, refl}
use prism_harness_py.Value.{field, str, obj, end}
use prism_harness_py.Errors.{value_error}
use prism_harness_py.Python.{Python, not_ascii}
use prism_harness_py.Result.{err}
use prism_harness_py.Attachments.{Attachment, admit_attachments, admit}

abbrev python : Python
python = record { show = λ v. ""; json = λ v. ""; b64decode = λ s. not_ascii }

abbrev image : Attachment
image = record {
  type_name = "dict";
  is_media = false;
  is_url = false;
  is_file = false;
  serialized = obj (field "kind" (str "image") (field "base64" (str "é") end));
}

-- A text that is not ASCII is refused with none of the four codes.
not_a_code :
    admit_attachments ⦃py = python⦄ "Look" (image ∷ [])
    ≡ err (value_error "string argument should contain only ASCII characters")
unfolding admit_attachments admit
not_a_code = refl
