-- ===== src/Attachments.antt =====
-- src/prism_harness/attachments.py: which media a turn will carry.
use prism_harness_py.Prelude.{
  ℕ, String, Bool, true, false, not, ◌||◌, ◌&&◌, Option, none, some, List, [], ◌∷◌, ◌+◌,
  if◌then◌else◌, str_eq, ltb,
}
use Prim.Native.String.{◌++◌}
use prism_harness_py.Value.{Value, str, arr, obj, Items, nil, cons, Fields, get}
use prism_harness_py.Errors.{Error, harness, HarnessError, value_error, type_error}
use prism_harness_py.Python.{Python, Decoded, bytes, binascii_error, not_ascii}
use prism_harness_py.Result.{Result, ok, err, ◌>>=◌, ◌>>◌}
mod Tests

-- An attachment as the code asks it: whether it is an object with `to_dict`, with what its `is_url` and
-- `is_file` answer, its serialized form, and the name of its type.
pub record Attachment : Type 0 where
  pub type_name : String
  pub is_media : Bool
  pub is_url : Bool
  pub is_file : Bool
  pub serialized : Value

abbrev refuse_if : Bool → HarnessError → Result (Unit {0})
refuse_if c e = if c then err (harness e) else ok tt

abbrev pub is_text : Option Value → Bool
is_text (some (str s)) = true
is_text _ = false

-- `_non_empty_string`
abbrev non_empty_string : Option Value → Bool
non_empty_string (some (str s)) = not (str_eq s "")
non_empty_string _ = false

abbrev decoded_some : Decoded → Result Bool
decoded_some (bytes n) = ok (ltb 0 n)
decoded_some binascii_error = ok false
decoded_some not_ascii = err (value_error "string argument should contain only ASCII characters")

-- `_carries_bytes`. A text that is not ASCII raises what the source does not catch.
unfoldable pub carries_bytes : ⦃py : Python⦄ → Option Value → Result Bool
carries_bytes ⦃py⦄ (some (str s)) = decoded_some (py.b64decode (s ++ "=="))
carries_bytes _ = ok false

-- `data.get("kind") in _MEDIA_KINDS`: a list or a dict has no hash.
abbrev pub is_media_kind : Option Value → Result Bool
is_media_kind (some (str k)) =
    ok (str_eq k "image" || str_eq k "audio" || str_eq k "video" || str_eq k "document")
is_media_kind (some (arr _)) = err (type_error "unhashable type")
is_media_kind (some (obj _)) = err (type_error "unhashable type")
is_media_kind _ = ok false

abbrev is_document : Option Value → Bool
is_document (some (str k)) = str_eq k "document"
is_document _ = false

abbrev has_items : Option Value → Bool
has_items (some (arr (cons _ _))) = true
has_items _ = false

abbrev dict_or_refuse : ℕ → (type_name : String) → Value → Result Fields
dict_or_refuse index type_name (obj media) = ok media
dict_or_refuse index type_name _ =
    err (harness (HarnessError.attachment_not_media index ("a " ++ type_name)))

-- One pass of the loop.
unfoldable pub admit : ⦃py : Python⦄ → ℕ → Attachment → Result Fields
unfolding carries_bytes
admit index a = do
  refuse_if (a.is_media && a.is_url) (HarnessError.attachment_by_reference index "a URL")
  refuse_if (a.is_media && a.is_file) (HarnessError.attachment_by_reference index "a file path")
  media ← dict_or_refuse index a.type_name a.serialized
  known ← is_media_kind (get "kind" media)
  refuse_if (not known) (
      HarnessError.attachment_not_media index
        "an object with no image, document, audio or video kind")
  refuse_if (is_text (get "url" media)) (HarnessError.attachment_by_reference index "a URL")
  refuse_if (is_text (get "local_path" media) || is_text (get "storage_path" media))
      (HarnessError.attachment_by_reference index "a file path")
  carried ← carries_bytes (get "base64" media)
  refuse_if
      (not (
        carried
        || non_empty_string (get "file_id" media)
        || (is_document (get "kind" media) && has_items (get "chunks" media))))
      (HarnessError.attachment_empty index)
  ok media

unfoldable pub admit_from : ⦃py : Python⦄ → ℕ → List Attachment → Result (List Fields)
unfolding admit
admit_from index [] = ok []
admit_from index (a ∷ attachments) = do
  first ← admit index a
  rest ← admit_from (index + 1) attachments
  ok (first ∷ rest)

-- `admit_attachments`
unfoldable pub admit_attachments :
    ⦃py : Python⦄ → (prompt : String) → List Attachment → Result (List Fields)
unfolding admit_from
admit_attachments prompt [] = ok []
admit_attachments prompt (a ∷ attachments) =
    if str_eq prompt ""
    then err (harness HarnessError.attachment_without_prompt)
    else admit_from 0 (a ∷ attachments)
