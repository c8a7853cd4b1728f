-- ===== src/Python.antt =====
-- What the harness uses of the Python runtime itself.
use prism_harness_py.Prelude.{ℕ, String}
use prism_harness_py.Value.{Value, str}

-- What `base64.b64decode(text, validate=False)` does: a number of bytes, a `binascii.Error`, or the plain
-- `ValueError` of a text that is not ASCII.
pub data Decoded : Type 0 where
  bytes : (length : ℕ) → Decoded
  binascii_error not_ascii : Decoded

-- `show` is `str(value)` for a value that is no text, `json` is `json.dumps(value)`.
pub record Python : Type 0 where
  pub show : Value → String
  pub json : Value → String
  pub b64decode : String → Decoded

-- `str(value)`
abbrev pub text : ⦃py : Python⦄ → Value → String
text (str s) = s
text ⦃py⦄ v = py.show v
