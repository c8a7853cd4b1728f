-- ===== src/AddressIndex/Keys.antt =====
-- The three keys that an append writes are three.
use prism_harness_py.Prelude.{ℕ, String, ◌≡◌, ◌≢◌, refl, ap, arith}
use Prim.Native.String.{◌∷◌, ◌++◌}
use Prim.Native.Char.{Char, code}
use text.Mathlib.TextLemmas.{append_cancel_left, cons-append}
use prism_harness_py.Prelude.Int.{pos}
use prism_harness_py.Value.{int}
use prism_harness_py.Python.{Python}
use prism_harness_py.AddressIndex.Head.{head_key, entry_key, page_key}

-- The letter after a key's colon.
abbrev kind_code : String → ℕ
kind_code (_ ∷ (c ∷ s)) = code c
kind_code _ = 0

kind_code-append : (a b : Char) (s t : String) → kind_code ((a ∷ (b ∷ s)) ++ t) ≡ code b
kind_code-append a b s t = rw (cons-append a (b ∷ s) t, cons-append b s t) refl

pub head-ne-entry : (root hash : String) → head_key root ≢ entry_key root hash
head-ne-entry root hash h =
    let e = ap kind_code (append_cancel_left root ":head" (":entry:" ++ hash) h) in
    omega (arith, e, kind_code-append ":" "e" "ntry:" hash)

pub head-ne-page : ⦃py : Python⦄ (root : String) (n : ℕ) → head_key root ≢ page_key root n
head-ne-page ⦃py⦄ root n h =
    let number = py.show (int (pos n)) in
    let e = ap kind_code (append_cancel_left root ":head" (":page:" ++ number) h) in
    omega (arith, e, kind_code-append ":" "p" "age:" number)

pub page-ne-entry :
    ⦃py : Python⦄ (root : String) (n : ℕ) (hash : String) → page_key root n ≢ entry_key root hash
page-ne-entry ⦃py⦄ root n hash h =
    let number = py.show (int (pos n)) in
    let e = ap kind_code (append_cancel_left root (":page:" ++ number) (":entry:" ++ hash) h) in
    omega (arith, e, kind_code-append ":" "p" "age:" number, kind_code-append ":" "e" "ntry:" hash)
