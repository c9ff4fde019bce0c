-- ===== src/Distill/Repaired.antt =====
-- What extract_json_array of app/routes/distill.py hands to the decoder for an array that an LLM wrote
-- with raw line breaks and tabs in its strings.
use vegapunk_web.Base.{
  ℕ, ◌+◌, ◌-◌, ◌<◌, Bool, true, false, some, List, [], ◌∷◌, ◌++◌, All, eqb, eqb_iff, ◌≡◌, refl, ap,
  ◌∙◌, arith,
}
use vegapunk_web.Text.{Text}
use vegapunk_web.Distill.{
  opens_array, find_start, Scan, escaped, scan_in_str, scan_outside, scan_char, scan, start_scan,
  array_text,
}
use vegapunk_web.Distill.Scanning.{
  scan_cons, scan_close, array_text_of_start, array_text-surrounded,
}

-- What may stand in a string: a character, a raw line break or tab, or a backslash and a character.
pub data Mark : Type 0 where
  plain : ℕ → Mark
  newline carriage tab : Mark
  escape : ℕ → Mark

-- A character outside of strings, a string, and the brackets of an array inside.
pub data Token : Type 0 where
  outside : ℕ → Token
  quoted : List Mark → Token
  opening closing : Token

abbrev pub IsMark : Mark → Type 0
IsMark (plain c) =
    (eqb c b'\\' ≡ false)
    × (eqb c b'"' ≡ false)
    × (eqb c b'\n' ≡ false)
    × (eqb c b'\r' ≡ false)
    × (eqb c b'\t' ≡ false)
IsMark m = Unit

abbrev pub IsToken : Token → Type 0
IsToken (outside c) = (eqb c b'"' ≡ false) × (eqb c b'[' ≡ false) × (eqb c b']' ≡ false)
IsToken (quoted ms) = All IsMark ms
IsToken t = Unit

-- In `depth` open arrays, the tokens close all but the outermost.
abbrev pub IsBalanced : ℕ → List Token → Type 0
IsBalanced depth [] = depth ≡ 1
IsBalanced depth (opening ∷ ts) = IsBalanced (depth + 1) ts
IsBalanced depth (closing ∷ ts) = (1 < depth) × IsBalanced (depth - 1) ts
IsBalanced depth (outside c ∷ ts) = IsBalanced depth ts
IsBalanced depth (quoted ms ∷ ts) = IsBalanced depth ts

-- A string as it was written, up to its closing quote, and the rest of the text.
abbrev pub raw_marks : List Mark → Text → Text
raw_marks [] rest = b'"' ∷ rest
raw_marks (plain c ∷ ms) rest = c ∷ raw_marks ms rest
raw_marks (newline ∷ ms) rest = b'\n' ∷ raw_marks ms rest
raw_marks (carriage ∷ ms) rest = b'\r' ∷ raw_marks ms rest
raw_marks (tab ∷ ms) rest = b'\t' ∷ raw_marks ms rest
raw_marks (escape c ∷ ms) rest = b'\\' ∷ c ∷ raw_marks ms rest

-- The same with the raw line breaks and tabs as escapes.
abbrev pub json_marks : List Mark → Text → Text
json_marks [] rest = b'"' ∷ rest
json_marks (plain c ∷ ms) rest = c ∷ json_marks ms rest
json_marks (newline ∷ ms) rest = b'\\' ∷ b'n' ∷ json_marks ms rest
json_marks (carriage ∷ ms) rest = b'\\' ∷ b'r' ∷ json_marks ms rest
json_marks (tab ∷ ms) rest = b'\\' ∷ b't' ∷ json_marks ms rest
json_marks (escape c ∷ ms) rest = b'\\' ∷ c ∷ json_marks ms rest

-- The tokens up to the bracket that closes the array, with the strings written by `f`.
abbrev pub written : (List Mark → Text → Text) → List Token → Text → Text
written f [] rest = b']' ∷ rest
written f (outside c ∷ ts) rest = c ∷ written f ts rest
written f (quoted ms ∷ ts) rest = b'"' ∷ f ms (written f ts rest)
written f (opening ∷ ts) rest = b'[' ∷ written f ts rest
written f (closing ∷ ts) rest = b']' ∷ written f ts rest

abbrev state : ℕ → Bool → Scan
state depth in_str = record { depth = depth; in_str = in_str; esc = false }

scan-raw_marks :
    (depth : ℕ) (ms : List Mark) (rest out : Text)
    → All IsMark ms
    → scan (state depth false) rest ≡ some out
    → scan (state depth true) (raw_marks ms rest) ≡ some (json_marks ms out)
unfolding scan_char scan_in_str escaped
scan-raw_marks depth [] rest out h e = scan_cons (state depth true) b'"' rest out refl e
scan-raw_marks depth (plain c ∷ ms) rest out (p, h) e =
    let later = scan-raw_marks depth ms rest out h e in
    let one : scan_char (state depth true) c ≡ (c ∷ [], state depth true) =
      rw (p.0, p.1, p.2, p.3, p.4) refl in
    scan_cons (state depth true) c (raw_marks ms rest) (json_marks ms out) refl (rw one later)
    ∙ ap (λ (r : Text × Scan). some (r.0 ++ json_marks ms out)) one
scan-raw_marks depth (newline ∷ ms) rest out (p, h) e =
    scan_cons (state depth true) b'\n' (raw_marks ms rest) (json_marks ms out) refl
      (scan-raw_marks depth ms rest out h e)
scan-raw_marks depth (carriage ∷ ms) rest out (p, h) e =
    scan_cons (state depth true) b'\r' (raw_marks ms rest) (json_marks ms out) refl
      (scan-raw_marks depth ms rest out h e)
scan-raw_marks depth (tab ∷ ms) rest out (p, h) e =
    scan_cons (state depth true) b'\t' (raw_marks ms rest) (json_marks ms out) refl
      (scan-raw_marks depth ms rest out h e)
scan-raw_marks depth (escape c ∷ ms) rest out (p, h) e =
    scan_cons (state depth true) b'\\' (c ∷ raw_marks ms rest) (c ∷ json_marks ms out) refl (
      scan_cons (record { depth = depth; in_str = true; esc = true }) c (raw_marks ms rest)
        (json_marks ms out) refl (scan-raw_marks depth ms rest out h e))

scan-written :
    (depth : ℕ) (ts : List Token) (rest : Text)
    → All IsToken ts
    → IsBalanced depth ts
    → scan (state depth false) (written raw_marks ts rest) ≡ some (written json_marks ts [])
unfolding scan_char scan_outside
scan-written depth [] rest h b = scan_close (state depth false) b']' rest ((eqb_iff depth 1).1 b)
scan-written depth (outside c ∷ ts) rest (p, h) b =
    let later = scan-written depth ts rest h b in
    let one : scan_char (state depth false) c ≡ (c ∷ [], state depth false) =
      rw (p.0, p.1, p.2) refl in
    scan_cons (state depth false) c (written raw_marks ts rest) (written json_marks ts [])
      (rw p.2 refl) (rw one later)
    ∙ ap (λ (r : Text × Scan). some (r.0 ++ written json_marks ts [])) one
scan-written depth (quoted ms ∷ ts) rest (p, h) b =
    scan_cons (state depth false) b'"' (raw_marks ms (written raw_marks ts rest))
      (json_marks ms (written json_marks ts [])) refl
      (scan-raw_marks depth ms (written raw_marks ts rest) (written json_marks ts []) p
        (scan-written depth ts rest h b))
scan-written depth (opening ∷ ts) rest (p, h) b =
    scan_cons (state depth false) b'[' (written raw_marks ts rest) (written json_marks ts []) refl
      (scan-written (depth + 1) ts rest h b)
scan-written depth (closing ∷ ts) rest (p, h) (d, b) =
    scan_cons (state depth false) b']' (written raw_marks ts rest) (written json_marks ts [])
      (ground arith) (scan-written (depth - 1) ts rest h b)

-- An array that an LLM wrote token by token, between text without `[` and any other text, is handed
-- to the decoder as it is, nested arrays, brackets in strings and escapes included, but for the raw
-- line breaks and tabs in its strings: they become escapes. The array has to start, behind spaces,
-- with a brace or its end.
pub array_text-written :
    (pre post : Text) (ts : List Token)
    → All (λ c. eqb c b'[' ≡ false) pre
    → All IsToken ts
    → IsBalanced 1 ts
    → opens_array (written raw_marks ts []) ≡ true
    → array_text (pre ++ ((b'[' ∷ written raw_marks ts []) ++ post))
      ≡ some (b'[' ∷ written json_marks ts [])
array_text-written pre post ts h k b o =
    array_text-surrounded pre (b'[' ∷ written raw_marks ts []) post
      (b'[' ∷ written json_marks ts []) h
      (array_text_of_start (b'[' ∷ written raw_marks ts []) 0 (unfold find_start in rw o refl)
        ∙ unfold scan_char in
          unfold scan_outside in
          (scan_cons start_scan b'[' (written raw_marks ts []) (written json_marks ts []) refl
            (scan-written 1 ts [] k b)))
