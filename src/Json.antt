-- ===== src/Json.antt =====
-- The values of `json`, the subscripts and tests that the program makes on them, and the encoder
-- and decoder of Python as an interface.
use vegapunk_web.Base.{
  ◌||◌, ◌&&◌, eqb, ℕ, Bool, true, false, Option, none, some, List, [], ◌∷◌, ◌≡◌, is_nil, not,
  if◌then◌else◌, ◌==◌, nat_eq,
}
use vegapunk_web.Text.{Text, text_eq}

-- A number is a natural number or, for any other, its spelling.
mutual
  pub data Json : Type 0 where
    null : Json
    bool : Bool → Json
    num : ℕ → Json
    real : Text → Json
    str : Text → Json
    arr : Items → Json
    obj : Fields → Json

  pub data Items : Type 0 where
    nil : Items
    cons : Json → Items → Items

  pub data Fields : Type 0 where
    end : Fields
    field : Text → Json → Fields → Fields

abbrev pub strings : List Text → Items
strings [] = nil
strings (s ∷ ss) = cons (str s) (strings ss)

-- The keys of a dict are distinct, so the first match is the only one.
unfoldable pub get_field : Text → Fields → Option Json
get_field k end = none
get_field k (field j v fs) = if j == k then some v else get_field k fs

-- What a statement may do: return a value, or raise.
pub data Outcome {ℓ} (A : Type ℓ) : Type ℓ where
  ok : A → Outcome A
  raised : Outcome A

infixl 5 ◌>>=◌
abbrev pub ◌>>=◌ {ℓ κ} : {A : Type ℓ} {B : Type κ} → Outcome A → (A → Outcome B) → Outcome B
ok a >>= f = f a
raised >>= f = raised

abbrev pub or_raise {ℓ} : {A : Type ℓ} → Option A → Outcome A
or_raise none = raised
or_raise (some a) = ok a

-- `value[key]`: a KeyError or a TypeError is `raised`.
unfoldable pub subscript : Text → Json → Outcome Json
unfolding get_field
subscript k (obj fs) = or_raise (get_field k fs)
subscript k _ = raised

-- `value == text`
abbrev pub is_str : Json → Text → Bool
is_str (str s) t = s == t
is_str _ t = false

-- A float whose spelling has no digit but 0 before the exponent.
unfoldable pub is_zero : Text → Bool
is_zero [] = true
is_zero (c ∷ s) =
    let rest = is_zero s in
    if eqb c b'e' || eqb c b'E' then true else (eqb c b'0' || eqb c b'.' || eqb c b'-') && rest

-- `bool(value)`
abbrev pub truthy : Json → Bool
truthy null = false
truthy (bool b) = b
truthy (num n) = not (n == 0)
truthy (real s) = not (is_zero s)
truthy (str s) = not (is_nil s)
truthy (arr nil) = false
truthy (arr (cons x xs)) = true
truthy (obj end) = false
truthy (obj (field k v fs)) = true

-- `json.dumps` and `json.loads`; a ValueError is `none`.
pub record Codec : Type 0 where
  pub dumps : Json → Text
  pub loads : Text → Option Json

-- Documented: decoding what was encoded gives an equal value back.
pub record IsCodec (J : Codec) : Type 0 where
  pub loads-dumps : (v : Json) → J.loads (J.dumps v) ≡ some v
