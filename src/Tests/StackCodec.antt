-- ===== src/Tests/StackCodec.antt =====
-- An encoder of JSON values into instructions for a stack, and the decoder that runs them: a codec
-- that satisfies what the development assumes of `json.dumps` and `json.loads`.
use vegapunk_web.Base.{
  ℕ, zero, suc, true, false, Option, none, some, List, [], ◌∷◌, ◌≡◌, refl, ap, ◌∙◌, eqb,
}
use vegapunk_web.Text.{Text}
use vegapunk_web.Json.{
  Json, Items, Fields, null, bool, num, real, str, arr, obj, nil, cons, end, field, Codec, IsCodec,
}

pub data Cell : Type 0 where
  value : Json → Cell
  items : Items → Cell
  fields : Fields → Cell
  text : Text → Cell

-- One instruction, with its argument.
step : ℕ → ℕ → List Cell → Option (List Cell)
step zero a st = some (value null ∷ st)
step (suc zero) a st = some (value (bool (eqb a 1)) ∷ st)
step (suc (suc zero)) a st = some (value (num a) ∷ st)
step (suc (suc (suc zero))) a (text t ∷ st) = some (value (real t) ∷ st)
step (suc (suc (suc (suc zero)))) a (text t ∷ st) = some (value (str t) ∷ st)
step (suc (suc (suc (suc (suc zero))))) a (items xs ∷ st) = some (value (arr xs) ∷ st)
step (suc (suc (suc (suc (suc (suc zero)))))) a (fields fs ∷ st) = some (value (obj fs) ∷ st)
step (suc (suc (suc (suc (suc (suc (suc zero))))))) a st = some (text [] ∷ st)
step (suc (suc (suc (suc (suc (suc (suc (suc zero)))))))) a (text t ∷ st) = some (text (a ∷ t) ∷ st)
step (suc (suc (suc (suc (suc (suc (suc (suc (suc zero))))))))) a st = some (items nil ∷ st)
step (suc (suc (suc (suc (suc (suc (suc (suc (suc (suc zero)))))))))) a (value x ∷ items xs ∷ st) =
    some (items (cons x xs) ∷ st)
step (suc (suc (suc (suc (suc (suc (suc (suc (suc (suc (suc zero))))))))))) a st =
    some (fields end ∷ st)
step (suc (suc (suc (suc (suc (suc (suc (suc (suc (suc (suc (suc zero)))))))))))) a
      (text k ∷ value v ∷ fields fs ∷ st) =
    some (fields (field k v fs) ∷ st)
step _ a st = none

run : List Cell → Text → Option (List Cell)
run st [] = some st
run st (op ∷ []) = none
run st (op ∷ a ∷ r) = elim (step op a st) [ none ↦ none | some st' ↦ run st' r ]

put_text : Text → Text → Text
put_text [] r = 7 ∷ 0 ∷ r
put_text (c ∷ s) r = put_text s (8 ∷ c ∷ r)

mutual
  unfolding put_text

  put_json : Json → Text → Text
  put_json null r = 0 ∷ 0 ∷ r
  put_json (bool true) r = 1 ∷ 1 ∷ r
  put_json (bool false) r = 1 ∷ 0 ∷ r
  put_json (num n) r = 2 ∷ n ∷ r
  put_json (real t) r = put_text t (3 ∷ 0 ∷ r)
  put_json (str t) r = put_text t (4 ∷ 0 ∷ r)
  put_json (arr xs) r = put_items xs (5 ∷ 0 ∷ r)
  put_json (obj fs) r = put_fields fs (6 ∷ 0 ∷ r)

  put_items : Items → Text → Text
  put_items nil r = 9 ∷ 0 ∷ r
  put_items (cons x xs) r = put_items xs (put_json x (10 ∷ 0 ∷ r))

  put_fields : Fields → Text → Text
  put_fields end r = 11 ∷ 0 ∷ r
  put_fields (field k v fs) r = put_fields fs (put_json v (put_text k (12 ∷ 0 ∷ r)))

run-put_text : (s : Text) (st : List Cell) (r : Text) → run st (put_text s r) ≡ run (text s ∷ st) r
unfolding run step put_text
run-put_text [] st r = refl
run-put_text (c ∷ s) st r = run-put_text s st (8 ∷ c ∷ r)

mutual
  unfolding run step put_json put_items put_fields

  run-put_json :
      (v : Json) (st : List Cell) (r : Text) → run st (put_json v r) ≡ run (value v ∷ st) r
  run-put_json null st r = refl
  run-put_json (bool true) st r = refl
  run-put_json (bool false) st r = refl
  run-put_json (num n) st r = refl
  run-put_json (real t) st r = run-put_text t st (3 ∷ 0 ∷ r)
  run-put_json (str t) st r = run-put_text t st (4 ∷ 0 ∷ r)
  run-put_json (arr xs) st r = run-put_items xs st (5 ∷ 0 ∷ r)
  run-put_json (obj fs) st r = run-put_fields fs st (6 ∷ 0 ∷ r)

  run-put_items :
      (xs : Items) (st : List Cell) (r : Text) → run st (put_items xs r) ≡ run (items xs ∷ st) r
  run-put_items nil st r = refl
  run-put_items (cons x xs) st r =
      run-put_items xs st (put_json x (10 ∷ 0 ∷ r)) ∙ run-put_json x (items xs ∷ st) (10 ∷ 0 ∷ r)

  run-put_fields :
      (fs : Fields) (st : List Cell) (r : Text) → run st (put_fields fs r) ≡ run (fields fs ∷ st) r
  run-put_fields end st r = refl
  run-put_fields (field k v fs) st r =
      run-put_fields fs st (put_json v (put_text k (12 ∷ 0 ∷ r)))
      ∙ run-put_json v (fields fs ∷ st) (put_text k (12 ∷ 0 ∷ r))
      ∙ run-put_text k (value v ∷ fields fs ∷ st) (12 ∷ 0 ∷ r)

top_value : Option (List Cell) → Option Json
top_value (some (value v ∷ [])) = some v
top_value _ = none

unfoldable pub loads : Text → Option Json
unfolding run step top_value
loads t = top_value (run [] t)

unfoldable pub dumps : Json → Text
unfolding put_json put_items put_fields
dumps v = put_json v []

abbrev pub stack_codec : Codec
stack_codec = record { dumps = dumps; loads = loads }

pub stack_codec-IsCodec : IsCodec stack_codec
unfolding loads dumps
stack_codec-IsCodec = record { loads-dumps = λ v. ap top_value (run-put_json v [] []) }
