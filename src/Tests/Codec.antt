-- ===== src/Tests/Codec.antt =====
-- A codec for JSON values that fulfils the laws of `Serde`: the bytes are a program for a stack.
use copysync.Prelude.{
  ℕ, ◌≡◌, refl, ap, ◌∙◌, true, false, Option, none, some, List, [], ◌∷◌, ◌++◌, Text, Bytes, codes,
  ◌==◌, if◌then◌else◌,
}
use copysync.Protocol.Json.{
  Json, null, bool, num, str, arr, obj, Items, nil, cons, Fields, end, field,
}
use copysync.Protocol.{HelloOk}
use copysync.Ws.{Serde, SerdeLaws}

-- What the next byte is: an operation, a number or a character.
pub data Mode : Type 0 where
  op number char : Mode

abbrev pub text_to : Text → List Json → List Json
text_to c [] = []
text_to c (str t ∷ st) = str (c ++ t) ∷ st
text_to c (j ∷ st) = j ∷ st

abbrev pub item_to : List Json → List Json
item_to (arr l ∷ j ∷ st) = arr (cons j l) ∷ st
item_to st = st

abbrev pub field_to : List Json → List Json
field_to (obj l ∷ j ∷ str k ∷ st) = obj (field k j l) ∷ st
field_to st = st

-- One operation; any byte from 9 on announces a character.
abbrev pub step : Mode → ℕ → List Json → Mode × List Json
step number b st = (op, num b ∷ st)
step char b st = (op, text_to (b ∷ []) st)
step op b st =
    if b == 0
    then (op, null ∷ st)
    else if b == 1
    then (op, bool false ∷ st)
    else if b == 2
    then (op, bool true ∷ st)
    else if b == 3
    then (op, str [] ∷ st)
    else if b == 4
    then (op, arr nil ∷ st)
    else if b == 5
    then (op, obj end ∷ st)
    else if b == 6
    then (op, item_to st)
    else if b == 7
    then (op, field_to st)
    else if b == 8
    then (number, st)
    else (char, st)

abbrev pub eval : Mode → Bytes → List Json → List Json
eval m [] st = st
eval m (b ∷ bs) st = eval (step m b st).0 bs (step m b st).1

abbrev pub push_text : Text → Bytes → Bytes
push_text [] bs = 3 ∷ bs
push_text (c ∷ t) bs = push_text t (9 ∷ c ∷ bs)

unfoldable mutual
  pub push : Json → Bytes → Bytes
  push null bs = 0 ∷ bs
  push (bool false) bs = 1 ∷ bs
  push (bool true) bs = 2 ∷ bs
  push (num n) bs = 8 ∷ n ∷ bs
  push (str t) bs = push_text t bs
  push (arr l) bs = push_items l bs
  push (obj l) bs = push_fields l bs

  pub push_items : Items → Bytes → Bytes
  push_items nil bs = 4 ∷ bs
  push_items (cons j l) bs = push j (push_items l (6 ∷ bs))

  pub push_fields : Fields → Bytes → Bytes
  push_fields end bs = 5 ∷ bs
  push_fields (field k j l) bs = push_text k (push j (push_fields l (7 ∷ bs)))

eval-push_text :
    (t : Text) (bs : Bytes) (st : List Json) → eval op (push_text t bs) st ≡ eval op bs (str t ∷ st)
eval-push_text [] bs st = refl
eval-push_text (c ∷ t) bs st = eval-push_text t (9 ∷ c ∷ bs) st

mutual
  unfolding push push_items push_fields

  eval-push :
      (j : Json) (bs : Bytes) (st : List Json) → eval op (push j bs) st ≡ eval op bs (j ∷ st)
  eval-push null bs st = refl
  eval-push (bool false) bs st = refl
  eval-push (bool true) bs st = refl
  eval-push (num n) bs st = refl
  eval-push (str t) bs st = eval-push_text t bs st
  eval-push (arr l) bs st = eval-push_items l bs st
  eval-push (obj l) bs st = eval-push_fields l bs st

  eval-push_items :
      (l : Items) (bs : Bytes) (st : List Json)
      → eval op (push_items l bs) st ≡ eval op bs (arr l ∷ st)
  eval-push_items nil bs st = refl
  eval-push_items (cons j l) bs st =
      eval-push j (push_items l (6 ∷ bs)) st ∙ eval-push_items l (6 ∷ bs) (j ∷ st)

  eval-push_fields :
      (l : Fields) (bs : Bytes) (st : List Json)
      → eval op (push_fields l bs) st ≡ eval op bs (obj l ∷ st)
  eval-push_fields end bs st = refl
  eval-push_fields (field k j l) bs st =
      eval-push_text k (push j (push_fields l (7 ∷ bs))) st
      ∙ eval-push j (push_fields l (7 ∷ bs)) (str k ∷ st)
      ∙ eval-push_fields l (7 ∷ bs) (j ∷ str k ∷ st)

abbrev pub top : List Json → Option Json
top [] = none
top (j ∷ st) = some j

-- The leading 0 keeps the bytes from being none at all.
abbrev pub codec : HelloOk → Serde
codec h = record {
  to_vec = λ j. 0 ∷ push j [];
  from_slice = λ bs. top (eval op bs []);
  hello_ok = λ j. some h;
  hello_err = λ j. some (codes "revoked", codes "no");
}

pub codec-SerdeLaws : (h : HelloOk) → SerdeLaws (codec h)
codec-SerdeLaws h = record {
  from_slice-to_vec = λ j. ap top (eval-push j [] (null ∷ []));
  is_empty-to_vec = λ j. refl;
}
