-- ===== src/Codec/Tests.antt =====
-- A codec that meets the interface, to show that its laws can hold: a document is written in prefix
-- form, and read from its end with a stack.
use iot_ephemeral_value_stor.Base.{
  ℕ, zero, suc, ◌≡◌, refl, sym, ap, ◌∙◌, ◌≢◌, true, Option, none, some, List, [], ◌∷◌, Text, split,
  All, Result, ok, err, inl, json_error, arith,
}
use mathlib.Core.Option.{some-injective}
use iot_ephemeral_value_stor.Json.{
  Value, Fields, Items, null, bool, number, str, arr, obj, end, field, nil, cons,
}
use iot_ephemeral_value_stor.Json.Sorted.{IsSorted}
use iot_ephemeral_value_stor.Codec.{Codec, IsPlain, ArePlain, max_nested}

pub data Part : Type 0 where
  text_part : Text → Part
  value_part : Value → Part
  fields_part : Fields → Part

-- 0 begins a text at its end, 1 makes a string, 2 the empty map, 3 an entry and 4 a nested map;
-- any other number is a byte and 5.
write_text : Text → Text → Text
write_text [] rest = 0 ∷ rest
write_text (c ∷ t) rest = suc (suc (suc (suc (suc c)))) ∷ write_text t rest

mutual
  write_value : Value → Text → Text
  write_value (str t) rest = 1 ∷ write_text t rest
  write_value (obj m) rest = 4 ∷ write_fields m rest
  write_value null rest = rest
  write_value (bool b) rest = rest
  write_value (number t) rest = rest
  write_value (arr xs) rest = write_items xs rest

  write_items : Items → Text → Text
  write_items nil rest = rest
  write_items (cons v xs) rest = rest

  write_fields : Fields → Text → Text
  write_fields end rest = 2 ∷ rest
  write_fields (field k v m) rest = 3 ∷ write_text k (write_value v (write_fields m rest))

push_part : ℕ → List Part → List Part
push_part zero stack = text_part [] ∷ stack
push_part (suc zero) (text_part t ∷ stack) = value_part (str t) ∷ stack
push_part (suc (suc zero)) stack = fields_part end ∷ stack
push_part (suc (suc (suc zero))) (text_part k ∷ value_part v ∷ fields_part m ∷ stack) =
    fields_part (field k v m) ∷ stack
push_part (suc (suc (suc (suc zero)))) (fields_part m ∷ stack) = value_part (obj m) ∷ stack
push_part (suc (suc (suc (suc (suc c))))) (text_part t ∷ stack) = text_part (c ∷ t) ∷ stack
push_part _ stack = stack

pub read_parts : Text → List Part
read_parts [] = []
read_parts (c ∷ t) = push_part c (read_parts t)

read_parts-write_text :
    (t rest : Text) → read_parts (write_text t rest) ≡ text_part t ∷ read_parts rest
unfolding read_parts write_text push_part
read_parts-write_text [] rest = refl
read_parts-write_text (c ∷ t) rest = rw (read_parts-write_text t rest)

mutual
  unfolding read_parts write_value push_part

  read_parts-write_value :
      (n : ℕ) (v : Value) (rest : Text)
      → IsPlain (λ t. true) n v
      → read_parts (write_value v rest) ≡ value_part v ∷ read_parts rest
  read_parts-write_value n (str t) rest p = rw (read_parts-write_text t rest)
  read_parts-write_value zero (obj m) rest p = absurd p
  read_parts-write_value (suc n) (obj m) rest p = rw (read_parts-write_fields n m rest p)
  read_parts-write_value n null rest p = absurd p
  read_parts-write_value n (bool b) rest p = absurd p
  read_parts-write_value n (number t) rest p = absurd p
  read_parts-write_value n (arr xs) rest p = absurd p

  read_parts-write_fields :
      (n : ℕ) (m : Fields) (rest : Text)
      → ArePlain (λ t. true) n m
      → read_parts (write_fields m rest) ≡ fields_part m ∷ read_parts rest
  read_parts-write_fields n end rest p = refl
  read_parts-write_fields n (field k v m) rest p = rw (
    read_parts-write_text k (write_value v (write_fields m rest)),
    read_parts-write_value n v (write_fields m rest) p.1,
    read_parts-write_fields n m rest p.2,
  )

abbrev fields_of : List Part → Result (Option Fields)
fields_of (fields_part m ∷ _) = ok (some m)
fields_of _ = err (json_error [])

unfoldable pub toy_marshal : Fields → Option Text
unfolding write_value write_text
toy_marshal m = some (write_fields m [])

unfoldable pub toy_unmarshal : Text → Result (Option Fields)
unfolding read_parts push_part
toy_unmarshal b = fields_of (read_parts b)

pub toy_unmarshal-toy_marshal :
    (n : ℕ) (m : Fields) (b : Text)
    → ArePlain (λ t. true) n m
    → IsSorted m
    → toy_marshal m ≡ some b
    → toy_unmarshal b ≡ ok (some m)
unfolding toy_marshal toy_unmarshal
toy_unmarshal-toy_marshal n m b p s e =
    ap (λ t. fields_of (read_parts t)) (sym (some-injective _ _ e))
    ∙ ap fields_of (read_parts-write_fields n m [] p)

pub toy_marshal_total : (n : ℕ) (m : Fields) → ArePlain (λ t. true) n m → toy_marshal m ≢ none
unfolding toy_marshal
toy_marshal_total n m p = λ e. ground arith

pub toy_valid_text-split : (t : Text) → true ≡ true → All (λ (s : Text). true ≡ true) (split b'/' t)
toy_valid_text-split t e = each (split b'/' t)
  where
    each : (ts : List Text) → All (λ (s : Text). true ≡ true) ts
    each [] = tt
    each (x ∷ ts) = (refl, each ts)

abbrev pub toy_codec : Codec
toy_codec = record {
  marshal = toy_marshal;
  unmarshal = toy_unmarshal;
  valid_text = λ t. true;
  marshal_total = toy_marshal_total;
  unmarshal-marshal = toy_unmarshal-toy_marshal max_nested;
  unmarshal-marshal_deep = λ n m b p s e. inl (toy_unmarshal-toy_marshal n m b p s e);
  valid_text-ascii = λ t e. refl;
  valid_text-split = toy_valid_text-split;
}
