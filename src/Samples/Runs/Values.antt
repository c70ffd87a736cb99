-- ===== src/Samples/Runs/Values.antt =====
-- Equality of JSON values.
use greentic_events.Base.{◌≡◌, refl, Bool, true, false, not, ◌&&◌, ◌==◌, ==_refl, if◌then◌else◌}
use greentic_events.Base.Str.{str_eq, str_eq_refl}
use greentic_events.Event.{
  Json, null, bool, number, other_number, string, array, object, Items, nil, cons, Fields, end,
  field,
}

unfoldable mutual
  pub json_eq : Json → Json → Bool
  json_eq null null = true
  json_eq (bool a) (bool b) = if a then b else not b
  json_eq (number m) (number n) = m == n
  json_eq (other_number s) (other_number t) = str_eq s t
  json_eq (string s) (string t) = str_eq s t
  json_eq (array xs) (array ys) = items_eq xs ys
  json_eq (object m) (object n) = fields_eq m n
  json_eq _ _ = false

  items_eq : Items → Items → Bool
  items_eq nil nil = true
  items_eq (cons x xs) (cons y ys) = json_eq x y && items_eq xs ys
  items_eq _ _ = false

  fields_eq : Fields → Fields → Bool
  fields_eq end end = true
  fields_eq (field j v m) (field k u n) = str_eq j k && json_eq v u && fields_eq m n
  fields_eq _ _ = false

mutual
  unfolding json_eq items_eq fields_eq

  pub json_eq_refl : (v : Json) → json_eq v v ≡ true
  json_eq_refl null = refl
  json_eq_refl (bool true) = refl
  json_eq_refl (bool false) = refl
  json_eq_refl (number n) = ==_refl n
  json_eq_refl (other_number s) = str_eq_refl s
  json_eq_refl (string s) = str_eq_refl s
  json_eq_refl (array xs) = items_eq_refl xs
  json_eq_refl (object m) = fields_eq_refl m

  items_eq_refl : (xs : Items) → items_eq xs xs ≡ true
  items_eq_refl nil = refl
  items_eq_refl (cons x xs) = rw (json_eq_refl x, items_eq_refl xs) refl

  fields_eq_refl : (m : Fields) → fields_eq m m ≡ true
  fields_eq_refl end = refl
  fields_eq_refl (field k v m) = rw (str_eq_refl k, json_eq_refl v, fields_eq_refl m) refl
