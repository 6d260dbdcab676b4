-- ===== src/Tests/Documents.antt =====
-- JSON documents, an instance of the operations on JSON values.
use a2ex.Base.{
  String, Bool, true, false, Option, none, some, List, [], ◌∷◌, ◌≡◌, refl, ap, ◌==◌, if◌then◌else◌,
  arith,
}
use a2ex.Runtime.Platform.{Json}

mutual
  pub data Value : Type 0 where
    null : Value
    bool : Bool → Value
    text : String → Value
    array : Values → Value
    object : Fields → Value

  pub data Values : Type 0 where
    nil : Values
    cons : Value → Values → Values

  pub data Fields : Type 0 where
    empty : Fields
    field : String → Value → Fields → Fields

abbrev pub of_list : List Value → Values
of_list [] = nil
of_list (v ∷ vs) = cons v (of_list vs)

abbrev pub to_list : Values → List Value
to_list nil = []
to_list (cons v vs) = v ∷ to_list vs

pub to_list-of_list : (vs : List Value) → to_list (of_list vs) ≡ vs
to_list-of_list [] = refl
to_list-of_list (v ∷ vs) = ap (λ rest. v ∷ rest) (to_list-of_list vs)

abbrev pub get_field : Fields → String → Option Value
get_field empty key = none
get_field (field k v fields) key = if k == key then some v else get_field fields key

abbrev pub get : Value → String → Option Value
get (object fields) key = get_field fields key
get _ key = none

abbrev pub insert : Value → String → Value → Value
insert (object fields) key x = object (field key x fields)
insert v key x = v

abbrev pub as_bool : Value → Option Bool
as_bool (bool b) = some b
as_bool _ = none

abbrev pub as_str : Value → Option String
as_str (text s) = some s
as_str _ = none

abbrev pub as_array : Value → Option (List Value)
as_array (array vs) = some (to_list vs)
as_array _ = none

abbrev pub is_object : Value → Bool
is_object (object _) = true
is_object _ = false

pub get_non_object : (v : Value) (key : String) → is_object v ≡ false → get v key ≡ none
get_non_object v key h = ground arith

pub get-insert :
    (v : Value) (key j : String) (x : Value)
    → is_object v ≡ true
    → get (insert v key x) j ≡ (if key == j then some x else get v j)
get-insert v key j x h = ground arith

abbrev pub documents : Json
documents = record {
  V = Value;
  get = get;
  as_bool = as_bool;
  as_str = as_str;
  as_array = as_array;
  is_object = is_object;
  insert = insert;
  singleton = λ key x. object (field key x empty);
  of_bool = bool;
  of_str = text;
  of_array = λ vs. array (of_list vs);
  as_bool-of_bool = λ b. refl;
  as_str-of_str = λ s. refl;
  as_array-of_array = λ vs. ap some (to_list-of_list vs);
  get_non_object = get_non_object;
  get-insert = get-insert;
  get-singleton = λ key j x. refl;
}

abbrev pub no_metrics : documents.V
no_metrics = object empty
