-- ===== src/Runtime/Platform.antt =====
-- What the engine takes from `f64` and from the crate `serde_json`: operations, and of the latter
-- the laws that its documentation states.
use a2ex.Base.{ℕ, String, Bool, true, false, Option, none, some, List, ◌≡◌, ◌==◌, if◌then◌else◌}

-- `f64`
pub record Float : Type 1 where
  pub F : Type 0
  pub zero : F
  pub three_quarters : F  -- 0.75
  pub ten_thousand : F  -- 10_000.0
  pub mul : F → F → F
  pub abs : F → F
  pub lt : F → F → Bool
  pub le : F → F → Bool
  pub to_u64 : F → ℕ  -- `as u64`, which saturates
  pub show : F → String  -- `{}`

-- `serde_json::Value`
pub record Json : Type 1 where
  pub V : Type 0
  pub get : V → String → Option V  -- `value.get(key)`
  pub as_bool : V → Option Bool
  pub as_str : V → Option String
  pub as_array : V → Option (List V)
  pub is_object : V → Bool  -- `value.as_object_mut().is_some()`
  pub insert : V → String → V → V  -- `object.insert(key, value)`
  pub singleton : String → V → V  -- `json!({ key: value })`
  pub of_bool : Bool → V
  pub of_str : String → V
  pub of_array : List V → V
  pub as_bool-of_bool : (b : Bool) → as_bool (of_bool b) ≡ some b
  pub as_str-of_str : (s : String) → as_str (of_str s) ≡ some s
  pub as_array-of_array : (vs : List V) → as_array (of_array vs) ≡ some vs
  pub get_non_object : (v : V) (k : String) → is_object v ≡ false → get v k ≡ none
  pub get-insert :
      (v : V) (k j : String) (x : V)
      → is_object v ≡ true
      → get (insert v k x) j ≡ (if k == j then some x else get v j)
  pub get-singleton :
      (k j : String) (x : V) → get (singleton k x) j ≡ (if k == j then some x else none)
