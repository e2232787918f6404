-- ===== src/Json.antt =====
-- JSON values, as `serde_json::Value` holds them, with the operations that the program uses. An
-- object is an association list in which `insert` replaces; a number is the parameter `n`, of which
-- only the `u64` numbers are looked at.
pub mod Laws
use melis.Common.{
  ℕ, String, Bool, true, false, not, Option, none, some, List, [], ◌∷◌, and_then, unwrap_or,
  string_eq, ◌==◌, if◌then◌else◌,
}

pub record Numbers : Type 1 where
  pub Number : Type 0
  pub of_u64 : ℕ → Number
  pub as_u64 : Number → Option ℕ

module _ (n : Numbers) where
  mutual
    pub data Value : Type 0 where
      null : Value
      bool : Bool → Value
      number : n.Number → Value
      string : String → Value
      array : Items → Value
      object : Fields → Value

    pub data Items : Type 0 where
      nil : Items
      cons : Value → Items → Items

    pub data Fields : Type 0 where
      end : Fields
      field : String → Value → Fields → Fields

module _ {n : Numbers} where
  abbrev pub to_list : Items n → List (Value n)
  to_list nil = []
  to_list (cons v vs) = v ∷ to_list vs

  abbrev pub of_list : List (Value n) → Items n
  of_list [] = nil
  of_list (v ∷ vs) = cons v (of_list vs)

  -- `Map::get`, `insert`, `remove` and `keys`.
  abbrev pub get : (key : String) → Fields n → Option (Value n)
  get key end = none
  get key (field k v rest) = if k == key then some v else get key rest

  abbrev pub put : (key : String) → Value n → Fields n → Fields n
  put key value end = field key value end
  put key value (field k v rest) =
      if k == key then field key value rest else field k v (put key value rest)

  abbrev pub remove : (key : String) → Fields n → Fields n
  remove key end = end
  remove key (field k v rest) = if k == key then rest else field k v (remove key rest)

  abbrev pub keys : Fields n → List String
  keys end = []
  keys (field k v rest) = k ∷ keys rest

  -- Members one after the other, as the macro `json!` inserts them.
  abbrev pub put_all : List (String × Value n) → Fields n → Fields n
  put_all [] fields = fields
  put_all ((key, value) ∷ rest) fields = put_all rest (put key value fields)

  abbrev pub put_some : (key : String) → Option (Value n) → Fields n → Fields n
  put_some key none fields = fields
  put_some key (some value) fields = put key value fields

  abbrev pub json : List (String × Value n) → Value n
  json members = object (put_all members end)

  abbrev pub list : List (Value n) → Value n
  list vs = array (of_list vs)

  -- `Value::get` with a text.
  abbrev pub at : (key : String) → Value n → Option (Value n)
  at key (object fields) = get key fields
  at key _ = none

  abbrev pub as_str : Value n → Option String
  as_str (string s) = some s
  as_str _ = none

  abbrev pub as_bool : Value n → Option Bool
  as_bool (bool b) = some b
  as_bool _ = none

  abbrev pub as_u64 : Value n → Option ℕ
  as_u64 (number k) = n.as_u64 k
  as_u64 _ = none

  abbrev pub as_array : Value n → Option (List (Value n))
  as_array (array vs) = some (to_list vs)
  as_array _ = none

  abbrev pub as_object : Value n → Option (Fields n)
  as_object (object fields) = some fields
  as_object _ = none

  -- `v.get(key).and_then(|x| x.as_str())` and the like.
  abbrev pub str_at : (key : String) → Value n → Option String
  str_at key v = and_then (at key v) as_str

  abbrev pub u64_at : (key : String) → Value n → Option ℕ
  u64_at key v = and_then (at key v) as_u64

  abbrev pub array_at : (key : String) → Value n → Option (List (Value n))
  array_at key v = and_then (at key v) as_array

  abbrev pub u64 : ℕ → Value n
  u64 k = number (n.of_u64 k)

-- `serde_json::from_str(s).ok()` and `serde_json::to_string(v)`.
pub record Serde (n : Numbers) : Type 0 where
  pub parse : String → Option (Value n)
  pub print : Value n → String

-- Numbers that are all `u64`: an instance that runs, for tests.
abbrev pub u64_numbers : Numbers
u64_numbers = record { Number = ℕ; of_u64 = λ k. k; as_u64 = λ k. some k }
