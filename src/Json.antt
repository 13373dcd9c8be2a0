-- ===== src/Json.antt =====
-- JSON values, as serde_json's `Value` holds them. A number is an integer or a binary floating-point
-- number: its sign, its integral mantissa and its binary exponent.
use sts_delegate_rs.Prelude.{
  ℕ, ℤ, String, Bool, true, false, Option, none, some, text_eq, if◌then◌else◌, text_ltb, ◌≡◌, refl,
  arith, eq_iff,
}

pub data Number : Type 0 where
  integer : ℤ → Number
  float : Bool → ℕ → ℤ → Number

mutual
  pub data Json : Type 0 where
    null : Json
    bool : Bool → Json
    number : Number → Json
    string : String → Json
    array : Items → Json
    object : Members → Json

  pub data Items : Type 0 where
    no_items : Items
    item : Json → Items → Items

  pub data Members : Type 0 where
    no_members : Members
    member_of : String → Json → Members → Members

-- `Value::as_str`.
abbrev pub as_str : Json → Option String
as_str (string s) = some s
as_str _ = none

-- `Map::get`: the keys of a parsed object are distinct.
unfoldable pub get : String → Members → Option Json
get k no_members = none
get k (member_of j v m) = let rest = get k m in if text_eq j k then some v else rest

abbrev pub is_some_json : Option Json → Bool
is_some_json none = false
is_some_json (some _) = true

unfoldable pub contains_key : String → Members → Bool
contains_key k m = is_some_json (get k m)

-- `map.get(k).and_then(Value::as_str)`.
abbrev pub and_as_str : Option Json → Option String
and_as_str none = none
and_as_str (some v) = as_str v

-- `Value::as_object`, `Value::as_array` and `Value::as_bool`.
abbrev pub as_object : Json → Option Members
as_object (object m) = some m
as_object _ = none

abbrev pub as_array : Json → Option Items
as_array (array items) = some items
as_array _ = none

abbrev pub as_bool : Json → Option Bool
as_bool (bool b) = some b
as_bool _ = none

-- `Map::insert`: serde_json keeps the members by the order of their keys.
unfoldable pub insert_member : String → Json → Members → Members
insert_member k v no_members = member_of k v no_members
insert_member k v (member_of j w m) =
    let rest = insert_member k v m in
    if text_eq j k
    then member_of k v m
    else if text_ltb k j
    then member_of k v (member_of j w m)
    else member_of j w rest

pub get-insert_member :
    (k j : String) (v : Json) (m : Members)
    → get j (insert_member k v m) ≡ (if text_eq k j then some v else get j m)
unfolding get insert_member
get-insert_member k j v no_members = refl
get-insert_member k j v (member_of i w m) =
    ground (arith, eq_iff k j, eq_iff i k, eq_iff i j, get-insert_member k j v m)
