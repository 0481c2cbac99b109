-- ===== src/Json.antt =====
-- JSON values as encoding/json decodes them into interface{}: the payloads of answers and of
-- answer keys (app/domain/entity/entity.go). A number is kept as the text that fmt prints for it.
-- An object lists its members in the order in which Go ranges over the map; each key stands once.
use bangkusekolah_exam_node.Base.{
  ◌≡◌, refl, eq_refl, ◌&&◌, not, Bool, true, false, String, if◌then◌else◌, ◌==◌,
}

mutual
  pub data Value : Type 0 where
    null : Value
    boolean : Bool → Value
    number : String → Value
    str : String → Value
    array : Values → Value
    object : Members → Value

  pub data Values : Type 0 where
    no_more : Values
    next : Value → Values → Values

  pub data Members : Type 0 where
    end : Members
    member : String → Value → Members → Members

-- m[key]: a missing key reads as nil.
unfoldable pub lookup : String → Members → Value
lookup key end = null
lookup key (member k v rest) = if k == key then v else lookup key rest

-- len(m) == 0, also of a nil map.
abbrev pub is_empty_object : Members → Bool
is_empty_object end = true
is_empty_object (member k v rest) = false

-- Whether two values of a column are the same.
unfoldable mutual
  pub same_value : Value → Value → Bool
  same_value null null = true
  same_value (boolean true) (boolean b) = b
  same_value (boolean false) (boolean b) = not b
  same_value (number s) (number t) = s == t
  same_value (str s) (str t) = s == t
  same_value (array vs) (array ws) = same_values vs ws
  same_value (object m) (object n) = same_members m n
  same_value _ _ = false

  pub same_values : Values → Values → Bool
  same_values no_more no_more = true
  same_values (next v vs) (next w ws) = same_value v w && same_values vs ws
  same_values _ _ = false

  pub same_members : Members → Members → Bool
  same_members end end = true
  same_members (member k v m) (member l w n) = k == l && same_value v w && same_members m n
  same_members _ _ = false

mutual
  unfolding same_value same_values same_members

  pub same_value_refl : (v : Value) → same_value v v ≡ true
  same_value_refl null = refl
  same_value_refl (boolean true) = refl
  same_value_refl (boolean false) = refl
  same_value_refl (number s) = eq_refl s
  same_value_refl (str s) = eq_refl s
  same_value_refl (array vs) = same_values_refl vs
  same_value_refl (object m) = same_members_refl m

  pub same_values_refl : (vs : Values) → same_values vs vs ≡ true
  same_values_refl no_more = refl
  same_values_refl (next v vs) = rw (same_value_refl v, same_values_refl vs) refl

  pub same_members_refl : (m : Members) → same_members m m ≡ true
  same_members_refl end = refl
  same_members_refl (member k v m) = rw (eq_refl k, same_value_refl v, same_members_refl m) refl
