-- ===== src/Config/Json.antt =====
-- config.cpp: a JSON value. The std::map of an object and the std::vector of an array are the
-- lists `Fields` and `Items`; a field keeps the order of the text, which no one reads.
use link_scheduling.Prelude.{ℕ, suc, Bool, Option, none, some, if◌then◌else◌}
use link_scheduling.Prelude.Text.{Bytes, eq_bytes}

-- A whole number is the bit pattern of its long long; any other number is the token its double is
-- read from.
mutual
  pub data Json : Type 0 where
    null : Json
    boolean : Bool → Json
    integer : ℕ → Json
    real : Bytes → Json
    str : Bytes → Json
    object : Fields → Json
    array : Items → Json

  pub data Items : Type 0 where
    no_items : Items
    item : Json → Items → Items

  pub data Fields : Type 0 where
    no_fields : Fields
    field : Bytes → Json → Fields → Fields

-- std::vector::push_back.
unfoldable pub push_back : Items → Json → Items
push_back no_items v = item v no_items
push_back (item w items) v = item w (push_back items v)

-- std::vector::size.
abbrev pub size : Items → ℕ
size no_items = 0
size (item v items) = suc (size items)

-- std::map::find.
unfoldable pub find : Bytes → Fields → Option Json
find key no_fields = none
find key (field k v fields) =
    let later = find key fields in if eq_bytes key k then some v else later

-- std::map::emplace: an entry that is there stays.
unfoldable pub emplace : Fields → Bytes → Json → Fields
emplace no_fields key v = field key v no_fields
emplace (field k w fields) key v =
    let later = emplace fields key v in if eq_bytes key k then field k w fields else field k w later

-- Json::is_object with Json::contains and Json::at: what an object has under a key.
unfoldable pub lookup : Json → Bytes → Option Json
unfolding find
lookup (object fs) key = find key fs
lookup null key = none
lookup (boolean b) key = none
lookup (integer w) key = none
lookup (real token) key = none
lookup (str s) key = none
lookup (array items) key = none
