-- ===== src/Json.antt =====
-- JSON documents, in place of the texts that `encoding/json` writes and reads: the struct tags of the
-- program decide the members of an object and their order, and those are what the program's answers
-- are made of.
use eth_proxy.Prelude.{
  Bool, false, true, String, List, [], ◌∷◌, Option, none, some, str_eq, ◌≡◌, refl, if◌then◌else◌,
}

mutual
  pub data Json : Type 0 where
    null : Json
    bool : Bool → Json
    num : String → Json
    str : String → Json
    arr : Items → Json
    obj : Fields → Json

  pub data Items : Type 0 where
    nil : Items
    cons : Json → Items → Items

  pub data Fields : Type 0 where
    end : Fields
    field : String → Json → Fields → Fields

-- A member that is left out if the value is empty: the tag `omitempty` at a string, and at a bool.
abbrev pub nonempty_field : String → String → Fields → Fields
nonempty_field k String.[] rest = rest
nonempty_field k v rest = field k (str v) rest

abbrev pub true_field : String → Bool → Fields → Fields
true_field k false rest = rest
true_field k true rest = field k (bool true) rest

-- A slice of strings: `[]` if it is empty and not nil.
abbrev pub str_items : List String → Items
str_items [] = nil
str_items (s ∷ ss) = cons (str s) (str_items ss)

-- The member with a given name; a later one wins, as in `json.Decode`.
unfoldable pub member : String → Fields → Option Json
member k end = none
member k (field j v rest) = elim (member k rest) [
  | none ↦ if str_eq j k then some v else none
  | some w ↦ some w
]

-- A string, a bool and a slice of strings, decoded into a field that holds its zero value before. A
-- missing member and `null` leave it as it is; a value of another kind is an error, `none`.
abbrev pub to_string : Option Json → Option String
to_string none = some ""
to_string (some null) = some ""
to_string (some (str s)) = some s
to_string (some _) = none

abbrev pub to_bool : Option Json → Option Bool
to_bool none = some false
to_bool (some null) = some false
to_bool (some (bool b)) = some b
to_bool (some _) = none

unfoldable pub strings : Items → Option (List String)
strings nil = some []
strings (cons (str s) rest) = elim (strings rest) [ none ↦ none | some ss ↦ some (s ∷ ss) ]
strings (cons null rest) = elim (strings rest) [ none ↦ none | some ss ↦ some ("" ∷ ss) ]
strings (cons _ rest) = none

abbrev pub to_strings : Option Json → Option (List String)
to_strings none = some []
to_strings (some null) = some []
to_strings (some (arr items)) = strings items
to_strings (some _) = none

pub strings-str_items : (ss : List String) → strings (str_items ss) ≡ some ss
unfolding strings
strings-str_items [] = refl
strings-str_items (s ∷ ss) = rw (strings-str_items ss)
