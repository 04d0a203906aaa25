-- ===== src/License/Json.antt =====
-- internal/license/parsing.go: parsed JSON, and the walk of `hasDuplicateJSONKeys`.
use iolink.Base.{
  ◌==◌, nat_eq, text_eq, Bool, false, ◌||◌, if◌then◌else◌, Text, List, [], ◌∷◌, any, Option, none,
  some,
}

mutual
  -- A parsed JSON text; a number is its literal.
  pub data Json : Type 0 where
    json_null json_bool : Json
    json_number json_string : Text → Json
    json_array : Elements → Json
    json_object : Members → Json

  pub data Elements : Type 0 where
    no_element : Elements
    element : Json → Elements → Elements

  pub data Members : Type 0 where
    no_member : Members
    member : Text → Json → Members → Members

abbrev pub names : Members → List Text
names no_member = []
names (member k v rest) = k ∷ names rest

unfoldable mutual
  -- The walk of `hasDuplicateJSONKeys`, with the keys seen so far in an object.
  pub has_duplicates : Json → Bool
  has_duplicates json_null = false
  has_duplicates json_bool = false
  has_duplicates (json_number s) = false
  has_duplicates (json_string s) = false
  has_duplicates (json_array es) = elements_have_duplicates es
  has_duplicates (json_object ms) = members_have_duplicates [] ms

  pub elements_have_duplicates : Elements → Bool
  elements_have_duplicates no_element = false
  elements_have_duplicates (element v rest) = has_duplicates v || elements_have_duplicates rest

  pub members_have_duplicates : List Text → Members → Bool
  members_have_duplicates seen no_member = false
  members_have_duplicates seen (member k v rest) =
      any (λ s. s == k) seen || has_duplicates v || members_have_duplicates (k ∷ seen) rest

abbrev pub field : Text → Members → Option Json
field name no_member = none
field name (member k v rest) = if k == name then some v else field name rest
