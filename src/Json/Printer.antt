-- ===== src/Json/Printer.antt =====
-- JSON text, described independently of the parser: a compact writer, which the sources do not have.
use nemotron_inference.Base.{
  ℕ, suc, ◌^◌, ◌<◌, ◌≡◌, true, false, ◌||◌, List, [], ◌∷◌, ◌++◌, none, ◌==◌, if◌then◌else◌, text,
  to_string,
}
use nemotron_inference.Json.{
  Integer, positive, negative, JsonValue, null, boolean, integer, string, array, object, JsonArray,
  empty_array, element, JsonObject, empty_object, member, find_member,
}

-- Each writer puts its text in front of what follows.
unfoldable pub write_characters : List ℕ → List ℕ → List ℕ
write_characters [] tail = 34 ∷ tail
write_characters (ch ∷ rest) tail =
    if ch == 34 || ch == 92
    then 92 ∷ (ch ∷ write_characters rest tail)
    else ch ∷ write_characters rest tail

unfoldable pub write_string : List ℕ → List ℕ → List ℕ
write_string s tail = 34 ∷ write_characters s tail

unfoldable pub write_integer : Integer → List ℕ → List ℕ
write_integer (positive n) tail = to_string n ++ tail
write_integer (negative n) tail = b'-' ∷ (to_string (suc n) ++ tail)

unfoldable mutual
  unfolding write_string write_integer text

  pub write_value : JsonValue → List ℕ → List ℕ
  write_value null tail = text "null" ++ tail
  write_value (boolean true) tail = text "true" ++ tail
  write_value (boolean false) tail = text "false" ++ tail
  write_value (integer n) tail = write_integer n tail
  write_value (string s) tail = write_string s tail
  write_value (array empty_array) tail = b'[' ∷ (b']' ∷ tail)
  write_value (array (element value rest)) tail =
      b'[' ∷ write_value value (write_elements rest tail)
  write_value (object empty_object) tail = b'{' ∷ (b'}' ∷ tail)
  write_value (object (member key value rest)) tail =
      b'{' ∷ write_string key (b':' ∷ write_value value (write_members rest tail))

  -- The elements behind the first one, and the bracket.
  pub write_elements : JsonArray → List ℕ → List ℕ
  write_elements empty_array tail = b']' ∷ tail
  write_elements (element value rest) tail = b',' ∷ write_value value (write_elements rest tail)

  pub write_members : JsonObject → List ℕ → List ℕ
  write_members empty_object tail = b'}' ∷ tail
  write_members (member key value rest) tail =
      b',' ∷ write_string key (b':' ∷ write_value value (write_members rest tail))

-- The numbers of std::int64_t.
abbrev pub InRange : Integer → Type 0
InRange (positive n) = n < 2 ^ 63
InRange (negative n) = n < 2 ^ 63

-- What JSON text can say: integers in range, and objects that name no key twice.
abbrev mutual
  pub Writable : JsonValue → Type 0
  Writable null = Unit
  Writable (boolean _) = Unit
  Writable (integer n) = InRange n
  Writable (string _) = Unit
  Writable (array elements) = ElementsWritable elements
  Writable (object members) = MembersWritable members

  pub ElementsWritable : JsonArray → Type 0
  ElementsWritable empty_array = Unit
  ElementsWritable (element value rest) = Writable value × ElementsWritable rest

  pub MembersWritable : JsonObject → Type 0
  MembersWritable empty_object = Unit
  MembersWritable (member key value rest) =
      (find_member rest key ≡ none) × (Writable value × MembersWritable rest)
