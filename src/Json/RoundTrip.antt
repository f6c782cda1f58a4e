-- ===== src/Json/RoundTrip.antt =====
-- The parser reads back every value from its text.
use nemotron_inference.Base.{
  ℕ, zero, suc, ◌*◌, ◌<◌, ◌≤◌, ◌≡◌, ◌⊎◌, refl, sym, subst, inl, true, false, List, [], ◌∷◌, none,
  arith, length, text,
}
use nemotron_inference.ModelSchedule.{starts_with, is_digit}
use nemotron_inference.Json.{
  JsonValue, null, boolean, integer, string, array, object, JsonArray, empty_array, element,
  JsonObject, empty_object, member, emplace_member, push_element, Parsed, parsed, is_space,
  skip_whitespace, after_byte, try_consume, expect, parse_literal, parse_scalar, parse_key,
  close_object, close_array, parse_value, parse_members, parse_elements, enough, at_end, parse_json,
}
use nemotron_inference.Json.Advance.{Consumes, parse_key-Consumes}
use nemotron_inference.Json.Consumed.{parse_value-Consumes}
use nemotron_inference.Json.Printer.{
  write_string, write_value, write_elements, write_members, Writable, ElementsWritable,
  MembersWritable,
}
use nemotron_inference.Json.Containers.{
  append_elements, append_elements-empty, append_elements-push_element, append_members,
  append_members-empty, find_member-fresh, append_members-emplace_member, value-Writable,
}
use nemotron_inference.Json.Scalars.{
  parse_string-write_string, EndsNumber, Opens, skip_whitespace-Opens,
}
use nemotron_inference.Json.Heads.{write_value-Opens, scalar_back, string_back}

abbrev ValueBack : ℕ → Type 0
ValueBack fuel =
    (value : JsonValue) (tail : List ℕ)
    → Writable value
    → EndsNumber tail
    → suc (2 * length (write_value value tail)) ≤ fuel
    → parse_value fuel (write_value value tail) ≡ parsed value tail

abbrev ElementsBack : ℕ → Type 0
ElementsBack fuel =
    (before : JsonArray) (value : JsonValue) (rest : JsonArray) (tail : List ℕ)
    → Writable value
    → ElementsWritable rest
    → suc (suc (2 * length (write_value value (write_elements rest tail)))) ≤ fuel
    → parse_elements fuel before (write_value value (write_elements rest tail))
      ≡ parsed (array (append_elements before (element value rest))) tail

abbrev MembersBack : ℕ → Type 0
MembersBack fuel =
    (before : JsonObject) (key : List ℕ) (value : JsonValue) (rest : JsonObject) (tail : List ℕ)
    → MembersWritable (append_members before (member key value rest))
    → suc (suc (2 * length (write_string key (b':' ∷ write_value value (write_members rest tail)))))
      ≤ fuel
    → parse_members fuel before
        (write_string key (b':' ∷ write_value value (write_members rest tail)))
      ≡ parsed (object (append_members before (member key value rest))) tail

try_consume-Opens :
    (close : ℕ) (input : List ℕ)
    → (close ≡ b']') ⊎ (close ≡ b'}')
    → Opens input
    → try_consume close input ≡ none
unfolding try_consume after_byte
try_consume-Opens close [] c o = absurd o
try_consume-Opens close (ch ∷ rest) c o = rw (skip_whitespace-Opens (ch ∷ rest) o) (ground arith)

-- A byte that is no space is found at once.
skip-none : (ch : ℕ) (rest : List ℕ) → is_space ch ≡ false → skip_whitespace (ch ∷ rest) ≡ ch ∷ rest
unfolding skip_whitespace
skip-none ch rest e = rw (e, skip_whitespace)

array_head :
    (fuel : ℕ) (input : List ℕ)
    → Opens input
    → parse_value (suc fuel) (b'[' ∷ input) ≡ parse_elements fuel empty_array input
unfolding parse_value is_space
array_head fuel input o = rw (
  skip-none b'[' input refl,
  try_consume-Opens b']' input (inl refl) o,
  skip_whitespace-Opens input o,
  parse_value,
)

object_head :
    (fuel : ℕ) (key rest : List ℕ)
    → parse_value (suc fuel) (b'{' ∷ write_string key rest)
      ≡ parse_members fuel empty_object (write_string key rest)
unfolding parse_value is_space try_consume skip_whitespace write_string after_byte
object_head fuel key rest = refl

value_step : (fuel : ℕ) → ElementsBack fuel → MembersBack fuel → ValueBack (suc fuel)
unfolding write_value parse_value parse_scalar parse_literal starts_with is_digit is_space text
    skip_whitespace try_consume after_byte
value_step fuel elements members null tail w e enough = refl
value_step fuel elements members (boolean true) tail w e enough = refl
value_step fuel elements members (boolean false) tail w e enough = refl
value_step fuel elements members (integer n) tail w e enough = scalar_back fuel n tail w e
value_step fuel elements members (string s) tail w e enough = string_back fuel s tail
value_step fuel elements members (array empty_array) tail w e enough = refl
value_step fuel elements members (array (element value rest)) tail w e enough =
    rw
      (array_head fuel (write_value value (write_elements rest tail))
        (write_value-Opens value (write_elements rest tail)))
      (elements empty_array value rest tail w.0 w.1 (omega arith))
value_step fuel elements members (object empty_object) tail w e enough = refl
value_step fuel elements members (object (member key value rest)) tail w e enough =
    rw (object_head fuel key (b':' ∷ write_value value (write_members rest tail)))
      (members empty_object key value rest tail w (omega arith))

-- A comma or the bracket ends a number.
write_elements-EndsNumber :
    (rest : JsonArray) (tail : List ℕ) → EndsNumber (write_elements rest tail)
unfolding write_elements is_digit
write_elements-EndsNumber empty_array tail = refl
write_elements-EndsNumber (element value rest) tail = refl

write_members-EndsNumber :
    (rest : JsonObject) (tail : List ℕ) → EndsNumber (write_members rest tail)
unfolding write_members is_digit
write_members-EndsNumber empty_object tail = refl
write_members-EndsNumber (member key value rest) tail = refl

-- What a value leaves is shorter than its text.
fewer :
    (fuel : ℕ) (value : JsonValue) (tail : List ℕ)
    → suc (2 * length (write_value value tail)) ≤ fuel
    → parse_value fuel (write_value value tail) ≡ parsed value tail
    → length tail < length (write_value value tail)
fewer fuel value tail enough back =
    subst (Consumes (length (write_value value tail))) back
      (parse_value-Consumes fuel (write_value value tail) enough)

close_array_more :
    (next : JsonArray → List ℕ → Parsed JsonValue) (before : JsonArray) (value : JsonValue)
    (rest : JsonArray) (tail : List ℕ)
    → close_array next before (write_elements (element value rest) tail)
      ≡ next before (write_value value (write_elements rest tail))
unfolding close_array write_elements expect try_consume skip_whitespace after_byte is_space
close_array_more next before value rest tail = refl

close_array_last :
    (next : JsonArray → List ℕ → Parsed JsonValue) (before : JsonArray) (tail : List ℕ)
    → close_array next before (write_elements empty_array tail) ≡ parsed (array before) tail
unfolding close_array write_elements try_consume skip_whitespace after_byte is_space
close_array_last next before tail = refl

close_array_back :
    (fuel : ℕ) (before : JsonArray) (rest : JsonArray) (tail : List ℕ)
    → ElementsBack fuel
    → ElementsWritable rest
    → suc (2 * length (write_elements rest tail)) ≤ fuel
    → close_array (parse_elements fuel) before (write_elements rest tail)
      ≡ parsed (array (append_elements before rest)) tail
unfolding write_elements
close_array_back fuel before empty_array tail more w enough =
    rw (close_array_last (parse_elements fuel) before tail, append_elements-empty before)
close_array_back fuel before (element value rest) tail more w enough =
    rw (close_array_more (parse_elements fuel) before value rest tail)
      (more before value rest tail w.0 w.1 (omega arith))

elements_step : (fuel : ℕ) → ValueBack fuel → ElementsBack fuel → ElementsBack (suc fuel)
unfolding parse_elements
elements_step fuel value_back more before value rest tail v w enough =
    let after = write_elements rest tail in
    let back = value_back value after v (write_elements-EndsNumber rest tail) (omega arith) in
    let shorter = fewer fuel value after (omega arith) back in
    rw (
      back,
      close_array_back fuel (push_element before value) rest tail more w (omega arith),
      append_elements-push_element before value rest,
    )

close_object_more :
    (next : JsonObject → List ℕ → Parsed JsonValue) (before : JsonObject) (key : List ℕ)
    (value : JsonValue) (rest : JsonObject) (tail : List ℕ)
    → close_object next before (write_members (member key value rest) tail)
      ≡ next before (write_string key (b':' ∷ write_value value (write_members rest tail)))
unfolding close_object write_members expect try_consume skip_whitespace after_byte is_space
close_object_more next before key value rest tail = refl

close_object_last :
    (next : JsonObject → List ℕ → Parsed JsonValue) (before : JsonObject) (tail : List ℕ)
    → close_object next before (write_members empty_object tail) ≡ parsed (object before) tail
unfolding close_object write_members try_consume skip_whitespace after_byte is_space
close_object_last next before tail = refl

close_object_back :
    (fuel : ℕ) (before : JsonObject) (rest : JsonObject) (tail : List ℕ)
    → MembersBack fuel
    → MembersWritable (append_members before rest)
    → suc (2 * length (write_members rest tail)) ≤ fuel
    → close_object (parse_members fuel) before (write_members rest tail)
      ≡ parsed (object (append_members before rest)) tail
unfolding write_members
close_object_back fuel before empty_object tail more w enough =
    rw (close_object_last (parse_members fuel) before tail, append_members-empty before)
close_object_back fuel before (member key value rest) tail more w enough =
    rw (close_object_more (parse_members fuel) before key value rest tail)
      (more before key value rest tail w (omega arith))

parse_key-write_string :
    (key rest : List ℕ) → parse_key (write_string key (b':' ∷ rest)) ≡ parsed key rest
unfolding parse_key write_string skip_whitespace is_space expect try_consume after_byte
parse_key-write_string key rest = rw (parse_string-write_string key (b':' ∷ rest))

members_step : (fuel : ℕ) → ValueBack fuel → MembersBack fuel → MembersBack (suc fuel)
unfolding parse_members
members_step fuel value_back more before key value rest tail w enough =
    let after = write_members rest tail in
    let input = write_value value after in
    let keyed = parse_key-write_string key input in
    let short : length input < length (write_string key (b':' ∷ input)) =
      subst (Consumes (length (write_string key (b':' ∷ input)))) keyed
        (parse_key-Consumes (write_string key (b':' ∷ input))) in
    let back =
      value_back value after (value-Writable before key value rest w)
        (write_members-EndsNumber rest tail) (omega arith) in
    let shorter = fewer fuel value after (omega arith) back in
    let same =
      append_members-emplace_member before key value rest
        (find_member-fresh before key value rest w) in
    rw (
      keyed,
      back,
      close_object_back fuel (emplace_member key value before) rest tail more
          (subst (λ t. MembersWritable t) (sym same) w) (omega arith),
      same,
    )

back_all : (fuel : ℕ) → ValueBack fuel × (ElementsBack fuel × MembersBack fuel)
back_all zero = (
  λ value tail w e enough. absurd (omega arith),
  (
    λ before value rest tail v w enough. absurd (omega arith),
    λ before key value rest tail w enough. absurd (omega arith),
  ),
)
back_all (suc fuel) =
    let (value, (elements, members)) = back_all fuel in
    (
      value_step fuel elements members,
      (elements_step fuel value elements, members_step fuel value members),
    )

-- The parser reads the compact text of a value back, if its integers are in range and no object names a
-- key twice.
pub parse_json-write_value :
    (value : JsonValue) → Writable value → parse_json (write_value value []) ≡ parsed value []
unfolding parse_json at_end skip_whitespace
parse_json-write_value value w =
    let input = write_value value [] in rw ((back_all (enough input)).0 value [] w tt (omega arith))
