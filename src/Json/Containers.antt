-- ===== src/Json/Containers.antt =====
-- The elements and members that the loops of the parser gather.
use nemotron_inference.Base.{
  ℕ, ◌≡◌, ◌≢◌, refl, ap, subst, inl, inr, List, none, arith, str_eq, str_eq_iff, Bool-cases,
}
use nemotron_inference.Json.{
  JsonValue, JsonArray, empty_array, element, JsonObject, empty_object, member, find_member,
  emplace_member, push_element,
}
use nemotron_inference.Json.Printer.{Writable, MembersWritable}

abbrev pub append_elements : JsonArray → JsonArray → JsonArray
append_elements empty_array more = more
append_elements (element value rest) more = element value (append_elements rest more)

pub append_elements-push_element :
    (before : JsonArray) (value : JsonValue) (rest : JsonArray)
    → append_elements (push_element before value) rest ≡ append_elements before (element value rest)
unfolding push_element
append_elements-push_element empty_array value rest = refl
append_elements-push_element (element first before) value rest =
    ap (λ t. element first t) (append_elements-push_element before value rest)

abbrev pub append_members : JsonObject → JsonObject → JsonObject
append_members empty_object more = more
append_members (member key value rest) more = member key value (append_members rest more)

find_member-there :
    (before : JsonObject) (key : List ℕ) (value : JsonValue) (rest : JsonObject)
    → find_member (append_members before (member key value rest)) key ≢ none
unfolding find_member
find_member-there empty_object key value rest e = ground (arith, str_eq_iff key key)
find_member-there (member name old before) key value rest e =
    ground (arith, find_member-there before key value rest)

pub find_member-fresh :
    (before : JsonObject) (key : List ℕ) (value : JsonValue) (rest : JsonObject)
    → MembersWritable (append_members before (member key value rest))
    → find_member before key ≡ none
unfolding find_member
find_member-fresh empty_object key value rest w = refl
find_member-fresh (member name old before) key value rest w = elim (Bool-cases (str_eq name key)) [
  | inl same ↦
      let e : name ≡ key = (str_eq_iff name key).0 same in
      absurd (
        find_member-there before key value rest
          (subst (λ t. find_member (append_members before (member key value rest)) t ≡ none) e w.0))
  | inr other ↦ rw (other, find_member) (find_member-fresh before key value rest w.1.1)
]

pub append_members-emplace_member :
    (before : JsonObject) (key : List ℕ) (value : JsonValue) (rest : JsonObject)
    → find_member before key ≡ none
    → append_members (emplace_member key value before) rest
      ≡ append_members before (member key value rest)
unfolding emplace_member find_member
append_members-emplace_member empty_object key value rest fresh = refl
append_members-emplace_member (member name old before) key value rest fresh =
    elim (Bool-cases (str_eq name key)) [
      | inl same ↦ absurd (ground arith)
      | inr other ↦
          let below : find_member before key ≡ none = ground arith in
          rw (other, emplace_member)
            (ap (λ t. member name old t)
              (append_members-emplace_member before key value rest below))
    ]

pub value-Writable :
    (before : JsonObject) (key : List ℕ) (value : JsonValue) (rest : JsonObject)
    → MembersWritable (append_members before (member key value rest))
    → Writable value
value-Writable empty_object key value rest w = w.1.0
value-Writable (member name old before) key value rest w =
    value-Writable before key value rest w.1.1

pub append_elements-empty : (before : JsonArray) → append_elements before empty_array ≡ before
append_elements-empty empty_array = refl
append_elements-empty (element value before) =
    ap (λ t. element value t) (append_elements-empty before)

pub append_members-empty : (before : JsonObject) → append_members before empty_object ≡ before
append_members-empty empty_object = refl
append_members-empty (member key value before) =
    ap (λ t. member key value t) (append_members-empty before)
