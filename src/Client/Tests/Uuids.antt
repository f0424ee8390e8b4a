-- ===== src/Client/Tests/Uuids.antt =====
-- A small library of uuids for the tests.
use baton_tenable_vm.Prelude.{
  Bool, String, bool_equality, false, if◌then◌else◌, refl, string_eq, true, ℕ_eq, ℤ_eq, ◌==◌, ◌≡◌,
}
use baton_tenable_vm.Client.Action.{ok, failed, Result}
use baton_tenable_vm.Client.Api.{UuidLibrary}

-- Two uuids with their texts
abbrev pub bool_text : Bool → String
bool_text true = "11111111-1111-4111-8111-111111111111"
bool_text false = "00000000-0000-4000-8000-000000000000"

abbrev pub parse_bool : String → Result Bool
parse_bool t =
    if t == bool_text true
    then ok true
    else if t == bool_text false
    then ok false
    else failed "invalid UUID"

pub parse-bool_text : (b : Bool) → parse_bool (bool_text b) ≡ ok b
parse-bool_text true = refl
parse-bool_text false = refl

abbrev pub two_uuids : UuidLibrary
two_uuids = record {
  Uuid = Bool;
  uuid_eq = bool_equality;
  parse = parse_bool;
  to_string = bool_text;
  parse-to_string = parse-bool_text;
}
