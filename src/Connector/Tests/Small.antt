-- ===== src/Connector/Tests/Small.antt =====
-- A small API for the tests: one user, one permission, and roles by user.
use baton_tenable_vm.Prelude.{
  Bool, List, String, [], false, if◌then◌else◌, pos, put, refl, string_eq, true, ℕ_eq, ℤ_eq, ◌==◌,
  ◌∷◌,
}
use baton_tenable_vm.Client.Action.{ok, failed}
use baton_tenable_vm.Client.Types.{User, Permission, RoleDetails}
use baton_tenable_vm.Client.Api.{Api, UuidLibrary}
use baton_tenable_vm.Connector.Base.{Connector}

abbrev pub text_uuid : UuidLibrary
text_uuid = record {
  Uuid = String;
  uuid_eq = string_eq;
  parse = ok;
  to_string = λ u. u;
  parse-to_string = λ u. refl;
}

pub record World : Type 0 where
  pub alice : User String
  pub scan : Permission String
  pub held : String → List String

abbrev pub alice_with : Bool → World → World
alice_with enabled w = record w { alice = record w.alice { enabled = enabled } }

-- A role of Tenable, by its uuid and name
abbrev standard_role : String → String → RoleDetails String
standard_role uuid name = record {
  uuid = uuid;
  name = name;
  permissions = [];
  description = "";
  type = "STANDARD";
  status = "";
}

abbrev pub admin_role : RoleDetails String
admin_role = standard_role "admin" "Administrator"

abbrev pub basic_role : RoleDetails String
basic_role = standard_role "basic" "Basic"

abbrev pub small_api : Api String World
small_api = record {
  get_users = λ w. (ok (w.alice ∷ []), w);
  create_user = λ user w. (failed "no account to create", w);
  delete_user = λ id w. (failed "no account to delete", w);
  get_groups = λ w. (ok [], w);
  list_permissions = λ w. (ok (w.scan ∷ []), w);
  get_user_details = λ id w. if id == "7" then (ok w.alice, w) else (failed "user not found", w);
  enable_user = λ id w.
      if id == "7"
      then (ok (alice_with true w).alice, alice_with true w)
      else (failed "user not found", w);
  disable_user = λ id w.
      if id == "7"
      then (ok (alice_with false w).alice, alice_with false w)
      else (failed "user not found", w);
  get_roles = λ w. (ok (admin_role ∷ basic_role ∷ []), w);
  get_user_roles = λ uuid w.
      (ok (record { container_uuid = ""; user_uuid = uuid; roles_uuid = w.held uuid }), w);
  update_user_roles = λ uuid role w. (
    ok (record { container_uuid = ""; user_uuid = uuid; roles_uuid = role ∷ [] }),
    record w { held = put w.held uuid (role ∷ []) },
  );
  get_group_members = λ group w. (ok [], w);
  create_user_group_membership = λ group user w. (ok tt, w);
  delete_user_group_membership = λ group user w. (ok tt, w);
  get_permission_details =
      λ uuid w. if uuid == w.scan.uuid then (ok w.scan, w) else (failed "permission not found", w);
  update_permission = λ p w.
      if p.uuid == w.scan.uuid
      then (ok tt, record w { scan = p })
      else (failed "permission not found", w);
}

abbrev pub small_connector : Connector String World
small_connector = record { client = small_api; enable_on_provision = true }

abbrev pub start : World
start = record {
  alice = record {
    id = pos 7;
    uuid = "u7";
    username = "alice";
    email = "alice";
    name = "Alice";
    last_login = pos 0;
    enabled = false;
    permissions = pos 16;
    container_uuid = "";
    rbac_roles = [];
    roles = [];
    group_uuids = [];
  };
  scan = record {
    uuid = "p1";
    name = "scan";
    actions = [];
    objects = [];
    subjects = [];
    created_at = pos 0;
    created_by = "";
    updated_at = pos 0;
    updated_by = "";
  };
  held = λ uuid. "basic" ∷ [];
}
