-- ===== src/Connector/Tests/Provisioning.antt =====
-- The theorems about roles, permissions and accounts of pkg/connector at a small API.
use baton_tenable_vm.Prelude.{
  Option, String, [], arith, beq_refl, contains, eq_iff, false, if◌then◌else◌, none, put, refl,
  some, string_eq, true, ℕ_eq, ℤ_eq, ◌==◌, ◌∷◌, ◌≡◌,
}
use baton_tenable_vm.Client.Action.{ok}
use baton_tenable_vm.Client.Types.{User, Permission}
use baton_tenable_vm.Connector.Base.{grant_already_revoked}
use baton_tenable_vm.Connector.Accounts.{
  user_id, text, Value, account_action, delete_account, extract_action_user_id,
}
use baton_tenable_vm.Connector.Accounts.Effect.{account_action_lem, delete_account_lem}
use baton_tenable_vm.Connector.Decimal.{itoa_seven}
use baton_tenable_vm.Connector.Permissions.{grant_permission, is_subject, revoke_permission}
use baton_tenable_vm.Connector.Permissions.Answers.{Holds, Answers}
use baton_tenable_vm.Connector.Permissions.Effect.{
  grant_permission_lem, revoke-grant_permission, revoke_permission_lem,
}
use baton_tenable_vm.Connector.Roles.{grant_role}
use baton_tenable_vm.Connector.Roles.Answers.{RoleAnswers}
use baton_tenable_vm.Connector.Roles.Granting.{StatusIs, grant_role_lem}
use baton_tenable_vm.Connector.Tests.Small.{
  World, admin_role, basic_role, small_api, small_connector, start, text_uuid, alice_with,
}

abbrev permission_at : World → String → Option (Permission String)
permission_at w uuid = if uuid == w.scan.uuid then some w.scan else none

abbrev user_at : World → String → Option (User String)
user_at w id = if id == "7" then some w.alice else none

small_api-Answers : Answers text_uuid small_api
small_api-Answers = record {
  permission = permission_at;
  user = user_at;
  read_permission = λ w uuid p h. ground arith;
  read_user = λ w id u h. ground arith;
  update = λ w p q h. (
    record w { scan = p },
    p,
    ground (arith, eq_iff p.uuid w.scan.uuid),
    rw (beq_refl p.uuid) refl,
    refl,
    refl,
    refl,
  );
  enable = λ w id u h.
      (alice_with true w, ground (arith, eq_iff id "7"), refl, ground (arith, eq_iff id "7"));
}

start-Holds : Holds text_uuid small_connector small_api-Answers start "7" "u7" "p1" []
unfolding small_api-Answers
start-Holds = record {
  user = start.alice;
  known = refl;
  numbered = itoa_seven;
  named = refl;
  permission = start.scan;
  stored = refl;
  addressed = refl;
  subjects = refl;
}

is_subject-nil : is_subject text_uuid "u7" [] ≡ false
unfolding is_subject
is_subject-nil = refl

grant_permission_example :
    (w : World) × (grant_permission text_uuid small_connector
        (record { resource_type = "user"; resource = "7" })
        (record { resource_type = "permission"; resource = "p1" })
        start
      ≡ (ok [], w))
    × Holds text_uuid small_connector small_api-Answers w "7" "u7" "p1"
        (record { type = "User"; uuid = "u7"; name = "Alice" } ∷ [])
unfolding is_subject start-Holds
grant_permission_example =
    grant_permission_lem text_uuid small_connector small_api-Answers start "7" "u7" "p1" []
      start-Holds

revoke_permission_example :
    (w : World) × (revoke_permission text_uuid small_connector
        (record { resource_type = "user"; resource = "7" })
        (record { resource_type = "permission"; resource = "p1" })
        start
      ≡ (ok (grant_already_revoked ∷ []), w))
    × Holds text_uuid small_connector small_api-Answers w "7" "u7" "p1" []
unfolding is_subject
revoke_permission_example =
    revoke_permission_lem text_uuid small_connector small_api-Answers start "7" "u7" "p1" []
      start-Holds

revoke-grant_permission_example :
    (v w : World) × (grant_permission text_uuid small_connector
        (record { resource_type = "user"; resource = "7" })
        (record { resource_type = "permission"; resource = "p1" })
        start
      ≡ (ok [], v))
    × (revoke_permission text_uuid small_connector
          (record { resource_type = "user"; resource = "7" })
          (record { resource_type = "permission"; resource = "p1" })
          v
        ≡ (ok [], w))
    × Holds text_uuid small_connector small_api-Answers w "7" "u7" "p1" []
revoke-grant_permission_example =
    revoke-grant_permission text_uuid small_connector small_api-Answers start "7" "u7" "p1" []
      start-Holds is_subject-nil

small_api-RoleAnswers : RoleAnswers text_uuid small_api
small_api-RoleAnswers = record {
  user = user_at;
  roles = λ w. admin_role ∷ basic_role ∷ [];
  roles_of = λ w. w.held;
  read_user = λ w id u h. ground arith;
  read_roles = λ w. refl;
  read_user_roles = λ w id u h.
      (record { container_uuid = ""; user_uuid = u.uuid; roles_uuid = w.held u.uuid }, refl, refl);
  update = λ w id role u h offered. (
    record { container_uuid = ""; user_uuid = u.uuid; roles_uuid = role ∷ [] },
    record w { held = put w.held u.uuid (role ∷ []) },
    u,
    refl,
    refl,
    h,
    refl,
  );
  enable = λ w id u h. (
    (alice_with true w).alice,
    alice_with true w,
    ground (arith, eq_iff id "7"),
    refl,
    ground (arith, eq_iff id "7"),
    refl,
  );
}

abbrev promoted : World
promoted = record start { held = λ uuid. "admin" ∷ [] }

grant_role_example :
    (w : World) × (grant_role text_uuid small_connector
        (record { resource_type = "user"; resource = "7" })
        (record { resource_type = "role"; resource = "admin" })
        start
      ≡ (ok [], w))
    × (w.held ≡ put start.held "u7" ("admin" ∷ []))
    × StatusIs text_uuid small_connector small_api-RoleAnswers "7" w true
unfolding small_api-RoleAnswers contains
grant_role_example =
    grant_role_lem text_uuid small_connector small_api-RoleAnswers "7" start start.alice "admin"
      refl itoa_seven refl

enabled_seven : (account_action small_connector true (user_id (text "7")) start).0 ≡ ok true
unfolding account_action extract_action_user_id
enabled_seven = refl

account_action_example :
    (value : Value) × (id : String) × (user : User String) × (user_id (text "7") ≡ user_id value)
    × (extract_action_user_id value ≡ some id)
    × ((small_api.enable_user id start).0 ≡ ok user)
    × (user.enabled ≡ true)
account_action_example =
    account_action_lem small_connector true (user_id (text "7")) start true enabled_seven

deleted_seven :
    (delete_account small_connector (record { resource_type = "user"; resource = "7" }) start).0
    ≡ ok tt
unfolding delete_account
deleted_seven = refl

delete_account_example :
    (user : User String) × ((small_api.disable_user "7" start).0 ≡ ok user) × (user.enabled ≡ false)
delete_account_example =
    delete_account_lem small_connector (record { resource_type = "user"; resource = "7" }) start
      deleted_seven
