-- ===== src/Client/Json/Status.antt =====
-- The change of a user's status by pkg/client and its answers by cmd/test-server, over the text of the
-- user's number in the path and their JSON.
use mathlib.Core.Option
use baton_tenable_vm.Prelude.{
  Bool, List, ap, beq_refl, map, put, refl, some, string_eq, ℕ, ℕ_eq, ℤ, ℤ_eq, ◌≡◌,
}
use baton_tenable_vm.Server.Types as Server
use baton_tenable_vm.Client.Action.{ok}
use baton_tenable_vm.Client.Types.{Role}
use baton_tenable_vm.Client.Http.{user_enabled_body}
use baton_tenable_vm.Client.Json.{read_user}
use baton_tenable_vm.Client.Json.Assignment.{decoded}
use baton_tenable_vm.Client.Json.Bodies.{body_json}
use baton_tenable_vm.Client.Json.Laws.{client_user, kept_role, read_user-user_json}
use baton_tenable_vm.Connector.Decimal.{itoa}
use baton_tenable_vm.Server.Handlers.{user, with_number, write_json}
use baton_tenable_vm.Server.Handlers.Numbers.{IsInt64, atoi-itoa}
use baton_tenable_vm.Server.Handlers.Users.{get_user, set_user_enabled_handler}
use baton_tenable_vm.Server.Json.Answers.{payload_json}
use baton_tenable_vm.Server.Json.Bodies.{read_enabled_body}
use baton_tenable_vm.Server.State.{State}
use baton_tenable_vm.Server.State.Users.{edit_user, get_user_by_id, set_user_enabled, write_user}
use baton_tenable_vm.Client.Api.{UuidLibrary}
use baton_tenable_vm.Json.{find_field}

-- A user with that status
abbrev switched : State → ℕ → Bool → Server.User
switched s u enabled = record (s.user_at u) { enabled = enabled }

status_set :
    (s : State) (id : ℤ) (enabled : Bool) {u : ℕ}
    → s.users_by_id id ≡ some u
    → set_user_enabled id enabled s
      ≡ (some (switched s u enabled), write_user s u (switched s u enabled))
unfolding set_user_enabled edit_user put
status_set s id enabled known = rw (known, edit_user) refl

status_kept :
    (s : State) (id : ℤ) (enabled : Bool) {u : ℕ}
    → s.users_by_id id ≡ some u
    → get_user_by_id (write_user s u (switched s u enabled)) id ≡ some (switched s u enabled)
unfolding put get_user_by_id
status_kept s id enabled {u} known = rw (known, beq_refl u) refl

status_changed :
    (s : State) (id : ℤ) (enabled : Bool) {u : ℕ}
    → IsInt64 id
    → s.users_by_id id ≡ some u
    → set_user_enabled_handler (itoa id) (some (record { enabled = enabled })) s
      ≡ (write_json 200 (user (switched s u enabled)), write_user s u (switched s u enabled))
unfolding set_user_enabled_handler
status_changed s id enabled fits known =
    rw (set_user_enabled_handler, with_number, atoi-itoa id fits, status_set s id enabled known)
      refl

status_read :
    (s : State) (id : ℤ) (enabled : Bool) {u : ℕ}
    → IsInt64 id
    → s.users_by_id id ≡ some u
    → get_user (itoa id) "true" (write_user s u (switched s u enabled))
      ≡ (write_json 200 (user (switched s u enabled)), write_user s u (switched s u enabled))
unfolding get_user
status_read s id enabled {u} fits known =
    rw (get_user, with_number, atoi-itoa id fits, status_kept s id enabled known) refl

-- Where the user with a 64-bit number is known and has roles whose uuids are texts of uuids, the client's
-- PUT of the status of that number is answered with 200 and an object that the client reads as the user
-- with the new status and all else as it was; the following GET with roles gives the same answer and
-- changes nothing.
pub set_user_enabled-get_user :
    (lib : UuidLibrary) (nil_uuid : lib.Uuid) (s : State) (id : ℤ) (enabled : Bool)
    (held : List (Role lib.Uuid)) {u : ℕ}
    → IsInt64 id
    → s.users_by_id id ≡ some u
    → (s.user_at u).rbac_roles ≡ map (kept_role lib nil_uuid) held
    → let sent = decoded (read_enabled_body (body_json lib (user_enabled_body enabled))) in
      let (answer, t) = set_user_enabled_handler (itoa id) sent s in
      (answer.status ≡ 200)
      × (Option.map (read_user lib nil_uuid) (payload_json answer.payload)
          ≡ some (ok (record (client_user lib nil_uuid (s.user_at u) held) { enabled = enabled })))
      × (get_user (itoa id) "true" t ≡ (answer, t))
unfolding find_field
set_user_enabled-get_user lib nil_uuid s id enabled held {u} fits known kept =
    rw (status_changed s id enabled fits known) (
      refl,
      ap some (read_user-user_json lib nil_uuid (switched s u enabled) held kept),
      status_read s id enabled fits known,
    )
