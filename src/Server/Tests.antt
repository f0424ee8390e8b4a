-- ===== src/Server/Tests.antt =====
-- The theorems about cmd/test-server at small inputs.
use baton_tenable_vm.Prelude.{
  List, String, [], arith, contains, delete_func, false, none, pos, put, refl, some, string_eq,
  true, ℕ, ℕ_eq, ℤ_eq, ◌++◌, ◌==◌, ◌∷◌, ◌≡◌,
}
use baton_tenable_vm.Server.Types.{User}
use baton_tenable_vm.Server.Calls.{create, delete, Call, perform, perform_all}
use baton_tenable_vm.Server.Interleaving.{Reach, here, next, call, Server}
use baton_tenable_vm.Server.Handlers.Routes.{post_users, serve, Request}
use baton_tenable_vm.Server.Calls.Laws.{perform_all-new_state-IsWellFormed}
use baton_tenable_vm.Server.Handlers.{bad_request}
use baton_tenable_vm.Server.Handlers.Effect.{serve-refused}
use baton_tenable_vm.Server.Handlers.Users.{create_user_handler}
use baton_tenable_vm.Server.Interleaving.AllUsers.{Reach-AllUsersComplete}
use baton_tenable_vm.Server.Invariant.{AllUsersComplete, IsWellFormed}
use baton_tenable_vm.Server.Seeds.{
  new_state, seed, seed_all, seed_group, seed_memberships, seed_permission, seed_rest, seed_role,
  seed_user,
}
use baton_tenable_vm.Server.Uuid.{format_uuid, new_deterministic_uuid, uuid_1007}
use baton_tenable_vm.Server.Uuid.Laws.{format_uuid_injective}
use baton_tenable_vm.Server.Invariant.Start.{new_state-IsWellFormed, new_state-next_user_id}
use baton_tenable_vm.Server.Lookup.{create_user-lookup, delete_user-lookup}
use baton_tenable_vm.Server.Seeds.Users.{alice}
use baton_tenable_vm.Server.State.{empty_state, recompute_group_counts_locked}
use baton_tenable_vm.Server.State.Roles.{get_user_roles}
use baton_tenable_vm.Server.State.Users.{
  create_user, delete_user, get_user_by_id, get_user_by_uuid, list_users,
}

abbrev two_calls : List Call
two_calls = create "grace" "grace@example.com" "Grace" (pos 16) ∷ delete (pos 1007) ∷ []

perform_all-new_state-IsWellFormed_example : IsWellFormed (perform_all two_calls new_state)
perform_all-new_state-IsWellFormed_example =
    perform_all-new_state-IsWellFormed two_calls (omega arith)

abbrev created_server : Server
created_server = record {
  state = perform (create "grace" "grace@example.com" "Grace" (pos 16)) new_state;
  checked = [];
}

created_Reach : Reach (record { state = new_state; checked = [] }) 1 created_server
created_Reach = next here (call (create "grace" "grace@example.com" "Grace" (pos 16)) tt refl refl)

Reach-AllUsersComplete_example : AllUsersComplete created_server.state
Reach-AllUsersComplete_example = Reach-AllUsersComplete 1 (omega arith) created_Reach

format_uuid_1007 : format_uuid (pos 1007) ≡ some "00000000-0000-4000-8000-0000000003ef"
unfolding new_deterministic_uuid
format_uuid_1007 = uuid_1007

format_uuid_injective_example : ◌≡◌ {A = ℕ} 1007 1007
format_uuid_injective_example =
    format_uuid_injective 1007 1007 (omega arith) (omega arith) format_uuid_1007 format_uuid_1007

abbrev no_password : Request
no_password = post_users (
    some (record {
      username = "grace";
      password = "";
      email = "";
      name = "Grace";
      permissions = pos 0;
    }))

refused_create :
    (serve no_password new_state).0 ≡ some (bad_request "username and password are required")
unfolding serve create_user_handler
refused_create = refl

serve-refused_example : (serve no_password new_state).1 ≡ new_state
serve-refused_example =
    serve-refused no_password new_state (bad_request "username and password are required")
      refused_create (λ e. omega (arith, e))

create_user-lookup_example :
    let t = (create_user "grace" "grace@example.com" "Grace" (pos 16) new_state).1 in
    (user : User) × ((create_user "grace" "grace@example.com" "Grace" (pos 16) new_state).0
      ≡ some user)
    × (get_user_by_id t user.id ≡ some user)
    × (get_user_by_uuid t user.uuid ≡ some user)
    × (list_users t ≡ list_users new_state ++ user ∷ [])
create_user-lookup_example =
    create_user-lookup new_state "grace" "grace@example.com" "Grace" (pos 16) new_state-IsWellFormed
      (ground (arith, new_state-IsWellFormed.numbers.counter, new_state-next_user_id))

alice_found : get_user_by_id new_state (pos 1001) ≡ some alice
unfolding get_user_by_id new_state seed seed_rest seed_all seed_role seed_group seed_user
    seed_permission seed_memberships empty_state recompute_group_counts_locked put
alice_found = refl

delete_user-lookup_example :
    let t = (delete_user (pos 1001) new_state).1 in
    ((delete_user (pos 1001) new_state).0 ≡ true)
    × (get_user_by_id t (pos 1001) ≡ none)
    × (get_user_by_uuid t alice.uuid ≡ none)
    × (get_user_roles t alice.uuid ≡ none)
    × (list_users t ≡ delete_func (λ (x : User). x.uuid == alice.uuid) (list_users new_state))
    × ((group : String) → contains (t.group_members group) alice.uuid ≡ false)
delete_user-lookup_example = delete_user-lookup new_state (pos 1001) alice alice_found
