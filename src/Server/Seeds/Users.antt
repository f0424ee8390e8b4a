-- ===== src/Server/Seeds/Users.antt =====
-- The users of `seed` in cmd/test-server/seeds.go.
use baton_tenable_vm.Prelude.{List, [], false, pos, string_eq, true, ℕ_eq, ℤ_eq, ◌∷◌}
use baton_tenable_vm.Server.Types.{User}
use baton_tenable_vm.Server.State.Users.{all_users_group_uuid}
use baton_tenable_vm.Server.Seeds.Constants.{
  container_uuid, role_admin_uuid, role_scan_mgr_uuid, role_basic_uuid, role_custom_uuid,
  user_alice_uuid, user_bob_uuid, user_carol_uuid, user_dave_uuid, user_eve_uuid, user_frank_uuid,
  email_alice, email_bob, email_carol, email_dave, email_eve, email_frank, group_eng_uuid,
  group_product_uuid, group_ops_uuid, last_login_alice, last_login_bob, last_login_carol,
  last_login_eve, last_login_frank, role_name_basic,
}

abbrev pub alice : User
alice = record {
  uuid = user_alice_uuid;
  id = pos 1001;
  username = email_alice;
  email = email_alice;
  name = "Alice Admin";
  permissions = pos 64;
  enabled = true;
  last_login = last_login_alice;
  container_uuid = container_uuid;
  group_uuids = all_users_group_uuid ∷ group_eng_uuid ∷ [];
  rbac_roles = record { uuid = role_admin_uuid; name = "Administrator" } ∷ [];
}

abbrev pub bob : User
bob = record {
  uuid = user_bob_uuid;
  id = pos 1002;
  username = email_bob;
  email = email_bob;
  name = "Bob Builder";
  permissions = pos 40;
  enabled = true;
  last_login = last_login_bob;
  container_uuid = container_uuid;
  group_uuids = all_users_group_uuid ∷ group_eng_uuid ∷ group_product_uuid ∷ [];
  rbac_roles = record { uuid = role_scan_mgr_uuid; name = "Scan Manager" } ∷ [];
}

abbrev pub carol : User
carol = record {
  uuid = user_carol_uuid;
  id = pos 1003;
  username = email_carol;
  email = email_carol;
  name = "Carol Disabled";
  permissions = pos 16;
  enabled = false;
  last_login = last_login_carol;
  container_uuid = container_uuid;
  group_uuids = all_users_group_uuid ∷ group_product_uuid ∷ [];
  rbac_roles = record { uuid = role_basic_uuid; name = role_name_basic } ∷ [];
}

abbrev pub dave : User
dave = record {
  uuid = user_dave_uuid;
  id = pos 1004;
  username = email_dave;
  email = email_dave;
  name = "Dave Lonely";
  permissions = pos 16;
  enabled = true;
  last_login = pos 0;
  container_uuid = container_uuid;
  group_uuids = all_users_group_uuid ∷ [];
  rbac_roles = record { uuid = role_basic_uuid; name = role_name_basic } ∷ [];
}

abbrev pub eve : User
eve = record {
  uuid = user_eve_uuid;
  id = pos 1005;
  username = email_eve;
  email = email_eve;
  name = "Eve Operator";
  permissions = pos 32;
  enabled = true;
  last_login = last_login_eve;
  container_uuid = container_uuid;
  group_uuids = all_users_group_uuid ∷ group_ops_uuid ∷ [];
  rbac_roles = record { uuid = role_custom_uuid; name = "Security Analyst" } ∷ [];
}

abbrev pub frank : User
frank = record {
  uuid = user_frank_uuid;
  id = pos 1006;
  username = email_frank;
  email = email_frank;
  name = "Frank Noroles";
  permissions = pos 16;
  enabled = true;
  last_login = last_login_frank;
  container_uuid = container_uuid;
  group_uuids = all_users_group_uuid ∷ [];
  rbac_roles = [];
}

abbrev pub seed_users : List User
seed_users = alice ∷ bob ∷ carol ∷ dave ∷ eve ∷ frank ∷ []
