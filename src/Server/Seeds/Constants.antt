-- ===== src/Server/Seeds/Constants.antt =====
-- The constants of cmd/test-server/seeds.go.
use baton_tenable_vm.Prelude.{String, pos, string_eq, ℕ_eq, ℤ, ℤ_eq}

abbrev pub container_uuid : String
container_uuid = "f8973c82-01a7-4aee-9754-4a61e3b3e70e"

abbrev pub role_admin_uuid : String
role_admin_uuid = "a1b2c3d4-e5f6-7890-abcd-ef1234567890"

abbrev pub role_scan_mgr_uuid : String
role_scan_mgr_uuid = "b2c3d4e5-f6a7-8901-bcde-f12345678901"

abbrev pub role_basic_uuid : String
role_basic_uuid = "c3d4e5f6-a7b8-9012-cdef-234567890abc"

abbrev pub role_custom_uuid : String
role_custom_uuid = "d4e5f6a7-b8c9-0123-def4-567890abcdef"

abbrev pub user_alice_uuid : String
user_alice_uuid = "11111111-1111-4111-8111-111111111111"

abbrev pub user_bob_uuid : String
user_bob_uuid = "22222222-2222-4222-8222-222222222222"

abbrev pub user_carol_uuid : String
user_carol_uuid = "33333333-3333-4333-8333-333333333333"

abbrev pub user_dave_uuid : String
user_dave_uuid = "44444444-4444-4444-8444-444444444444"

abbrev pub user_eve_uuid : String
user_eve_uuid = "55555555-5555-4555-8555-555555555555"

abbrev pub user_frank_uuid : String
user_frank_uuid = "66666666-6666-4666-8666-666666666666"

abbrev pub email_alice : String
email_alice = "alice@example.com"

abbrev pub email_bob : String
email_bob = "bob@example.com"

abbrev pub email_carol : String
email_carol = "carol@example.com"

abbrev pub email_dave : String
email_dave = "dave@example.com"

abbrev pub email_eve : String
email_eve = "eve@example.com"

abbrev pub email_frank : String
email_frank = "frank@example.com"

abbrev pub group_eng_uuid : String
group_eng_uuid = "aaaaaaaa-aaaa-4aaa-8aaa-aaaaaaaaaaaa"

abbrev pub group_product_uuid : String
group_product_uuid = "bbbbbbbb-bbbb-4bbb-8bbb-bbbbbbbbbbbb"

abbrev pub group_ops_uuid : String
group_ops_uuid = "cccccccc-cccc-4ccc-8ccc-cccccccccccc"

abbrev pub group_contractors_uuid : String
group_contractors_uuid = "dddddddd-dddd-4ddd-8ddd-dddddddddddd"

abbrev pub perm_assets_uuid : String
perm_assets_uuid = "eeeeeeee-eeee-4eee-8eee-eeeeeeeeeeee"

abbrev pub perm_tag_uuid : String
perm_tag_uuid = "ffffffff-ffff-4fff-8fff-ffffffffffff"

abbrev pub perm_all_users_uuid : String
perm_all_users_uuid = "a0a0a0a0-a0a0-4a0a-8a0a-a0a0a0a0a0a0"

abbrev pub perm_all_admins_uuid : String
perm_all_admins_uuid = "b0b0b0b0-b0b0-4b0b-8b0b-b0b0b0b0b0b0"

abbrev pub subject_type_user : String
subject_type_user = "User"

abbrev pub subject_type_user_group : String
subject_type_user_group = "UserGroup"

abbrev pub subject_type_all_users : String
subject_type_all_users = "AllUsers"

abbrev pub subject_type_all_admins : String
subject_type_all_admins = "AllAdmins"

abbrev pub action_can_view : String
action_can_view = "CanView"

abbrev pub action_can_scan : String
action_can_scan = "CanScan"

abbrev pub action_can_edit : String
action_can_edit = "CanEdit"

abbrev pub object_type_all_assets : String
object_type_all_assets = "AllAssets"

abbrev pub created_by_system : String
created_by_system = "System"

abbrev pub last_login_alice : ℤ
last_login_alice = pos 1787000000000

abbrev pub last_login_bob : ℤ
last_login_bob = pos 1786500000000

abbrev pub last_login_carol : ℤ
last_login_carol = pos 1780000000000

abbrev pub last_login_eve : ℤ
last_login_eve = pos 1786900000000

abbrev pub last_login_frank : ℤ
last_login_frank = pos 1786100000000

abbrev pub role_status_enabled : String
role_status_enabled = "ENABLED"

abbrev pub role_type_standard : String
role_type_standard = "STANDARD"

abbrev pub role_type_custom : String
role_type_custom = "CUSTOM"

abbrev pub role_name_basic : String
role_name_basic = "Basic"

abbrev pub perm_vuln_read : String
perm_vuln_read = "TIO_BACKEND.VULNERABILITY.READ"
