-- ===== src/Connector/Users/Accounts.antt =====
-- `CreateAccount` of pkg/connector/users.go.
use baton_tenable_vm.Prelude.{
  Option, String, ap, arith, none, pos, refl, some, string_eq, subst, ℕ_eq, ℤ_eq, ◌≡◌,
}
use baton_tenable_vm.Client.Types.{User}
use baton_tenable_vm.Client.Action.{◌>>=◌, ok, failed, Action, Result, context, lift, pure}
use baton_tenable_vm.Client.Api.{UuidLibrary}
use baton_tenable_vm.Connector.Base.{Connector}
use baton_tenable_vm.Connector.Sdk.{Sdk}
use baton_tenable_vm.Connector.Users.{
  create_account, new_account, parse_into_user_resource, account_resource, account_user,
}

abbrev pair_of : {A B : Type 0} → A → B → A × B
pair_of a b = (a, b)

module _ (lib : UuidLibrary) (sdk : Sdk) {W : Type 0} (c : Connector lib.Uuid W)
    (generate_credentials : Action W String) where
  -- What lies behind an account: a password, the user that the API created with it, under the email as
  -- user name and with the permissions 16 of the Basic role, and the resource
  -- that the connector lists for that user
  abbrev pub Created : String → String → W → sdk.Resource → String → W → Type 0
  Created email name w resource password w' =
      (v : W) × (user : User lib.Uuid) × (generate_credentials w ≡ (ok password, v))
      × (c.client.create_user
            (record {
              username = email;
              password = password;
              email = email;
              name = name;
              permissions = pos 16;
            })
            v
          ≡ (ok user, w'))
      × (parse_into_user_resource lib sdk none user ≡ ok resource)

  built :
      (email name q : String) (w v v' : W) (user : User lib.Uuid) (x : Result sdk.Resource)
      (resource : sdk.Resource) (password : String) (w' : W)
      → generate_credentials w ≡ (ok q, v)
      → c.client.create_user (new_account email name q) v ≡ (ok user, v')
      → parse_into_user_resource lib sdk none user ≡ x
      → (context "failed to build resource: " (lift x) >>= λ (r : sdk.Resource). pure (pair_of r q))
          v'
        ≡ (ok (pair_of resource password), w')
      → Created email name w resource password w'
  built email name q w v v' user (failed reason) resource password w' gen sent parsed e =
      absurd (ground arith)
  built email name q w v v' user (ok r) resource password w' gen sent parsed e =
      let same_world : v' ≡ w' = ap (λ (x : Result (sdk.Resource × String) × W). x.1) e in
      let same_resource : r ≡ resource = ground (arith, e) in
      let same_password : q ≡ password = ground (arith, e) in
      (
        v,
        user,
        subst (λ x. generate_credentials w ≡ (ok x, v)) same_password gen,
        subst (λ u. c.client.create_user (new_account email name password) v ≡ (ok user, u))
            same_world
            (subst (λ x. c.client.create_user (new_account email name x) v ≡ (ok user, v'))
              same_password sent),
        subst (λ x. parse_into_user_resource lib sdk none user ≡ ok x) same_resource parsed,
      )

  created :
      (email name q : String) (w v : W) (x : Result (User lib.Uuid) × W) (resource : sdk.Resource)
      (password : String) (w' : W)
      → generate_credentials w ≡ (ok q, v)
      → c.client.create_user (new_account email name q) v ≡ x
      → (context "failed to create user: " (λ (_ : W). x) >>= account_resource lib sdk c q) v
        ≡ (ok (pair_of resource password), w')
      → Created email name w resource password w'
  created email name q w v (failed reason, v') resource password w' gen sent e =
      absurd (ground arith)
  created email name q w v (ok user, v') resource password w' gen sent e =
      built email name q w v v' user (parse_into_user_resource lib sdk none user) resource password
        w' gen sent refl e

  given :
      (email name : String) (w w' : W) (resource : sdk.Resource) (password : String)
      (x : Result String × W)
      → generate_credentials w ≡ x
      → ((λ (_ : W). x) >>= account_user lib sdk c email name) w
        ≡ (ok (pair_of resource password), w')
      → Created email name w resource password w'
  given email name w w' resource password (failed reason, v) gen e = absurd (ground arith)
  given email name w w' resource password (ok q, v) gen e =
      created email name q w v (c.client.create_user (new_account email name q) v) resource password
        w' gen refl e

  -- An account is only answered for a profile with an email and a name. Its password is one that
  -- `generateCredentials` returned and with which the API created the user, under the email as user
  -- name and with the basic permissions; its resource is the one that is listed for that user.
  pub create_account_lem :
      (email name : Option String) (w w' : W) (resource : sdk.Resource) (password : String)
      → create_account lib sdk c generate_credentials email name w
        ≡ (ok (pair_of resource password), w')
      → (e : String) × (n : String) × (email ≡ some e)
        × (name ≡ some n)
        × Created e n w resource password w'
  unfolding create_account
  create_account_lem none name w w' resource password h = absurd (ground arith)
  create_account_lem (some email) none w w' resource password h = absurd (ground arith)
  create_account_lem (some email) (some name) w w' resource password h = (
    email,
    name,
    refl,
    refl,
    given email name w w' resource password (generate_credentials w) refl h,
  )
