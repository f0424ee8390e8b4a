-- ===== src/Connector/Accounts/Effect.antt =====
-- What the answers of the account handlers of pkg/connector/users.go and actions.go say of the API.
use baton_tenable_vm.Prelude.{
  Bool, Bool-cases, Option, String, arith, bool_eq, false, if◌then◌else◌, inl, inr, none, refl,
  some, string_eq, sym, true, ℕ_eq, ℤ_eq, ◌≡◌,
}
use baton_tenable_vm.Client.Types.{User}
use baton_tenable_vm.Connector.Accounts.{
  invalid, missing, user_id, Arguments, Value, account_action, delete_account,
  extract_action_user_id, failure, set_enabled, still, action_for,
}
use baton_tenable_vm.Client.Action.{Result, ok, failed, ◌>>=◌, context, fail, pure}
use baton_tenable_vm.Connector.Base.{Connector, ResourceId}

bool_eq→eq : (a b : Bool) → bool_eq a b ≡ true → a ≡ b
bool_eq→eq true b same = sym same
bool_eq→eq false true same = same
bool_eq→eq false false same = refl

module _ {Uuid W : Type 0} (c : Connector Uuid W) where
  -- the answer of the client that lies behind a success
  answer :
      {A : Type 0} (enabled : Bool) (id : String) (result : A) (x : Result (User Uuid) × W) (w : W)
      (r : A)
      → ((context (failure c enabled) (λ (_ : W). x) >>= λ user.
            if bool_eq user.enabled enabled then pure result else fail (still c enabled id))
          w).0
        ≡ ok r
      → (user : User Uuid) × (x.0 ≡ ok user) × (user.enabled ≡ enabled)
  answer enabled id result (failed reason, v) w r e = absurd (ground arith)
  answer enabled id result (ok user, v) w r e = elim (Bool-cases (bool_eq user.enabled enabled)) [
    | inl same ↦ (user, refl, bool_eq→eq user.enabled enabled same)
    | inr different ↦ absurd (ground (arith, different))
  ]

  action_found :
      (enabled : Bool) (value : Value) (o : Option String) (w : W) (r : Bool)
      → (action_for c enabled o w).0 ≡ ok r
      → (id : String) × (user : User Uuid) × (o ≡ some id)
        × ((set_enabled c enabled id w).0 ≡ ok user)
        × (user.enabled ≡ enabled)
  action_found enabled value none w r e = absurd (ground arith)
  action_found enabled value (some id) w r e =
      let (user, replied, same) = answer enabled id true (set_enabled c enabled id w) w r e in
      (id, user, refl, replied, same)

  -- If the enabling or the disabling action reports a result, then its argument names an account, and
  -- the API was asked for that account and answered with a user that is enabled or disabled as wanted.
  pub account_action_lem :
      (enabled : Bool) (arguments : Arguments) (w : W) (r : Bool)
      → (account_action c enabled arguments w).0 ≡ ok r
      → (value : Value) × (id : String) × (user : User Uuid) × (arguments ≡ user_id value)
        × (extract_action_user_id value ≡ some id)
        × ((set_enabled c enabled id w).0 ≡ ok user)
        × (user.enabled ≡ enabled)
  unfolding account_action
  account_action_lem enabled invalid w r e = absurd (ground arith)
  account_action_lem enabled missing w r e = absurd (ground arith)
  account_action_lem enabled (user_id value) w r e =
      let (id, user, found, replied, same) =
        action_found enabled value (extract_action_user_id value) w r e in
      (value, id, user, refl, found, replied, same)

  -- If the deletion of an account succeeds, then the API was asked to disable the account and answered
  -- with a user that is disabled.
  pub delete_account_lem :
      (resource : ResourceId) (w : W)
      → (delete_account c resource w).0 ≡ ok tt
      → (user : User Uuid) × ((c.client.disable_user resource.resource w).0 ≡ ok user)
        × (user.enabled ≡ false)
  unfolding delete_account
  delete_account_lem resource w e =
      answer false resource.resource tt (c.client.disable_user resource.resource w) w tt e
