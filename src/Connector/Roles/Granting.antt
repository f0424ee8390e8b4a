-- ===== src/Connector/Roles/Granting.antt =====
-- Granting a role (pkg/connector/roles.go) through an API that answers.
use baton_tenable_vm.Prelude.{
  Bool, Bool-cases, String, [], arith, contains, false, if◌then◌else◌, inl, inr, not, put, refl,
  some, string_eq, true, ℕ_eq, ℤ_eq, ◌&&◌, ◌||◌, ◌∙◌, ◌∷◌, ◌≡◌,
}
use baton_tenable_vm.Client.Action.{ok}
use baton_tenable_vm.Client.Api.{UuidLibrary}
use baton_tenable_vm.Client.Types.{User}
use baton_tenable_vm.Connector.Base.{
  grant_already_exists, Connector, re_enable_user_if_needed, user_type,
}
use baton_tenable_vm.Connector.Decimal.{itoa}
use baton_tenable_vm.Connector.Roles.{grant_role}
use baton_tenable_vm.Connector.Roles.Answers.{RoleAnswers, role_ids}
use baton_tenable_vm.Connector.Accounts.{still}

module _ (lib : UuidLibrary) {W : Type 0} (c : Connector lib.Uuid W) (a : RoleAnswers lib c.client)
    (id : String) where
  -- The user is known and is enabled as said.
  abbrev pub StatusIs : W → Bool → Type 0
  StatusIs w enabled = (u : User lib.Uuid) × (a.user w id ≡ some u) × (u.enabled ≡ enabled)

  -- `u` is what was read of the user, whose status is the same in `v`.
  re_enable_lem :
      (v : W) (u : User lib.Uuid)
      → itoa u.id ≡ id
      → StatusIs v u.enabled
      → (w' : W) × (re_enable_user_if_needed c u "role" v ≡ (ok tt, w'))
        × (a.roles_of w' ≡ a.roles_of v)
        × StatusIs w' (u.enabled || c.enable_on_provision)
  unfolding re_enable_user_if_needed
  re_enable_lem v u numbered (u', known, same) =
      elim (Bool-cases (not u.enabled && c.enable_on_provision)) [
        | inl needed ↦
            let (u2, w', enabled, held, now, active) = a.enable v id u' known in
            (
              w',
              rw (needed, numbered, enabled) refl,
              held,
              (u2, now, ground (arith, active, needed)),
            )
        | inr not_needed ↦
            (v, rw not_needed refl, refl, (u', known, ground (arith, same, not_needed)))
      ]

  module _ (w : W) (u : User lib.Uuid) (role : String) (known : a.user w id ≡ some u)
      (numbered : itoa u.id ≡ id) where
    grant_held :
        contains (a.roles_of w u.uuid) role ≡ true
        → (w' : W) × (grant_role lib c
              (record { resource_type = user_type; resource = id })
              (record { resource_type = "role"; resource = role })
              w
            ≡ (ok (grant_already_exists ∷ []), w'))
          × (a.roles_of w' ≡ a.roles_of w)
          × StatusIs w' (u.enabled || c.enable_on_provision)
    unfolding grant_role
    grant_held held =
        let (r, read, same) = a.read_user_roles w id u known in
        let (w', enabled, kept, status) = re_enable_lem w u numbered (u, known, refl) in
        (w', rw (a.read_user w id u known, read, same, held, enabled) refl, kept, status)

    grant_new :
        contains (role_ids lib (a.roles w)) role ≡ true
        → contains (a.roles_of w u.uuid) role ≡ false
        → (w' : W) × (grant_role lib c
              (record { resource_type = user_type; resource = id })
              (record { resource_type = "role"; resource = role })
              w
            ≡ (ok [], w'))
          × (a.roles_of w' ≡ put (a.roles_of w) u.uuid (role ∷ []))
          × StatusIs w' (u.enabled || c.enable_on_provision)
    unfolding grant_role
    grant_new offered absent =
        let (r, read, same) = a.read_user_roles w id u known in
        let (r', v, u', sent_over, put_in, now, still) = a.update w id role u known offered in
        let (w', enabled, kept, status) = re_enable_lem v u numbered (u', now, still) in
        (
          w',
          rw (a.read_user w id u known, read, same, absent, sent_over, enabled) refl,
          kept ∙ put_in,
          status,
        )

    -- Granting one of the API's roles to a user of the API succeeds. A user who holds the role keeps the
    -- roles, with the answer that the grant exists; another user is left with this role alone, and the
    -- roles of the others stay. The user is enabled afterwards if it was, or if the connector is set to
    -- enable users.
    pub grant_role_lem :
        contains (role_ids lib (a.roles w)) role ≡ true
        → (w' : W) × (grant_role lib c
              (record { resource_type = user_type; resource = id })
              (record { resource_type = "role"; resource = role })
              w
            ≡ (
              ok (if contains (a.roles_of w u.uuid) role then grant_already_exists ∷ [] else []),
              w',
            ))
          × (a.roles_of w' ≡ (
              if contains (a.roles_of w u.uuid) role
              then a.roles_of w
              else put (a.roles_of w) u.uuid (role ∷ [])))
          × StatusIs w' (u.enabled || c.enable_on_provision)
    grant_role_lem offered = elim (Bool-cases (contains (a.roles_of w u.uuid) role)) [
      | inl held ↦ rw held (grant_held held)
      | inr absent ↦ rw absent (grant_new offered absent)
    ]
