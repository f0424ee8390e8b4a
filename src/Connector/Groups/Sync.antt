-- ===== src/Connector/Groups/Sync.antt =====
-- Granting a membership and reading the grants of the group's resource: pkg/connector/groups.go.
use Prim.Native.String
use baton_tenable_vm.Prelude.{
  Bool, List, Option, String, [], ap, contains, delete_eq, false, if◌then◌else◌, map, not, refl,
  some, string_eq, true, ℕ_eq, ℤ_eq, ◌++◌, ◌∙◌, ◌∷◌, ◌≡◌,
}
use baton_tenable_vm.Client.Types.{User, Group}
use baton_tenable_vm.Client.Action.{ok, failed}
use baton_tenable_vm.Client.Api.{UuidLibrary}
use baton_tenable_vm.Connector.Base.{
  grant_already_exists, grant_already_revoked, Connector, ResourceId,
}
use baton_tenable_vm.Connector.Decimal.{itoa}
use baton_tenable_vm.Connector.Groups.{grant_membership, revoke_membership}
use baton_tenable_vm.Connector.Groups.Effect.{
  MembersAre, grant_membership_lem, revoke_membership_lem,
}
use baton_tenable_vm.Connector.Groups.Answers.{GroupAnswers, ids}
use baton_tenable_vm.Connector.Groups.Listing.{
  group_grants, member_grant, parse_into_group_resource,
}
use baton_tenable_vm.Connector.Sdk.{NewGrant, Sdk}

members_granted :
    (lib : UuidLibrary) (sdk : Sdk) (resource : ResourceId) (members : List (User lib.Uuid))
    → map (λ (g : NewGrant). g.principal.resource) (map (member_grant lib sdk resource) members)
      ≡ ids members
members_granted lib sdk resource [] = refl
members_granted lib sdk resource (m ∷ members) = rw (members_granted lib sdk resource members) refl

-- The grants of the resource that the connector lists for a group have the group's members as
-- their principals, in order and by number.
group_grants-members :
    (lib : UuidLibrary) (sdk : Sdk) {W : Type 0} (c : Connector lib.Uuid W)
    (a : GroupAnswers lib c.client) (w : W) (parent : Option ResourceId) (group : Group)
    (r : sdk.Resource) (numbers : List String)
    → parse_into_group_resource lib sdk parent group ≡ ok r
    → MembersAre lib c a w (itoa group.id) numbers
    → (grants : List NewGrant) × (group_grants lib sdk c r w ≡ (ok grants, w))
      × (map (λ (g : NewGrant). g.principal.resource) grants ≡ numbers)
unfolding parse_into_group_resource group_grants
group_grants-members lib sdk c a w parent group r numbers made (ms, listed, same) = (
  map (member_grant lib sdk (sdk.id r)) ms,
  rw (sdk.group_resource-id _ _ _ _ r made, a.read_members w (itoa group.id) ms listed) refl,
  members_granted lib sdk (sdk.id r) ms ∙ same,
)

module _ (lib : UuidLibrary) (sdk : Sdk) {W : Type 0} (c : Connector lib.Uuid W)
    (a : GroupAnswers lib c.client) (w : W) (id : String) (u : User lib.Uuid)
    (ms : List (User lib.Uuid)) (known : a.user w id ≡ some u) (numbered : itoa u.id ≡ id)
    (parent : Option ResourceId) (group : Group) (r : sdk.Resource)
    (made : parse_into_group_resource lib sdk parent group ≡ ok r)
    (listed : a.members w (itoa group.id) ≡ some ms)
    (free : a.membership_fixed w (itoa group.id) ≡ false) where
  granted-ok :
      (member : Bool) (reason : String)
      → (if member
          then ok (grant_already_exists ∷ [])
          else if a.membership_fixed w (itoa group.id)
          then failed (String.◌++◌ "baton-tenable-vm: failed to add user to group: " reason)
          else ok [])
        ≡ ok (if member then grant_already_exists ∷ [] else [])
  granted-ok true reason = refl
  granted-ok false reason = rw free refl

  revoked-ok :
      (member : Bool) (reason : String)
      → (if not member
          then ok (grant_already_revoked ∷ [])
          else if a.membership_fixed w (itoa group.id)
          then failed (String.◌++◌ "baton-tenable-vm: failed to remove user from group: " reason)
          else ok [])
        ≡ ok (if member then [] else grant_already_revoked ∷ [])
  revoked-ok false reason = refl
  revoked-ok true reason = rw free refl

  -- A user of the API to whom the membership of a listed group is granted, whose membership is not
  -- fixed, is among the principals of the grants that the connector then reads of the group's resource:
  -- behind those of before, or where it was if it was among them.
  pub grant_membership-group_grants :
      (w' : W) × (grants : List NewGrant) × (grant_membership lib c
          (record { resource_type = "user"; resource = id })
          (record { resource_type = "group"; resource = itoa group.id })
          w
        ≡ (ok (if contains (ids ms) id then grant_already_exists ∷ [] else []), w'))
      × (group_grants lib sdk c r w' ≡ (ok grants, w'))
      × (map (λ (g : NewGrant). g.principal.resource) grants
          ≡ (if contains (ids ms) id then ids ms else ids ms ++ id ∷ []))
  grant_membership-group_grants =
      let (reason, w', granted, members) =
        grant_membership_lem lib c a w id (itoa group.id) u ms known numbered listed in
      let (grants, read, principals) =
        group_grants-members lib sdk c a w' parent group r _ made members in
      (
        w',
        grants,
        granted ∙ ap (λ x. (x, w')) (granted-ok (contains (ids ms) id) reason),
        read,
        principals ∙ rw free refl,
      )

  -- A user of the API from whom the membership of a listed group is revoked, whose membership is not
  -- fixed, is not among the principals of the grants that the connector then reads of the group's
  -- resource: these are those of before without the user, in order.
  pub revoke_membership-group_grants :
      (w' : W) × (grants : List NewGrant) × (revoke_membership lib c
          (record { resource_type = "user"; resource = id })
          (record { resource_type = "group"; resource = itoa group.id })
          w
        ≡ (ok (if contains (ids ms) id then [] else grant_already_revoked ∷ []), w'))
      × (group_grants lib sdk c r w' ≡ (ok grants, w'))
      × (map (λ (g : NewGrant). g.principal.resource) grants ≡ delete_eq (ids ms) id)
  revoke_membership-group_grants =
      let (reason, w', revoked, members) =
        revoke_membership_lem lib c a w id (itoa group.id) u ms known numbered listed in
      let (grants, read, principals) =
        group_grants-members lib sdk c a w' parent group r _ made members in
      (
        w',
        grants,
        revoked ∙ ap (λ x. (x, w')) (revoked-ok (contains (ids ms) id) reason),
        read,
        principals ∙ rw free refl,
      )
