-- ===== src/Connector/Groups/Effect.antt =====
-- Granting and revoking a membership (pkg/connector/groups.go) through an API that answers.
use Prim.Native.String
use baton_tenable_vm.Prelude.{
  Bool, Bool-cases, List, String, [], ap, beq→eq, contains, delete_eq, delete_eq-absent, false,
  if◌then◌else◌, inl, inr, none, not, refl, some, string_eq, sym, true, ℕ_eq, ℤ_eq, ◌&&◌, ◌++◌,
  ◌==◌, ◌∙◌, ◌∷◌, ◌≡◌, ◌⊎◌,
}
use baton_tenable_vm.Client.Action.{ok, failed}
use baton_tenable_vm.Connector.Base.{
  grant_already_exists, grant_already_revoked, Connector, ResourceId, re_enable_user_if_needed,
  user_type,
}
use baton_tenable_vm.Client.Api.{UuidLibrary}
use baton_tenable_vm.Client.Types.{User}
use baton_tenable_vm.Connector.Decimal.{itoa}
use baton_tenable_vm.Connector.Groups.Answers.{GroupAnswers, ids}
use baton_tenable_vm.Connector.Groups.{
  find_member, grant_membership, grant_found, revoke_found, revoke_membership, after_grant,
}
use baton_tenable_vm.Connector.Accounts.{still}
use baton_tenable_vm.Connector.Sdk.{joined}

abbrev group_resource : String → ResourceId
group_resource id = record { resource_type = "group"; resource = id }

module _ (lib : UuidLibrary) {W : Type 0} (c : Connector lib.Uuid W)
    (a : GroupAnswers lib c.client) where
  -- Finding a member is the question whether its number is among the members' numbers.
  find_member_cases :
      (id : String) (ms : List (User lib.Uuid))
      → ((find_member lib c id ms ≡ none) × (contains (ids ms) id ≡ false))
        ⊎ ((m : User lib.Uuid) × (find_member lib c id ms ≡ some m)
            × (itoa m.id ≡ id)
            × (contains (ids ms) id ≡ true))
  unfolding find_member contains
  find_member_cases id [] = inl (refl, refl)
  find_member_cases id (m ∷ ms) = elim (Bool-cases (itoa m.id == id)) [
    | inl same ↦ inr (m, rw same refl, beq→eq (itoa m.id) id same, rw same refl)
    | inr other ↦ rw other (find_member_cases id ms)
  ]

  -- The group has members with these numbers.
  abbrev pub MembersAre : W → String → List String → Type 0
  MembersAre w group numbers =
      (ms : List (User lib.Uuid)) × (a.members w group ≡ some ms) × (ids ms ≡ numbers)

  re_enable_lem :
      (w : W) (m : User lib.Uuid) (id : String) (u : User lib.Uuid) (why : String)
      → a.user w id ≡ some u
      → itoa m.id ≡ id
      → (w' : W) × (re_enable_user_if_needed c m why w ≡ (ok tt, w'))
        × ((group : String) (ms : List (User lib.Uuid))
            → a.members w group ≡ some ms
            → MembersAre w' group (ids ms))
  unfolding re_enable_user_if_needed
  re_enable_lem w m id u why known numbered =
      elim (Bool-cases (not m.enabled && c.enable_on_provision)) [
        | inl needed ↦
            let (u', w', enabled, same) = a.enable w id u known in
            (w', rw (needed, numbered, enabled) refl, same)
        | inr not_needed ↦ (w, rw not_needed refl, λ group ms e. (ms, e, refl))
      ]

  -- the principal and the group of the two handlers
  module _ (w : W) (id group : String) (u : User lib.Uuid) (ms : List (User lib.Uuid))
      (known : a.user w id ≡ some u) (numbered : itoa u.id ≡ id)
      (listed : a.members w group ≡ some ms) where
    after_grant_lem :
        (v : W) (on : Bool) (u' : User lib.Uuid) (ms' : List (User lib.Uuid))
        → a.user v id ≡ some u'
        → itoa u'.id ≡ id
        → a.members v group ≡ some ms'
        → (w' : W) × (after_grant lib c on id v ≡ (ok [], w')) × MembersAre w' group (ids ms')
    unfolding after_grant
    after_grant_lem v true u' ms' known' numbered' listed' =
        let (w', enabled, same) = re_enable_lem v u' id u' "group membership" known' numbered' in
        (w', rw (a.read_user v id u' known', enabled) refl, same group ms' listed')
    after_grant_lem v false u' ms' known' numbered' listed' = (v, refl, (ms', listed', refl))

    grant_found-some :
        (m : User lib.Uuid)
        → itoa m.id ≡ id
        → (w' : W) × (grant_found lib c id group (some m) w ≡ (ok (grant_already_exists ∷ []), w'))
          × MembersAre w' group (ids ms)
    unfolding grant_found
    grant_found-some m same_number =
        let (w', enabled, same) = re_enable_lem w m id u "group membership" known same_number in
        (w', rw enabled refl, same group ms listed)

    grant_found-open :
        a.membership_fixed w group ≡ false
        → contains (ids ms) id ≡ false
        → (w' : W) × (grant_found lib c id group none w ≡ (ok [], w'))
          × MembersAre w' group (ids ms ++ id ∷ [])
    unfolding grant_found
    grant_found-open free absent =
        let (v, u', ms', joined, still, same_id, same_status, now, added) =
          a.create w group id u ms known listed free absent in
        let (w', ended, (ms2, last, same)) =
          after_grant_lem v c.enable_on_provision u' ms' still (ap itoa same_id ∙ numbered) now in
        (w', rw (joined, ended) refl, (ms2, last, same ∙ added))

    grant_found-fixed :
        a.membership_fixed w group ≡ true
        → (reason : String) × (grant_found lib c id group none w
            ≡ (failed (String.◌++◌ "baton-tenable-vm: failed to add user to group: " reason), w))
    unfolding grant_found
    grant_found-fixed fixed =
        let (reason, e) = (a.refused w group id u ms known listed fixed).0 in (reason, rw e refl)

    pub grant_membership_lem :
        (reason : String) × (w' : W) × (grant_membership lib c
            (record { resource_type = user_type; resource = id })
            (group_resource group)
            w
          ≡ (
            if contains (ids ms) id
                then ok (grant_already_exists ∷ [])
                else if a.membership_fixed w group
                then failed (String.◌++◌ "baton-tenable-vm: failed to add user to group: " reason)
                else ok [],
            w',
          ))
        × MembersAre w' group (
            if contains (ids ms) id
            then ids ms
            else if a.membership_fixed w group
            then ids ms
            else ids ms ++ id ∷ [])
    unfolding grant_membership
    grant_membership_lem = elim (find_member_cases id ms) [
      | inr (m, found, same_number, member) ↦
          rw (a.read_members w group ms listed, found, member)
            (let (w', granted, same) = grant_found-some m same_number in ("", w', granted, same))
      | inl (missing, absent) ↦ elim (Bool-cases (a.membership_fixed w group)) [
        | inl fixed ↦
            let (reason, refusal) = grant_found-fixed fixed in
            rw (a.read_members w group ms listed, missing, absent, fixed)
              (reason, w, refusal, (ms, listed, refl))
        | inr free ↦
            rw (a.read_members w group ms listed, missing, absent, free)
              (let (w', granted, added) = grant_found-open free absent in ("", w', granted, added))
      ]
    ]

    revoke_found-open :
        (m : User lib.Uuid)
        → a.membership_fixed w group ≡ false
        → contains (ids ms) id ≡ true
        → (w' : W) × (revoke_found lib c id group (some m) w ≡ (ok [], w'))
          × MembersAre w' group (delete_eq (ids ms) id)
    unfolding revoke_found
    revoke_found-open m free member =
        let (w', ms', deleted, now, removed) = a.delete w group id u ms known listed free member in
        (w', rw deleted refl, (ms', now, removed))

    revoke_found-fixed :
        (m : User lib.Uuid)
        → a.membership_fixed w group ≡ true
        → (reason : String) × (revoke_found lib c id group (some m) w ≡ (
          failed (String.◌++◌ "baton-tenable-vm: failed to remove user from group: " reason),
          w,
        ))
    unfolding revoke_found
    revoke_found-fixed m fixed =
        let (reason, e) = (a.refused w group id u ms known listed fixed).1 in (reason, rw e refl)

    revoke_found-none : revoke_found lib c id group none w ≡ (ok (grant_already_revoked ∷ []), w)
    unfolding revoke_found
    revoke_found-none = refl

    pub revoke_membership_lem :
        (reason : String) × (w' : W) × (revoke_membership lib c
            (record { resource_type = user_type; resource = id })
            (group_resource group)
            w
          ≡ (
            if not (contains (ids ms) id)
                then ok (grant_already_revoked ∷ [])
                else if a.membership_fixed w group
                then failed
                    (String.◌++◌ "baton-tenable-vm: failed to remove user from group: " reason)
                else ok [],
            w',
          ))
        × MembersAre w' group (if a.membership_fixed w group then ids ms else delete_eq (ids ms) id)
    unfolding revoke_membership
    revoke_membership_lem = elim (find_member_cases id ms) [
      | inl (missing, absent) ↦
          rw (a.read_members w group ms listed, missing, absent)
            ("", w, revoke_found-none, (ms, listed, unchanged absent))
      | inr (m, found, same_number, member) ↦ elim (Bool-cases (a.membership_fixed w group)) [
        | inl fixed ↦
            let (reason, refusal) = revoke_found-fixed m fixed in
            rw (a.read_members w group ms listed, found, member, fixed)
              (reason, w, refusal, (ms, listed, refl))
        | inr free ↦
            rw (a.read_members w group ms listed, found, member, free)
              (let (w', revoked, removed) = revoke_found-open m free member in
                ("", w', revoked, removed))
      ]
    ]
      where
        unchanged :
            contains (ids ms) id ≡ false
            → ids ms ≡ (if a.membership_fixed w group then ids ms else delete_eq (ids ms) id)
        unchanged absent = elim (Bool-cases (a.membership_fixed w group)) [
          | inl fixed ↦ rw fixed refl
          | inr free ↦ rw free (sym (delete_eq-absent (ids ms) id absent))
        ]
