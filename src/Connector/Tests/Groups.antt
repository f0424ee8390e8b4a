-- ===== src/Connector/Tests/Groups.antt =====
-- The theorems about pkg/connector/groups.go at a small API.
use baton_tenable_vm.Connector.Sdk.{with_resource_profile, NewGrant}
use baton_tenable_vm.Client.Types.{Group, User}
use baton_tenable_vm.Prelude.{
  Bool, List, Option, String, [], ap, arith, beq→eq, contains, delete_eq, false, if◌then◌else◌, map,
  none, pos, refl, some, string_eq, subst, sym, true, ℕ_eq, ℤ_eq, ◌++◌, ◌==◌, ◌∷◌, ◌≡◌,
}
use baton_tenable_vm.Client.Action.{ok, failed, Result}
use baton_tenable_vm.Connector.Base.{Connector}
use baton_tenable_vm.Connector.Groups.Answers.{GroupAnswers, ids}
use baton_tenable_vm.Client.Api.{Api}
use baton_tenable_vm.Connector.Decimal.{itoa, itoa_seven, decimal, digit}
use baton_tenable_vm.Connector.Groups.{grant_membership, revoke_membership}
use baton_tenable_vm.Connector.Tests.Small.{start, text_uuid}
use baton_tenable_vm.Connector.Groups.Listing.{
  group_grants, group_profile, parse_into_group_resource,
}
use baton_tenable_vm.Connector.Groups.Sync.{
  grant_membership-group_grants, revoke_membership-group_grants,
}
use baton_tenable_vm.Connector.Tests.Listing.{Made, everyone, small_sdk}
use baton_tenable_vm.Server.Uuid.{char_at}

-- An API with one user, who is a member of group 3 or not, and of group 0, whose membership is fixed.
-- The user's record shows the membership of group 3.
abbrev alice_at : Bool → User String
alice_at member = record start.alice { group_uuids = if member then "g3" ∷ [] else [] }

abbrev members_of_3 : Bool → List (User String)
members_of_3 member = if member then alice_at member ∷ [] else []

abbrev members_at : Bool → String → Option (List (User String))
members_at member group =
    if group == "3"
    then some (members_of_3 member)
    else if group == "0"
    then some (alice_at member ∷ [])
    else none

abbrev answer_of : {A : Type 0} → Option A → Result A
answer_of none = failed "not found"
answer_of (some x) = ok x

abbrev user_at : Bool → String → Option (User String)
user_at w id = if id == "7" then some (alice_at w) else none

abbrev group_api : Api String Bool
group_api = record {
  get_users = λ w. (ok (alice_at w ∷ []), w);
  create_user = λ user w. (failed "no account to create", w);
  delete_user = λ id w. (failed "no account to delete", w);
  get_groups = λ w. (failed "no groups", w);
  list_permissions = λ w. (failed "no permissions", w);
  get_user_details = λ id w. (answer_of (user_at w id), w);
  enable_user = λ id w. (answer_of (user_at w id), w);
  disable_user = λ id w. (answer_of (user_at w id), w);
  get_roles = λ w. (ok [], w);
  get_user_roles = λ uuid w. (failed "no roles", w);
  update_user_roles = λ uuid role w. (failed "no roles", w);
  get_group_members = λ group w. (answer_of (members_at w group), w);
  create_user_group_membership =
      λ group user w. if group == "3" then (ok tt, true) else (failed "membership is fixed", w);
  delete_user_group_membership =
      λ group user w. if group == "3" then (ok tt, false) else (failed "removal is refused", w);
  get_permission_details = λ uuid w. (failed "no permissions", w);
  update_permission = λ p w. (failed "no permissions", w);
}

abbrev group_connector : Connector String Bool
group_connector = record { client = group_api; enable_on_provision = true }

user_at-seven :
    (w : Bool) (id : String) (u : User String) → user_at w id ≡ some u → (id == "7") ≡ true
user_at-seven w id u h = ground arith

user_at-same : (w : Bool) (id : String) (u : User String) → user_at w id ≡ some u → alice_at w ≡ u
user_at-same w id u h = ground arith

open-three :
    (w : Bool) (group : String) (ms : List (User String))
    → members_at w group ≡ some ms
    → (group == "0") ≡ false
    → ((group == "3") ≡ true) × (members_of_3 w ≡ ms)
open-three w group ms h free = ground arith

ids-seven : (w : Bool) (id : String) → (id == "7") ≡ true → ids (alice_at w ∷ []) ≡ id ∷ []
ids-seven w id seven = rw itoa_seven (ap (λ t. t ∷ []) (sym (beq→eq id "7" seven)))

created_ids :
    (w : Bool) (id : String) (ms : List (User String))
    → (id == "7") ≡ true
    → members_of_3 w ≡ ms
    → contains (ids ms) id ≡ false
    → ids (alice_at true ∷ []) ≡ ids ms ++ id ∷ []
unfolding contains itoa decimal digit char_at
created_ids false id ms seven here absent =
    subst (λ x. ids (alice_at true ∷ []) ≡ ids x ++ id ∷ []) here (ids-seven true id seven)
created_ids true id ms seven here absent =
    let present : contains (ids ms) id ≡ true =
      subst (λ x. contains (ids x) id ≡ true) here (rw (beq→eq id "7" seven) refl) in
    absurd (ground (arith, present, absent))

deleted_ids :
    (w : Bool) (id : String) (ms : List (User String))
    → (id == "7") ≡ true
    → members_of_3 w ≡ ms
    → [] ≡ delete_eq (ids ms) id
unfolding itoa decimal digit char_at
deleted_ids w id ms seven here = subst (λ x. [] ≡ delete_eq (ids x) id) here (deleted w)
  where
    deleted : (v : Bool) → [] ≡ delete_eq (ids (members_of_3 v)) id
    deleted true = rw (beq→eq id "7" seven) refl
    deleted false = refl

group_api-GroupAnswers : GroupAnswers text_uuid group_api
unfolding contains
group_api-GroupAnswers = record {
  user = user_at;
  members = members_at;
  membership_fixed = λ w group. group == "0";
  read_user = λ w id u h. ap (λ o. (answer_of o, w)) h;
  read_members = λ w group ms h. ap (λ o. (answer_of o, w)) h;
  create = λ w group id u ms h l free absent.
      let (three, here) = open-three w group ms l free in
      let seven = user_at-seven w id u h in
      (
        true,
        alice_at true,
        alice_at true ∷ [],
        rw three refl,
        rw seven refl,
        ap (λ x. x.id) (user_at-same w id u h),
        ap (λ x. x.enabled) (user_at-same w id u h),
        rw three refl,
        created_ids w id ms seven here absent,
      );
  delete = λ w group id u ms h l free member.
      let (three, here) = open-three w group ms l free in
      (false, [], rw three refl, rw three refl, deleted_ids w id ms (user_at-seven w id u h) here);
  refused = λ w group id u ms h l fixed.
      let zero_group : group ≡ "0" = beq→eq group "0" fixed in
      (("membership is fixed", rw zero_group refl), ("removal is refused", rw zero_group refl));
  enable = λ w id u h. (u, w, ap (λ o. (answer_of o, w)) h, λ group ms l. (ms, l, refl));
}

abbrev third_group : Group
third_group = record everyone { id = pos 3 }

abbrev third_resource : Made
third_resource = record {
  id = record { resource_type = "group"; resource = itoa (pos 3) };
  display_name = "All";
  options = with_resource_profile (group_profile third_group) ∷ [];
}

group_grants_example :
    (w : Bool) × (grants : List NewGrant) × (grant_membership text_uuid group_connector
        (record { resource_type = "user"; resource = "7" })
        (record { resource_type = "group"; resource = itoa (pos 3) })
        false
      ≡ (ok [], w))
    × (group_grants text_uuid small_sdk group_connector third_resource w ≡ (ok grants, w))
    × (map (λ (g : NewGrant). g.principal.resource) grants ≡ "7" ∷ [])
unfolding group_api-GroupAnswers contains parse_into_group_resource itoa decimal digit char_at
group_grants_example =
    grant_membership-group_grants text_uuid small_sdk group_connector group_api-GroupAnswers false
      "7" (alice_at false) [] refl itoa_seven none third_group third_resource refl refl refl

revoked_grants_example :
    (w : Bool) × (grants : List NewGrant) × (revoke_membership text_uuid group_connector
        (record { resource_type = "user"; resource = "7" })
        (record { resource_type = "group"; resource = itoa (pos 3) })
        true
      ≡ (ok [], w))
    × (group_grants text_uuid small_sdk group_connector third_resource w ≡ (ok grants, w))
    × (map (λ (g : NewGrant). g.principal.resource) grants ≡ [])
unfolding group_api-GroupAnswers contains parse_into_group_resource itoa decimal digit char_at
revoked_grants_example =
    revoke_membership-group_grants text_uuid small_sdk group_connector group_api-GroupAnswers true
      "7" (alice_at true) (alice_at true ∷ []) refl itoa_seven none third_group third_resource refl
      refl refl
