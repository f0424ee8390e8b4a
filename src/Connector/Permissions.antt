-- ===== src/Connector/Permissions.antt =====
-- `Grant` and `Revoke` of pkg/connector/permissions.go.
pub mod Subjects
pub mod Answers
pub mod Effect
pub mod Listing
use Prim.Native.String
use baton_tenable_vm.Prelude.{
  Bool, List, String, [], delete_func, false, if◌then◌else◌, not, string_eq, ℕ_eq, ℤ_eq, ◌++◌, ◌==◌,
  ◌||◌, ◌∷◌,
}
use baton_tenable_vm.Client.Action.{◌>>=◌, Action, context, fail, pure}
use baton_tenable_vm.Connector.Base.{
  Annotation, grant_already_exists, grant_already_revoked, Connector, ResourceId,
  re_enable_user_if_needed, user_type,
}
use baton_tenable_vm.Client.Api.{UuidLibrary}
use baton_tenable_vm.Client.Types.{Permission, TenableObject, User}

module _ (lib : UuidLibrary) where
  -- The loop over the subjects: whether one of them has the text `uuid` as its uuid.
  unfoldable pub is_subject : String → List (TenableObject lib.Uuid) → Bool
  is_subject uuid [] = false
  is_subject uuid (subject ∷ subjects) =
      (lib.to_string subject.uuid == uuid) || is_subject uuid subjects

  abbrev pub with_subject : User lib.Uuid → lib.Uuid → Permission lib.Uuid → Permission lib.Uuid
  with_subject user uuid permission = record permission {
    subjects = permission.subjects ++ record { type = "User"; uuid = uuid; name = user.name } ∷ [];
  }

  abbrev pub without_subject : lib.Uuid → Permission lib.Uuid → Permission lib.Uuid
  without_subject uuid permission = record permission {
    subjects = delete_func (λ subject. lib.uuid_eq.beq subject.uuid uuid) permission.subjects;
  }

module _ (lib : UuidLibrary) {W : Type 0} (c : Connector lib.Uuid W) where
  -- `uuid.Parse`, with its error in the connector's words
  abbrev pub parse_user_uuid : String → Action W lib.Uuid
  parse_user_uuid text = context "error while parsing user uuid " (λ w. (lib.parse text, w))

  unfoldable pub grant_permission : ResourceId → ResourceId → Action W (List Annotation)
  grant_permission principal entitled =
      if not (principal.resource_type == user_type)
      then fail (String.◌++◌ "can not grant to resource type " principal.resource_type)
      else (do
        permission ←
            context "failed to get permission details "
              (c.client.get_permission_details entitled.resource)
        user ←
            context "error while performing grant, failed to get user details "
              (c.client.get_user_details principal.resource)
        if is_subject lib user.uuid permission.subjects
            then (do
              _ ← re_enable_user_if_needed c user "permission"
              pure (grant_already_exists ∷ []))
            else (do
              uuid ← parse_user_uuid user.uuid
              _ ←
                  context "failed to update permission "
                    (c.client.update_permission (with_subject lib user uuid permission))
              _ ← re_enable_user_if_needed c user "permission"
              pure []))

  unfoldable pub revoke_permission : ResourceId → ResourceId → Action W (List Annotation)
  revoke_permission principal entitled =
      if not (principal.resource_type == user_type)
      then fail (String.◌++◌ "can not revoke grant for resource type " principal.resource_type)
      else (do
        permission ←
            context "failed to get permission details "
              (c.client.get_permission_details entitled.resource)
        user ←
            context "error while revoking grant, failed to get user details "
              (c.client.get_user_details principal.resource)
        if not (is_subject lib user.uuid permission.subjects)
            then pure (grant_already_revoked ∷ [])
            else (do
              uuid ← parse_user_uuid user.uuid
              _ ←
                  context "failed to update permission "
                    (c.client.update_permission (without_subject lib uuid permission))
              pure []))
