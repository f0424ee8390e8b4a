-- ===== src/Connector/Permissions/Effect.antt =====
-- Granting and revoking a permission (pkg/connector/permissions.go) through an API that answers.
use baton_tenable_vm.Prelude.{
  Bool-cases, List, String, [], append-nil, beq_refl, delete_func, false, if◌then◌else◌, inl, inr,
  refl, string_eq, subst, true, ℕ_eq, ℤ_eq, ◌++◌, ◌∷◌, ◌≡◌,
}
use baton_tenable_vm.Client.Action.{ok}
use baton_tenable_vm.Connector.Base.{grant_already_exists, grant_already_revoked, Connector}
use baton_tenable_vm.Client.Api.{UuidLibrary}
use baton_tenable_vm.Client.Types.{TenableObject}
use baton_tenable_vm.Connector.Permissions.{grant_permission, is_subject, revoke_permission}
use baton_tenable_vm.Connector.Permissions.Subjects.{
  delete-absent, delete-append, is_subject-append,
}
use baton_tenable_vm.Connector.Permissions.Answers.{
  Answers, Holds, parse_named, permission_resource, re_enable-Holds, same_subject, update-Holds,
  user_resource,
}

module _ (lib : UuidLibrary) {W : Type 0} (c : Connector lib.Uuid W)
    (a : Answers lib c.client) where
  grant_held :
      {w : W} {id : String} {k : lib.Uuid} {uuid : String} {held : List (TenableObject lib.Uuid)}
      → Holds lib c a w id k uuid held
      → is_subject lib (lib.to_string k) held ≡ true
      → (w' : W) × (grant_permission lib c (user_resource id) (permission_resource uuid) w
          ≡ (ok (grant_already_exists ∷ []), w'))
        × Holds lib c a w' id k uuid held
  unfolding grant_permission
  grant_held {w} {id} {k} {uuid} h member =
      let (w', enabled, h') = re_enable-Holds lib c a "permission" h in
      (
        w',
        rw
            (
              a.read_permission w uuid h.permission h.stored,
              a.read_user w id h.user h.known,
              same_subject lib c a h,
              member,
              enabled,
            )
            refl,
        h',
      )

  grant_new :
      {w : W} {id : String} {k : lib.Uuid} {uuid : String} {held : List (TenableObject lib.Uuid)}
      (h : Holds lib c a w id k uuid held)
      → is_subject lib (lib.to_string k) held ≡ false
      → (w' : W) × (grant_permission lib c (user_resource id) (permission_resource uuid) w
          ≡ (ok [], w'))
        × Holds lib c a w' id k uuid
            (held ++ record { type = "User"; uuid = k; name = h.user.name } ∷ [])
  unfolding grant_permission
  grant_new {w} {id} {k} {uuid} {held} h absent =
      let added : List (TenableObject lib.Uuid) =
        record { type = "User"; uuid = k; name = h.user.name } ∷ [] in
      let (v, sent_over, h', same) = update-Holds lib c a h (h.permission.subjects ++ added) in
      let (w', enabled, h'') = re_enable-Holds lib c a "permission" h' in
      let enabled' = rw same at enabled in
      (
        w',
        rw
            (
              a.read_permission w uuid h.permission h.stored,
              a.read_user w id h.user h.known,
              same_subject lib c a h,
              absent,
              parse_named lib c a h,
              sent_over,
              enabled',
            )
            refl,
        subst (λ (xs : List (TenableObject lib.Uuid)). Holds lib c a w' id k uuid (xs ++ added))
            h.subjects h'',
      )

  revoke_absent :
      {w : W} {id : String} {k : lib.Uuid} {uuid : String} {held : List (TenableObject lib.Uuid)}
      → Holds lib c a w id k uuid held
      → is_subject lib (lib.to_string k) held ≡ false
      → revoke_permission lib c (user_resource id) (permission_resource uuid) w
        ≡ (ok (grant_already_revoked ∷ []), w)
  unfolding revoke_permission
  revoke_absent {w} {id} {k} {uuid} h absent =
      rw
        (
          a.read_permission w uuid h.permission h.stored,
          a.read_user w id h.user h.known,
          same_subject lib c a h,
          absent,
        )
        refl

  revoke_held :
      {w : W} {id : String} {k : lib.Uuid} {uuid : String} {held : List (TenableObject lib.Uuid)}
      → Holds lib c a w id k uuid held
      → is_subject lib (lib.to_string k) held ≡ true
      → (w' : W) × (revoke_permission lib c (user_resource id) (permission_resource uuid) w
          ≡ (ok [], w'))
        × Holds lib c a w' id k uuid (delete_func (λ x. lib.uuid_eq.beq x.uuid k) held)
  unfolding revoke_permission
  revoke_held {w} {id} {k} {uuid} {held} h member =
      let rest = delete_func (λ x. lib.uuid_eq.beq x.uuid k) h.permission.subjects in
      let (w', sent_over, h', same) = update-Holds lib c a h rest in
      (
        w',
        rw
            (
              a.read_permission w uuid h.permission h.stored,
              a.read_user w id h.user h.known,
              same_subject lib c a h,
              member,
              parse_named lib c a h,
              sent_over,
            )
            refl,
        subst
            (λ (xs : List (TenableObject lib.Uuid)).
              Holds lib c a w' id k uuid (delete_func (λ x. lib.uuid_eq.beq x.uuid k) xs))
            h.subjects h',
      )

  -- Granting a permission to a user of the API succeeds. If the user is a subject, it answers that the
  -- grant exists and the subjects stay; if not, the user becomes the last subject. Each user is looked
  -- up by number, and its uuid is written the way the uuid library writes it.
  pub grant_permission_lem :
      (w : W) (id : String) (k : lib.Uuid) (uuid : String) (held : List (TenableObject lib.Uuid))
      (h : Holds lib c a w id k uuid held)
      → let member = is_subject lib (lib.to_string k) held in
        (w' : W) × (grant_permission lib c (user_resource id) (permission_resource uuid) w
          ≡ (ok (if member then grant_already_exists ∷ [] else []), w'))
        × Holds lib c a w' id k uuid (
            if member
            then held
            else held ++ record { type = "User"; uuid = k; name = h.user.name } ∷ [])
  grant_permission_lem w id k uuid held h =
      elim (Bool-cases (is_subject lib (lib.to_string k) held)) [
        | inl member ↦ rw member (grant_held h member)
        | inr absent ↦ rw absent (grant_new h absent)
      ]

  -- Revoking a permission from a user of the API succeeds. If the user is not a subject, it answers that
  -- the grant is revoked already; in both cases no subject of the user's uuid is left, and the others
  -- stay in order.
  pub revoke_permission_lem :
      (w : W) (id : String) (k : lib.Uuid) (uuid : String) (held : List (TenableObject lib.Uuid))
      → Holds lib c a w id k uuid held
      → (w' : W) × (revoke_permission lib c (user_resource id) (permission_resource uuid) w ≡ (
        ok (if is_subject lib (lib.to_string k) held then [] else grant_already_revoked ∷ []),
        w',
      ))
        × Holds lib c a w' id k uuid (delete_func (λ x. lib.uuid_eq.beq x.uuid k) held)
  revoke_permission_lem w id k uuid held h =
      elim (Bool-cases (is_subject lib (lib.to_string k) held)) [
        | inl member ↦ rw member (revoke_held h member)
        | inr absent ↦ rw (absent, delete-absent lib k held absent) (w, revoke_absent h absent, h)
      ]

  -- Granting a permission to a user who is not a subject and revoking it again both succeed, and the
  -- permission has the subjects it had before.
  pub revoke-grant_permission :
      (w : W) (id : String) (k : lib.Uuid) (uuid : String) (held : List (TenableObject lib.Uuid))
      → Holds lib c a w id k uuid held
      → is_subject lib (lib.to_string k) held ≡ false
      → (v w' : W) × (grant_permission lib c (user_resource id) (permission_resource uuid) w
          ≡ (ok [], v))
        × (revoke_permission lib c (user_resource id) (permission_resource uuid) v ≡ (ok [], w'))
        × Holds lib c a w' id k uuid held
  unfolding is_subject
  revoke-grant_permission w id k uuid held h absent =
      let (v, granted, h') = grant_new h absent in
      let added : List (TenableObject lib.Uuid) =
        record { type = "User"; uuid = k; name = h.user.name } ∷ [] in
      let self = beq_refl (lib.to_string k) in
      let member : is_subject lib (lib.to_string k) (held ++ added) ≡ true =
        rw (is_subject-append lib (lib.to_string k) held added, absent, self) refl in
      let (w', revoked, h'') = revoke_held h' member in
      let gone : delete_func (λ x. lib.uuid_eq.beq x.uuid k) (held ++ added) ≡ held =
        rw
          (
            delete-append lib k held added,
            delete-absent lib k held absent,
            (lib.uuid_eq.beq_iff k k).1 refl,
          )
          (append-nil held) in
      (v, w', granted, revoked, subst (Holds lib c a w' id k uuid) gone h'')
