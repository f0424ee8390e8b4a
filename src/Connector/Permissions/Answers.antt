-- ===== src/Connector/Permissions/Answers.antt =====
-- An API that answers the calls of pkg/connector/permissions.go, and what it holds of a user and a
-- permission.
use baton_tenable_vm.Prelude.{
  Bool-cases, List, Option, String, inl, inr, not, refl, some, string_eq, subst, true, ℕ_eq, ℤ_eq,
  ◌&&◌, ◌≡◌,
}
use baton_tenable_vm.Client.Action.{ok}
use baton_tenable_vm.Connector.Base.{Connector, ResourceId, re_enable_user_if_needed, user_type}
use baton_tenable_vm.Client.Api.{Api, UuidLibrary}
use baton_tenable_vm.Client.Types.{Permission, TenableObject, User}
use baton_tenable_vm.Connector.Decimal.{itoa}
use baton_tenable_vm.Connector.Permissions.{is_subject}

-- An API whose calls about permissions and users do what its documentation says: reading changes
-- nothing, an update of a permission stores the subjects sent, enabling a user leaves permissions alone.
pub record Answers (lib : UuidLibrary) {W : Type 0} (api : Api lib.Uuid W) : Type 0 where
  pub permission : W → String → Option (Permission lib.Uuid)
  pub user : W → String → Option (User lib.Uuid)
  pub read_permission :
      (w : W) (uuid : String) (p : Permission lib.Uuid)
      → permission w uuid ≡ some p
      → api.get_permission_details uuid w ≡ (ok p, w)
  pub read_user :
      (w : W) (id : String) (u : User lib.Uuid)
      → user w id ≡ some u
      → api.get_user_details id w ≡ (ok u, w)
  pub update :
      (w : W) (p q : Permission lib.Uuid)
      → permission w (lib.to_string p.uuid) ≡ some q
      → (w' : W) × (q' : Permission lib.Uuid) × (api.update_permission p w ≡ (ok tt, w'))
        × (permission w' (lib.to_string p.uuid) ≡ some q')
        × (q'.uuid ≡ p.uuid)
        × (q'.subjects ≡ p.subjects)
        × (user w' ≡ user w)
  pub enable :
      (w : W) (id : String) (u : User lib.Uuid)
      → user w id ≡ some u
      → (w' : W) × (api.enable_user id w ≡ (ok (record u { enabled = true }), w'))
        × (permission w' ≡ permission w)
        × (user w' id ≡ some (record u { enabled = true }))

abbrev pub user_resource : String → ResourceId
user_resource id = record { resource_type = user_type; resource = id }

abbrev pub permission_resource : String → ResourceId
permission_resource uuid = record { resource_type = "permission"; resource = uuid }

module _ (lib : UuidLibrary) {W : Type 0} (c : Connector lib.Uuid W)
    (a : Answers lib c.client) where
  -- The user's number is `id` and its uuid `k`, and the permission has these subjects.
  pub record Holds (w : W) (id : String) (k : lib.Uuid) (uuid : String)
      (held : List (TenableObject lib.Uuid)) : Type 0 where
    pub user : User lib.Uuid
    pub known : a.user w id ≡ some user
    pub numbered : itoa user.id ≡ id
    pub named : user.uuid ≡ lib.to_string k
    pub permission : Permission lib.Uuid
    pub stored : a.permission w uuid ≡ some permission
    pub addressed : lib.to_string permission.uuid ≡ uuid
    pub subjects : permission.subjects ≡ held

  -- Enabling leaves the permission as it is.
  pub re_enable-Holds :
      {w : W} {id : String} {k : lib.Uuid} {uuid : String} {held : List (TenableObject lib.Uuid)}
      (why : String) (h : Holds w id k uuid held)
      → (w' : W) × (re_enable_user_if_needed c h.user why w ≡ (ok tt, w')) × Holds w' id k uuid held
  unfolding re_enable_user_if_needed
  re_enable-Holds {w} {id} why h = elim (Bool-cases (not h.user.enabled && c.enable_on_provision)) [
    | inl needed ↦
        let (w', enabled, same, known) = a.enable w id h.user h.known in
        (
          w',
          rw (needed, h.numbered, enabled) refl,
          record {
            user = record h.user { enabled = true };
            known = known;
            numbered = h.numbered;
            named = h.named;
            permission = h.permission;
            stored = rw same h.stored;
            addressed = h.addressed;
            subjects = h.subjects;
          },
        )
    | inr not_needed ↦ (w, rw not_needed refl, h)
  ]

  -- A permission of the same uuid with other subjects is stored.
  pub update-Holds :
      {w : W} {id : String} {k : lib.Uuid} {uuid : String} {held : List (TenableObject lib.Uuid)}
      (h : Holds w id k uuid held) (subjects : List (TenableObject lib.Uuid))
      → (w' : W) × (c.client.update_permission (record h.permission { subjects = subjects }) w
          ≡ (ok tt, w'))
        × (h' : Holds w' id k uuid subjects) × (h'.user ≡ h.user)
  update-Holds {w} {id} h subjects =
      let p = record h.permission { subjects = subjects } in
      let (w', q, sent_over, stored, same, sent, users) =
        a.update w p h.permission (rw h.addressed h.stored) in
      (
        w',
        sent_over,
        record {
          user = h.user;
          known = rw users h.known;
          numbered = h.numbered;
          named = h.named;
          permission = q;
          stored = subst (λ (x : String). a.permission w' x ≡ some q) h.addressed stored;
          addressed = rw same h.addressed;
          subjects = sent;
        },
        refl,
      )

  pub same_subject :
      {w : W} {id : String} {k : lib.Uuid} {uuid : String} {held : List (TenableObject lib.Uuid)}
      (h : Holds w id k uuid held)
      → is_subject lib h.user.uuid h.permission.subjects ≡ is_subject lib (lib.to_string k) held
  same_subject h = rw (h.named, h.subjects) refl

  pub parse_named :
      {w : W} {id : String} {k : lib.Uuid} {uuid : String} {held : List (TenableObject lib.Uuid)}
      (h : Holds w id k uuid held)
      → lib.parse h.user.uuid ≡ ok k
  parse_named {k} h = rw h.named (lib.parse-to_string k)
