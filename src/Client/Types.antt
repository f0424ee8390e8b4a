-- ===== src/Client/Types.antt =====
-- The objects of pkg/client/models.go over a type for `uuid.UUID`. A Go slice is a list; nil and empty
-- are one value.
use baton_tenable_vm.Prelude.{Bool, List, String, string_eq, ℕ_eq, ℤ, ℤ_eq}

pub record UserRole : Type 0 where
  pub container_uuid : String
  pub user_uuid : String
  pub roles_uuid : List String

pub record Group : Type 0 where
  pub id : ℤ
  pub uuid : String
  pub name : String
  pub permissions : ℤ
  pub users_count : ℤ
  pub container_uuid : String

pub record NewUser : Type 0 where
  pub username : String
  pub password : String
  pub email : String
  pub name : String
  pub permissions : ℤ

module _ (Uuid : Type 0) where
  pub record Role : Type 0 where
    pub uuid : Uuid
    pub name : String

  pub record RoleDetails : Type 0 where
    pub uuid : Uuid
    pub name : String
    pub permissions : List String
    pub description : String
    pub type : String
    pub status : String

  pub record TenableObject : Type 0 where
    pub type : String
    pub uuid : Uuid
    pub name : String

  pub record User : Type 0 where
    pub id : ℤ
    pub uuid : String
    pub username : String
    pub email : String
    pub name : String
    pub last_login : ℤ
    pub enabled : Bool
    pub permissions : ℤ
    pub container_uuid : String
    pub rbac_roles : List Role
    pub roles : List String
    pub group_uuids : List String

  pub record Permission : Type 0 where
    pub uuid : Uuid
    pub name : String
    pub actions : List String
    pub objects : List TenableObject
    pub subjects : List TenableObject
    pub created_at : ℤ
    pub created_by : String
    pub updated_at : ℤ
    pub updated_by : String

  pub record PermissionUpdateBody : Type 0 where
    pub name : String
    pub actions : List String
    pub objects : List TenableObject
    pub subjects : List TenableObject
