-- ===== src/Connector/Roles/Effect.antt =====
-- Granting and revoking a role (pkg/connector/roles.go) through an API that answers.
use baton_tenable_vm.Prelude.{String, string_eq, ℕ_eq, ℤ_eq}
use baton_tenable_vm.Connector.Base.{Connector, ResourceId}

abbrev role_resource : String → ResourceId
role_resource uuid = record { resource_type = "role"; resource = uuid }
