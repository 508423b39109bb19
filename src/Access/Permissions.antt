-- ===== src/Access/Permissions.antt =====
-- The permission codes and the two canonical sets:
-- backend-nestjs/src/admin/roles/constants/permissions.constant.ts.
use odiseo_new.Common.{String, List, [], ◌∷◌, ◌++◌}

abbrev pub manage_tenants : String
manage_tenants = "MANAGE_TENANTS"

-- What a tenant's own Super Admin (the Director) is granted.
abbrev pub tenant_super_admin_permissions : List String
tenant_super_admin_permissions =
    "MANAGE_ROLES" ∷ "MANAGE_USERS" ∷ "LIST_TENANT_ADMINS" ∷ "CREATE_TENANT_ADMINS"
    ∷ "EDIT_TENANT_ADMINS" ∷ "CHANGE_PASSWORD_TENANT_ADMINS" ∷ "DELETE_TENANT_ADMINS"
    ∷ "VIEW_SYLLABUS" ∷ "EDIT_SYLLABUS" ∷ "VIEW_ACADEMIC_TIME" ∷ "MANAGE_ACADEMIC_TIME"
    ∷ "VIEW_CATALOGS" ∷ "EDIT_CATALOGS" ∷ "VIEW_MATERIALS" ∷ "EDIT_MATERIALS" ∷ []

-- What the platform's Super Admin is granted.
abbrev platform_super_admin_permissions : List String
platform_super_admin_permissions = tenant_super_admin_permissions ++ manage_tenants ∷ []
