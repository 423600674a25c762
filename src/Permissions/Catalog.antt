-- ===== src/Permissions/Catalog.antt =====
-- frontend/src/lib/permissions.ts: the roles, the catalogue and the defaults of each role. A
-- permission is a text, as in the source, where any text beside the catalogue's is allowed.
use agent_workflow_fast_api.Base.{
  String, Bool, not, List, [], ◌∷◌, Option, none, some, get_or, contains, string_eq,
}

pub data WorkspaceRole : Type 0 where
  owner admin editor employee viewer : WorkspaceRole

abbrev agent_tools : List String
agent_tools =
    "agent.tool.products.search" ∷ "agent.tool.content.search" ∷ "agent.tool.knowledge_bases.list"
    ∷ "agent.tool.knowledge_files.list" ∷ "agent.tool.knowledge_base.read"
    ∷ "agent.tool.knowledge_file.read" ∷ "agent.tool.knowledge_file.extract"
    ∷ "agent.tool.knowledge_base.search" ∷ []

-- The keys of `permissionCatalog`, in its order.
abbrev pub permission_catalog : List String
permission_catalog =
    "members.read" ∷ "members.manage" ∷ "knowledge.read" ∷ "knowledge.manage" ∷ "chat.read"
    ∷ "chat.write" ∷ "chat.delete" ∷ "document.read" ∷ "document.write" ∷ "audit.read" ∷ agent_tools

unfoldable pub default_permissions_by_role : WorkspaceRole → List String
default_permissions_by_role admin = permission_catalog
default_permissions_by_role owner = permission_catalog
default_permissions_by_role editor =
    "knowledge.read" ∷ "knowledge.manage" ∷ "chat.read" ∷ "chat.write" ∷ "chat.delete"
    ∷ "document.read" ∷ "document.write" ∷ agent_tools
default_permissions_by_role employee =
    "knowledge.read" ∷ "chat.read" ∷ "chat.write" ∷ "chat.delete" ∷ "document.read"
    ∷ "document.write" ∷ "agent.tool.products.search" ∷ "agent.tool.content.search"
    ∷ "agent.tool.knowledge_bases.list" ∷ "agent.tool.knowledge_files.list"
    ∷ "agent.tool.knowledge_base.read" ∷ "agent.tool.knowledge_file.read"
    ∷ "agent.tool.knowledge_base.search" ∷ []
default_permissions_by_role viewer =
    "knowledge.read" ∷ "chat.read" ∷ "chat.write" ∷ "document.read" ∷ "agent.tool.products.search"
    ∷ "agent.tool.content.search" ∷ "agent.tool.knowledge_bases.list"
    ∷ "agent.tool.knowledge_files.list" ∷ "agent.tool.knowledge_base.read"
    ∷ "agent.tool.knowledge_file.read" ∷ "agent.tool.knowledge_base.search" ∷ []

unfoldable pub restricted_permissions_by_role : WorkspaceRole → Option (List String)
restricted_permissions_by_role employee = some ("knowledge.manage" ∷ [])
restricted_permissions_by_role _ = none

-- `?? []`, and `?.includes` of a list that is not there.
abbrev pub restricted : WorkspaceRole → List String
restricted role = get_or (restricted_permissions_by_role role) []

unfoldable pub role_allows_permission : WorkspaceRole → String → Bool
role_allows_permission role permission = not (contains (restricted role) permission)
