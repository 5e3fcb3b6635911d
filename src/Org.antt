-- ===== src/Org.antt =====
-- Who may read and call what: packages/engine/src/org-permissions.ts, and effective-surface.ts of the core.
pub mod Paths
pub mod Permissions
pub mod PreCheck
pub mod Surface
pub mod Artifact
