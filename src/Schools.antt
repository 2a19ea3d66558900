-- ===== src/Schools.antt =====
-- What guards a school as a tenant: the scoping of its queries and the deletion of its data.
pub mod Tenancy
pub mod Deletion
pub mod Domains
