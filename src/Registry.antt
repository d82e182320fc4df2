-- ===== src/Registry.antt =====
-- src/naia_relay/registry: the definitions that a registry holds, the store that holds them, and
-- what its clients may rely on.
pub mod Models
pub mod Store
pub mod Mutation
pub mod Invariant
pub mod Refinement
pub mod Mirror
