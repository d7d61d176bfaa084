-- ===== src/Graphql.antt =====
-- src/bank_ods/graphql: the schema that is generated from the models, and the limits on queries.
pub mod Static
pub mod Sdl
pub mod Protection
pub mod Resolvers
mod Tests
