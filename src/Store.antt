-- ===== src/Store.antt =====
-- matcher/src/store.rs: `RedisStore` and `PostgresStore`.
pub mod RedisStore
pub mod PostgresStore
pub mod Stats
