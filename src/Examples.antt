-- ===== src/Examples.antt =====
-- Concrete services, and runs of the program on them.
mod Zset
mod TextCodec
mod RedisServer
mod Database
mod Demo
mod ModelCases
mod EngineCases
mod TimerCases
mod StartupCases
mod LifeCases
