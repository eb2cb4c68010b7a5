-- ===== src/Tests.antt =====
-- Runs of the definitions at concrete inputs, and the theorems at inputs that meet their hypotheses.
mod Ring
mod Connd
mod Transport
mod Balancer
mod Services
mod Slab
mod Pool
mod Timer
mod Bus
mod HashMap
mod Migration
mod Scheduler
mod Jwt
mod Helper
mod DbProxy
mod Packs
mod Tree
mod Config
mod BusClient
mod CommandLine
