-- ===== src/Tests.antt =====
-- The theorems of the library at concrete inputs.
mod Data
mod Cpu
mod Rule
mod Live
mod Events
mod Profile
mod Store
mod Web
mod Loop
mod Memory
