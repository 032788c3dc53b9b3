-- ===== src/Examples.antt =====
-- Runs of the definitions at concrete inputs, where the theorems about them apply.
mod Hubs
mod Takeover
mod Workers
mod Leases
mod Accounts
mod Tokens
mod Servers
mod Messages
mod Limits
mod Passwords
mod Gateways
mod Rest
