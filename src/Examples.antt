-- ===== src/Examples.antt =====
-- Concrete inputs for the theorems, by part of the program.
mod Nodes
mod Policies
mod Statements
mod Ulids
mod Decisions
mod Sessions
mod Configs
mod Logins
mod Proxies
mod Upstreams
mod Admins
mod Logs
