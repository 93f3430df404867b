-- ===== src/Agent/Tests.antt =====
-- Examples of the agent: a session, the checks of a task, and the checks of paths.
mod Sessions
mod Checks
mod Paths
mod Accounts
mod Programs
mod Requests
mod Ports
