-- ===== src/Tests.antt =====
-- Each theorem that has hypotheses or parameters, applied at concrete inputs.
mod Privops
mod Net
mod Registry
mod Backup
mod Daemon
mod Hub
mod Stack
mod Gate
mod Requests
