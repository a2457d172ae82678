-- ===== src/Tests.antt =====
-- Tests on concrete inputs, and an instance of each theorem that has hypotheses.
mod Win
mod Env
mod Config
mod Manage
mod Echo
mod Openvpn
mod Profiles
mod Import
mod Options
mod Pkcs11
mod Proxy
mod Requests
mod Restart
