-- ===== src/Oauth.antt =====
-- crates/nagent-server/src/oauth: the states of the logins that are under way.
pub mod StateStore
