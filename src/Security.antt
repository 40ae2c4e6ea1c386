-- ===== src/Security.antt =====
-- security/: what a principal may query. `Policy` holds the rules, `Guard` applies them to a query,
-- `Scope` tells the model beforehand what it may use, `Agree` relates the two, and `Rows` is about the
-- row rules. `Loader` reads the policies of a configuration.
pub mod Policy
pub mod Loader
pub mod Guard
pub mod Scope
pub mod Agree
pub mod Rows
