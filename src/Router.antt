-- ===== src/Router.antt =====
-- crates/gateway-router: the routing table and the matching of requests.
pub mod Trie
pub mod Predicate
pub mod Table
