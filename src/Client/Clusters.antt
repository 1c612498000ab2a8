-- ===== src/Client/Clusters.antt =====
-- crates/control-client/src/lib.rs: when a cluster counts as synchronized.
