-- ===== src/Core/Trace/Callers.antt =====
-- The counts of callers and of usages: `callers_of`, `partition_sites` and `partition_by_kind` of
-- crates/ktsense-core/src/trace.rs.
use ktsense.Std.Split.{Split}
