-- ===== src/Arbiter.antt =====
-- The arbiters: `FlushArbiter` of src/DynamicArbiter/DynamicArbiter.cpp, `DispatchArbiter` and
-- `MemArbiter` of src/StaticArbiter/StaticArbiter.cpp.
pub mod Flush
pub mod Dispatch
pub mod Memory
pub mod Issue
