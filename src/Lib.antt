-- ===== src/Lib.antt =====
-- A verification library for the RV32IM simulator, a cycle-accurate model of an out-of-order processor.
--
-- The program. Each component is a class with a const interface and a `tick`. In a cycle the CPU
-- (src/CPU/CPU.cpp) takes a snapshot of all components, evaluates the combinational functions on it
-- (buses, arbiters, the packet of the issued instruction), and calls each `tick` with the snapshot and
-- the next state to write. The model has the same shape: a `tick` is a function of a record of inputs,
-- which are the parts of the snapshot that it reads, and of the old state, and gives the next state.
-- Where the source throws or asserts, the result is an `Option`.
--
-- Numbers. An `int32_t` or `uint32_t` is its pattern, a natural number below 2 ^ 32, and wrap-around is
-- written out; `signed32` reads a pattern as a signed number. Tags and indices are natural numbers.
-- Arrays are lists; a read out of range gives a default, and a write there does
-- nothing. The tables of the predictor and the sets of the data cache are functions of the index, which
-- the source masks. Capacities are those of src/include/common.hpp.
--
-- The files:
--   Types, Packet: the structs and enums of src/include/common.hpp, src/include/ROB.hpp,
--     src/include/StaticArbiter.hpp and src/include/CDB.hpp.
--   Tags: `robNextTag`, `ROB::isOlder` and the free-list sequences; Tags/Order: what they stand for.
--   Buffer: the output buffer that ALU, BRU, AGU and MUL share; Ring: the ring buffer that the fetch
--     queue, the queue of micro-operations, LQ and SQ share.
--   Alu, Bru, Agu: the units of src/ALU, src/BRU and src/AGU. Mul: the pipelined Booth multiplier of
--     src/MUL. Div: the divider of src/DIV; Div/Iterate its iteration, Div/Digit, Div/Rows, Div/Round
--     and Div/Result the argument that the iteration divides, Div/Clock and Div/Latency its ticks.
--   Fetch, Icache, Imem, Memory: the fetch unit, the instruction cache and the instruction memory of
--     src/FetchUnit, src/ICache and src/IMEM, and the byte memory and its image of src/include/Memory.hpp.
--   Bpu: the branch predictor of src/BPU; Bpu/Fold its folded histories, Bpu/Predict the prediction and
--     the fetch decision, Bpu/Train the training, Bpu/Stack the return stack, Bpu/Tick the checkpoints
--     and the cycle; Bpu/Bounds, Bpu/Counts and Bpu/Indirect what its states satisfy, Bpu/Rewind the
--     journal of the return stack.
--   Dcache, Dmem: the data cache and the data memory of src/DCache and src/DMEM; Dcache/Flat and its
--     children the flat memory that the two make up, Dcache/System the two in their cycles.
--   FetchQueue, Decoder: src/InstructBuffer and src/Decoder; Decoder/Encode: the encoding of RV32IM.
--   Rob, Rat, Prf: reorder buffer, alias table and physical registers of src/ROB, src/RAT and src/PRF;
--     Rat/Mapped: the tables that ticks reach from reset.
--   Rs, Lq, Sq: reservation stations, load and store queue of src/RS, src/LQ and src/SQ.
--   Cdb: the result buses of src/CDB. Arbiter: dispatch, memory and issue arbiter of
--     src/StaticArbiter/StaticArbiter.cpp and the squash requests of src/DynamicArbiter;
--     Arbiter/Flush/Order: their order of age, Arbiter/Flush/Receive: the loops that take one in.
--   Tests: the theorems at concrete states. Prelude: shared names, tests, lists, words and bits.
--
-- Loops. A loop of the source with a constant bound is recursion on that bound, or on the list that
-- stands for the array, so no fuel is assumed.
--
-- Composition. Where a component reads another one, its input is a value: the memory arbiter takes the
-- busy flag of the data cache, the load queue its response, the fetch queue the instruction that the
-- instruction cache returns, and the fetch unit and the caches the fetch decision. Dcache/System puts the
-- data cache and the data memory together as the CPU's cycle does.
--
-- Not modelled: the CPU's composition of all components in one cycle (src/CPU/CPU.cpp), debug output,
-- and what only feeds it.
pub mod Prelude
pub mod Types
pub mod Tags
pub mod Buffer
pub mod Prf
pub mod Rs
pub mod Alu
pub mod Bru
pub mod Agu
pub mod Mul
pub mod Ring
pub mod Decoder
pub mod FetchQueue
pub mod Packet
pub mod Sq
pub mod Rob
pub mod Lq
pub mod Rat
pub mod Div
pub mod Cdb
pub mod Arbiter
pub mod Fetch
pub mod Memory
pub mod Icache
pub mod Imem
pub mod Bpu
pub mod Dmem
pub mod Dcache
pub mod Tests
