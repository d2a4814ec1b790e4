-- ===== src/Div/Clz.antt =====
-- `clz` of src/DIV/DIV.cpp: the number of leading zero bits of a 32-bit word by halving.
use rv32im_simulator.Prelude.{ℕ, ◌+◌, ◌==◌, if◌then◌else◌, ◌>>>◌}

-- One of the five tests: the upper half, or the lower one with its zeros counted. The bits of the
-- count are disjoint, so the source's `|=` adds.
unfoldable pub halve : ℕ → ℕ × ℕ → ℕ × ℕ
halve width (num, zeros) =
    if num >>> width == 0 then (num, zeros + width) else (num >>> width, zeros)

unfoldable pub clz : ℕ → ℕ
unfolding halve
clz num =
    let (_, zeros) = halve 1 (halve 2 (halve 4 (halve 8 (halve 16 (num, 0))))) in
    if num == 0 then 32 else zeros
