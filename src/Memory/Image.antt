-- ===== src/Memory/Image.antt =====
-- The reader of a program image, `load_ins` of src/include/Memory.hpp: bytes in hexadecimal between
-- other characters, and `@` before an address. The characters of the standard input are a list of codes.
use rv32im_simulator.Prelude.{
  ℕ, ◌+◌, ◌-◌, ◌<<<◌, bit_or, Bool, true, false, ◌&&◌, ◌==◌, leb, ltb, if◌then◌else◌, Option, none,
  some, List, [], ◌∷◌, u8, u32,
}
use rv32im_simulator.Memory.{Memory, write_data}

-- `cur`, `acc`, `n` and `addr_mode`, with the memory that is written.
pub record Loader : Type 0 where
  pub mem : Memory
  pub cur : ℕ
  pub acc : ℕ
  pub n : ℕ
  pub addr_mode : Bool

abbrev new_loader : Memory → Loader
new_loader mem = record { mem = mem; cur = 0; acc = 0; n = 0; addr_mode = false }

-- `v`; `none` is the value -1.
unfoldable pub digit : ℕ → Option ℕ
digit c =
    if leb 48 c && leb c 57
    then some (c - 48)
    else if leb 65 c && leb c 70
    then some (c - 65 + 10)
    else if leb 97 c && leb c 102
    then some (c - 97 + 10)
    else none

-- What is done with the digits read, if there are any: they are an address or a byte.
unfoldable flush_token : Loader → Loader
flush_token loader =
    if ltb 0 loader.n
    then if loader.addr_mode
      then record loader { cur = loader.acc; addr_mode = false }
      else record loader {
        mem = write_data loader.cur (u8 loader.acc) loader.mem;
        cur = u32 (loader.cur + 1);
      }
    else loader

-- A character that is no digit ends the digits read.
unfoldable separate : ℕ → Loader → Loader
unfolding flush_token
separate c loader =
    let ended = record (flush_token loader) { acc = 0; n = 0 } in
    if c == 64 then record ended { addr_mode = true } else ended

unfoldable load_step : ℕ → Loader → Loader
unfolding digit separate
load_step c loader = elim (digit c) [
  | some v ↦ record loader { acc = bit_or (u32 (loader.acc <<< 4)) v; n = loader.n + 1 }
  | none ↦ separate c loader
]

-- The loop over the characters and the digits left at the end.
unfoldable load_loop : List ℕ → Loader → Loader
unfolding load_step flush_token
load_loop [] loader = flush_token loader
load_loop (c ∷ rest) loader = load_loop rest (load_step c loader)

unfoldable pub load_ins : List ℕ → Memory → Memory
unfolding load_loop
load_ins input mem = (load_loop input (new_loader mem)).mem
