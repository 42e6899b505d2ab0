-- ===== src/Crc.antt =====
-- util/cryption/CRC/CRC.cpp: the checksums CRC16 of the ITU and CRC32, by table.
pub mod Tables
pub mod Bitwise
pub mod Errors
use Prim.Native.Nat.{bit_and, bit_xor}
use mathlib.Core.List.{foldl}
use exc.Common.{ℕ, ◌-◌, ◌/◌, ◌%◌, ◌^◌, List, get_or}
use exc.Crc.Tables.{crc16_table, crc32_table}

-- One round of both loops: `(fcs >> 8) ^ table[(fcs ^ b) & 0xFF]`.
unfoldable pub round : List ℕ → ℕ → ℕ → ℕ
round table fcs b = bit_xor (fcs / 2 ^ 8) (get_or table (bit_and (bit_xor fcs b) 0xff) 0)

-- `~fcs` in a number of `w` bits.
abbrev pub complement : ℕ → ℕ → ℕ
complement w fcs = 2 ^ w - 1 - fcs % 2 ^ w

-- CRCITU::calc
unfoldable pub calc16 : List ℕ → ℕ
unfolding round crc16_table
calc16 bytes = complement 16 (foldl (round crc16_table) 0xffff bytes)

-- CRC32::calc, but for the assembler of one compiler, which does the same.
unfoldable pub calc32 : List ℕ → ℕ
unfolding round crc32_table
calc32 bytes = complement 32 (foldl (round crc32_table) 0xffffffff bytes)
