-- ===== src/Packet/Examples.antt =====
-- Members at concrete offsets.
use net_blocks.Base.{
  ℕ, ◌+◌, ◌-◌, ◌*◌, ◌/◌, ◌%◌, ◌^◌, ◌≤◌, ◌<◌, ◌≡◌, ◌≢◌, ◌⊎◌, refl, true, false, some, arith,
}
use net_blocks.Packet.{IntegerMember, get_integer, set_integer}
use net_blocks.Packet.Bytes.{Memory, IsBytes}
use net_blocks.Packet.Aligned.{get_integer-set_integer}
use net_blocks.Packet.Unaligned.{set_integer_clobbers}

-- A byte-aligned member of 12 bits, for values from 3 on, and one of 3 bits.
abbrev host_member : IntegerMember
host_member = record {
  bytes = 2;
  is_signed = false;
  aligned = true;
  align = 8;
  bit_size = 12;
  range_base = 3;
}

abbrev app_member : IntegerMember
app_member = record {
  bytes = 1;
  is_signed = false;
  aligned = false;
  align = 8;
  bit_size = 3;
  range_base = 0;
}

abbrev full_memory : Memory
full_memory a = 255

get_integer-set_integer_example :
    (h' : Memory) × (set_integer host_member 16 full_memory 100 50 ≡ some h')
    × (get_integer host_member 16 h' 100 ≡ some 50)
    × IsBytes h'
    × ((a : ℕ) → (a < 100 + 16 / 8) ⊎ (100 + 16 / 8 + (12 + 7) / 8 ≤ a) → h' a ≡ full_memory a)
get_integer-set_integer_example =
    get_integer-set_integer host_member 16 full_memory 100 50
      record { word = omega arith; nonempty = omega arith; size = omega arith } refl
      (λ a. omega arith)
      record {
        above = omega arith;
        below = omega arith;
        machine = omega arith;
        nonnegative = λ s. absurd (ground (arith, s));
      }

set_integer_clobbers_example :
    (h' : Memory) × (set_integer app_member 10 full_memory 100 5 ≡ some h')
    × (get_integer app_member 10 h' 100 ≡ some 5)
    × (h' (100 + 10 / 8) ≡ full_memory (100 + 10 / 8) % 2 ^ (10 % 8) + (5 - 0) * 2 ^ (10 % 8))
    × ((a : ℕ) → a ≢ 100 + 10 / 8 → h' a ≡ full_memory a)
set_integer_clobbers_example =
    set_integer_clobbers app_member 10 full_memory 100 5 (λ a. omega arith) (λ e. omega arith)
      (omega arith) (omega arith) (omega arith) (omega arith)
      record {
        above = omega arith;
        below = omega arith;
        machine = omega arith;
        nonnegative = λ s. absurd (ground (arith, s));
      }
