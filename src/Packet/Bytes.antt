-- ===== src/Packet/Bytes.antt =====
-- Memory as bytes at addresses, and the little-endian words in it.
use net_blocks.Base.{ℕ, zero, suc, ◌+◌, ◌*◌, ◌/◌, ◌%◌, ◌<◌, ◌==◌, if◌then◌else◌}

abbrev pub Memory : Type 0
Memory = ℕ → ℕ

unfoldable pub update : Memory → ℕ → ℕ → Memory
update h a v b = if b == a then v else h b

-- The word of so many bytes at an address.
unfoldable pub read_word : ℕ → Memory → ℕ → ℕ
read_word zero h a = 0
read_word (suc k) h a = h a + 256 * read_word k h (a + 1)

unfoldable pub write_word : ℕ → Memory → ℕ → ℕ → Memory
unfolding update
write_word zero h a v = h
write_word (suc k) h a v = write_word k (update h a (v % 256)) (a + 1) (v / 256)

-- Every address holds a byte.
abbrev pub IsBytes : Memory → Type 0
IsBytes h = (a : ℕ) → h a < 256
