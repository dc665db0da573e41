-- ===== src/Packet/Aligned.antt =====
-- Members of packet.h that start on a byte: `set_integer` then `get_integer`.
use native.Mathlib.Nat.{mod-eq_of_lt, div-eq_of_lt}
use net_blocks.Base.{
  ℕ, ◌+◌, ◌-◌, ◌*◌, ◌/◌, ◌%◌, ◌^◌, ◌≤◌, ◌<◌, ◌≡◌, sym, ap, subst, ◌∙◌, ◌⊎◌, inl, inr, true, false,
  some, arith, ◌==◌, leb, if◌then◌else◌, Bool-cases,
}
use net_blocks.Base.Words.{
  u64, bit_or_fields, bit_and_mask, bit_and_complement, fields-lt, high-lt, fields-div, fields-mod,
  high_same,
}
use net_blocks.Packet.{
  byte_size, IntegerMember, get_value_mask, widen, extract_bits_upper, set_bits_upper, get_raw,
  set_raw, get_integer, set_integer,
}
use net_blocks.Packet.Bytes.{Memory, read_word, write_word, IsBytes}
use net_blocks.Packet.Word.{
  read_word-lt, read_word-write_word, write_word-outside, write_word-high, write_word-IsBytes,
}

-- `T` has at most 64 bits, and the member no more than `T`.
pub record IsWellFormed (m : IntegerMember) : Type 0 where
  pub word : m.bytes ≤ 8
  pub nonempty : 0 < m.bytes
  pub size : m.bit_size ≤ m.bytes * 8

-- The values that a member can hold. A signed `T` is used at full width, for values that are
-- not negative.
pub record Fits (m : IntegerMember) (v : ℕ) : Type 0 where
  pub above : m.range_base ≤ v
  pub below : v - m.range_base < 2 ^ m.bit_size
  pub machine : v < 2 ^ 64
  pub nonnegative :
      m.is_signed ≡ true → (m.bit_size ≡ m.bytes * 8) × (v - m.range_base < 2 ^ (8 * m.bytes - 1))

pub get_value_mask-some : (n : ℕ) → n < 64 → get_value_mask n ≡ some (2 ^ n - 1)
unfolding get_value_mask
get_value_mask-some n h = ground arith

-- The word that `set_bits_upper` leaves: the old bits above the member, and the value below.
abbrev pub merged : IntegerMember → ℕ → ℕ → ℕ
merged m old val =
    if m.bit_size == m.bytes * byte_size then val else old / 2 ^ m.bit_size * 2 ^ m.bit_size + val

module _ (m : IntegerMember) (ok : IsWellFormed m) where
  merged-parts :
      (old val : ℕ)
      → old < 2 ^ (m.bytes * 8)
      → val < 2 ^ m.bit_size
      → (merged m old val < 2 ^ (m.bytes * 8))
        × (merged m old val / 2 ^ m.bit_size
            ≡ (if m.bit_size == m.bytes * byte_size then 0 else old / 2 ^ m.bit_size))
        × (merged m old val % 2 ^ m.bit_size ≡ val)
  merged-parts old val ho hv = elim (Bool-cases (m.bit_size == m.bytes * byte_size)) [
    | inl e ↦
        let same : m.bit_size ≡ m.bytes * 8 = ground arith in
        rw (e, ← same) (hv, div-eq_of_lt hv, mod-eq_of_lt hv)
    | inr e ↦ rw e (
      fields-lt m.bit_size (m.bytes * 8) (old / 2 ^ m.bit_size) val ok.size
          (high-lt m.bit_size (m.bytes * 8) old ok.size ho) hv,
      fields-div m.bit_size (old / 2 ^ m.bit_size) val hv,
      fields-mod m.bit_size (old / 2 ^ m.bit_size) val hv,
    )
  ]

  set_bits_upper_lem :
      (h : Memory) (base from to val : ℕ)
      → IsBytes h
      → from % 8 ≡ 0
      → to - from ≡ m.bit_size
      → val < 2 ^ m.bit_size
      → set_bits_upper m h base from to val
        ≡ some (
            write_word m.bytes h
              (base + from / 8)
              (merged m (read_word m.bytes h (base + from / 8)) val))
  unfolding set_bits_upper
  set_bits_upper_lem h base from to val hb start len fits =
      elim (Bool-cases (m.bit_size == m.bytes * byte_size)) [
        | inl e ↦ rw (start, len, e)
        | inr e ↦
            let old = read_word m.bytes h (base + from / 8) in
            let narrow : m.bit_size < 64 = ground (arith, ok.word, ok.size) in
            let hold : old < 2 ^ (m.bytes * 8) = read_word-lt m.bytes h (base + from / 8) hb in
            let lt =
              fields-lt m.bit_size (m.bytes * 8) (old / 2 ^ m.bit_size) val ok.size
                (high-lt m.bit_size (m.bytes * 8) old ok.size hold) fits in
            rw (start, len, e, get_value_mask-some m.bit_size narrow)
              (rw (
                bit_and_complement (m.bytes * 8) m.bit_size old ok.size hold,
                bit_or_fields m.bit_size (old / 2 ^ m.bit_size) val fits,
                mod-eq_of_lt lt,
              ))
      ]

  -- What `extract_bits_upper` reads of a word.
  extract_bits_upper_lem :
      (h : Memory) (base from to : ℕ)
      → IsBytes h
      → from % 8 ≡ 0
      → to - from ≡ m.bit_size
      → (m.is_signed ≡ true
          → (m.bit_size ≡ m.bytes * 8)
            × (read_word m.bytes h (base + from / 8) < 2 ^ (8 * m.bytes - 1)))
      → extract_bits_upper m h base from to
        ≡ some (read_word m.bytes h (base + from / 8) % 2 ^ m.bit_size)
  unfolding extract_bits_upper widen
  extract_bits_upper_lem h base from to hb start len plain =
      let word = read_word m.bytes h (base + from / 8) in
      let hold : word < 2 ^ (m.bytes * 8) = read_word-lt m.bytes h (base + from / 8) hb in
      elim (Bool-cases (m.bit_size == m.bytes * byte_size)) [
        | inl e ↦
            let same : m.bit_size ≡ m.bytes * 8 = ground arith in
            rw (start, len, e, widen-nonnegative word (λ s. (plain s).1))
              (ap some (sym (mod-eq_of_lt (subst (λ t. word < 2 ^ t) (sym same) hold))))
        | inr e ↦
            let narrow : m.bit_size < 64 = ground (arith, ok.word, ok.size) in
            rw
              (
                start,
                len,
                e,
                get_value_mask-some m.bit_size narrow,
                widen-nonnegative word (λ s. (plain s).1),
              )
              (ap some (bit_and_mask m.bit_size word))
      ]
    where
      widen-nonnegative : (x : ℕ) → (m.is_signed ≡ true → x < 2 ^ (8 * m.bytes - 1)) → widen m x ≡ x
      widen-nonnegative x small = elim (Bool-cases m.is_signed) [
        | inl s ↦
            let lt : x < 2 ^ (8 * m.bytes - 1) = small s in
            let no_sign : leb (2 ^ (8 * m.bytes - 1)) x ≡ false = ground arith in rw (s, no_sign)
        | inr s ↦ rw s
      ]

-- What `set_integer` stores: the value less the base of the custom range.
abbrev pub raw_value : IntegerMember → ℕ → ℕ
raw_value m v = v - m.range_base

pub stored_raw :
    (m : IntegerMember) (v : ℕ)
    → Fits m v
    → (if m.range_base == 0 then v else u64 (v + 2 ^ 64 - m.range_base)) ≡ v - m.range_base
stored_raw m v fits = ground arith

-- A member that starts on a byte, is no wider than its type, and whose type has at most 64 bits:
-- `set_integer` succeeds for a value that fits (with a signed type, at full width and not negative);
-- `get_integer` then gives the value back, and no byte outside the member is changed.
pub get_integer-set_integer :
    (m : IntegerMember) (offset : ℕ) (h : Memory) (base v : ℕ)
    → IsWellFormed m
    → offset % 8 ≡ 0
    → IsBytes h
    → Fits m v
    → (h' : Memory) × (set_integer m offset h base v ≡ some h')
      × (get_integer m offset h' base ≡ some v)
      × IsBytes h'
      × ((a : ℕ)
          → (a < base + offset / 8) ⊎ (base + offset / 8 + (m.bit_size + 7) / 8 ≤ a)
          → h' a ≡ h a)
unfolding set_integer set_raw get_integer get_raw
get_integer-set_integer m offset h base v ok start hb fits =
    (written, stored_written, read_back, hb', λ a out. frame a out)
  where
    raw : ℕ
    raw = v - m.range_base

    end : ℕ
    end = offset + m.bit_size

    addr : ℕ
    addr = base + offset / 8

    old : ℕ
    old = read_word m.bytes h addr

    written : Memory
    written = write_word m.bytes h addr (merged m old raw)

    len : end - offset ≡ m.bit_size
    len = omega arith

    hb' : IsBytes written
    hb' = write_word-IsBytes m.bytes h addr (merged m old raw) hb

    parts :
        (merged m old raw < 2 ^ (m.bytes * 8))
        × (merged m old raw / 2 ^ m.bit_size
            ≡ (if m.bit_size == m.bytes * byte_size then 0 else old / 2 ^ m.bit_size))
        × (merged m old raw % 2 ^ m.bit_size ≡ raw)
    parts = merged-parts m ok old raw (read_word-lt m.bytes h addr hb) fits.below

    word_back : read_word m.bytes written addr ≡ merged m old raw
    word_back = read_word-write_word m.bytes h addr (merged m old raw) parts.0

    frame : (a : ℕ) → (a < addr) ⊎ (addr + (m.bit_size + 7) / 8 ≤ a) → written a ≡ h a
    frame a (inl below) = write_word-outside m.bytes h addr (merged m old raw) a (inl below)
    frame a (inr past) = elim (Bool-cases (m.bit_size == m.bytes * byte_size)) [
      | inl e ↦ write_word-outside m.bytes h addr (merged m old raw) a (inr (ground arith))
      | inr e ↦
          write_word-high ((m.bit_size + 7) / 8) m.bytes h addr (merged m old raw) a hb
            (high_same m.bit_size ((m.bit_size + 7) / 8 * 8) (merged m old raw) old (omega arith)
              (parts.1 ∙ rw e))
            past
    ]

    plain :
        m.is_signed ≡ true
        → (m.bit_size ≡ m.bytes * 8) × (read_word m.bytes written addr < 2 ^ (8 * m.bytes - 1))
    plain s = let (full, small) = fits.nonnegative s in (full, rw word_back (ground arith))

    stored_written : set_integer m offset h base v ≡ some written
    stored_written =
        rw (stored_raw m v fits, start)
          (set_bits_upper_lem m ok h base offset end raw hb start len fits.below)

    read_back : get_integer m offset written base ≡ some v
    read_back =
        rw (start, extract_bits_upper_lem m ok written base offset end hb' start len plain)
          (ap some (rw (word_back, parts.2) (ground arith)))
