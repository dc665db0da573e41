-- ===== src/Packet/Local.antt =====
-- An integer member that starts on a byte and ends on one is read from its own bytes only.
use Prim.Native.Nat.{bit_and}
use native.Mathlib.Nat.{div-add-mod', mod-lt}
use net_blocks.Base.{
  ℕ, zero, suc, ◌+◌, ◌-◌, ◌*◌, ◌/◌, ◌%◌, ◌^◌, ◌≤◌, ◌<◌, ◌≡◌, refl, ap, ◌∙◌, ◌⊎◌, inl, inr, true,
  false, some, arith, ◌==◌, Bool-cases,
}
use net_blocks.Base.Words.{bit_and_mask, fields-mod}
use net_blocks.Packet.{
  byte_size, IntegerMember, widen, extract_bits_upper, get_raw, get_integer, get_value_mask,
}
use net_blocks.Packet.Bytes.{Memory, read_word, IsBytes}
use net_blocks.Packet.Word.{pow_bytes}
use net_blocks.Packet.Aligned.{IsWellFormed, get_value_mask-some}

pow_pos : (j : ℕ) → 0 < 2 ^ (j * 8)
pow_pos zero = omega arith
pow_pos (suc j) = omega (arith, pow_bytes j, pow_pos j)

regroup : (q n : ℕ) → q * (256 * n) ≡ 256 * (q * n)
regroup q n = grind arith

-- The lower bytes of a word are a word.
read_word-mod :
    (j k : ℕ) (h : Memory) (a : ℕ)
    → IsBytes h
    → j ≤ k
    → read_word k h a % 2 ^ (j * 8) ≡ read_word j h a
unfolding read_word
read_word-mod zero k h a ok le = omega arith
read_word-mod (suc j) zero h a ok le = absurd (omega arith)
read_word-mod (suc j) (suc k) h a ok le =
    let y = read_word k h (a + 1) in
    let n = 2 ^ (j * 8) in
    let ih : y % n ≡ read_word j h (a + 1) = read_word-mod j k h (a + 1) ok (omega arith) in
    let lo = h a + 256 * (y % n) in
    let split : y / n * n + y % n ≡ y = div-add-mod' y n in
    let small : y % n < n = mod-lt y (pow_pos j) in
    let fits : lo < 2 ^ (suc j * 8) = omega (arith, pow_bytes j, ok a) in
    let high : y / n * 2 ^ (suc j * 8) ≡ 256 * (y / n * n) =
      ap (λ t. y / n * t) (pow_bytes j) ∙ regroup (y / n) n in
    let whole : h a + 256 * y ≡ y / n * 2 ^ (suc j * 8) + lo = omega arith in
    ap (λ t. t % 2 ^ (suc j * 8)) whole
    ∙ fields-mod (suc j * 8) (y / n) lo fits
    ∙ ap (λ t. h a + 256 * t) ih

-- Such a member, with an unsigned type if it is narrower than its type.
pub record IsByteMember (m : IntegerMember) : Type 0 where
  pub formed : IsWellFormed m
  pub whole_bytes : m.bit_size ≡ m.bit_size / 8 * 8
  pub plain : (m.bit_size ≡ m.bytes * 8) ⊎ (m.is_signed ≡ false)

masked :
    (m : IntegerMember) (h : Memory) (at : ℕ)
    → IsByteMember m
    → IsBytes h
    → bit_and (read_word m.bytes h at) (2 ^ m.bit_size - 1) ≡ read_word (m.bit_size / 8) h at
masked m h at ok bytes =
    bit_and_mask m.bit_size (read_word m.bytes h at)
    ∙ ap (λ t. read_word m.bytes h at % 2 ^ t) ok.whole_bytes
    ∙ read_word-mod (m.bit_size / 8) m.bytes h at bytes (omega (arith, ok.formed.size))

read_word-moved :
    (k : ℕ) (g h : Memory) (q p : ℕ)
    → ((i : ℕ) → i < k → g (q + i) ≡ h (p + i))
    → read_word k g q ≡ read_word k h p
unfolding read_word
read_word-moved zero g h q p same = refl
read_word-moved (suc k) g h q p same =
    let first : g q ≡ h p =
      ap g (let e : q ≡ q + 0 = omega arith in e) ∙ same 0 (omega arith) ∙ ap h (omega arith) in
    let rest = read_word-moved k g h (q + 1) (p + 1) (λ i lt.
      let from : q + 1 + i ≡ q + (i + 1) = omega arith in
      let to : p + (i + 1) ≡ p + 1 + i = omega arith in
      ap g from ∙ same (i + 1) (omega arith) ∙ ap h to) in
    ap (λ b. b + 256 * read_word k g (q + 1)) first ∙ ap (λ w. h p + 256 * w) rest

-- The same for packets at two places.
pub get_integer_moved :
    (m : IntegerMember) (offset : ℕ) (g h : Memory) (q p : ℕ)
    → IsByteMember m
    → offset % 8 ≡ 0
    → IsBytes g
    → IsBytes h
    → ((i : ℕ) → i < m.bit_size / 8 → g (q + offset / 8 + i) ≡ h (p + offset / 8 + i))
    → get_integer m offset g q ≡ get_integer m offset h p
unfolding get_integer get_raw extract_bits_upper widen
get_integer_moved m offset g h q p ok start bg bh same =
    let from = q + offset / 8 in
    let to = p + offset / 8 in
    let len : offset + m.bit_size - offset ≡ m.bit_size = omega arith in
    let on : (offset % 8 == 0) ≡ true = ground (arith, start) in
    elim (Bool-cases (m.bit_size == m.bytes * byte_size)) [
      | inl full ↦
          let bytes : m.bytes ≡ m.bit_size / 8 = ground (arith, full) in
          let word : read_word m.bytes g from ≡ read_word m.bytes h to =
            read_word-moved m.bytes g h from to (λ i lt. same i (omega arith)) in
          rw (on, len, full, word) refl
      | inr narrow ↦
          let unsigned : m.is_signed ≡ false = ground (arith, ok.plain, narrow) in
          let word : read_word (m.bit_size / 8) g from ≡ read_word (m.bit_size / 8) h to =
            read_word-moved (m.bit_size / 8) g h from to same in
          let mask : get_value_mask m.bit_size ≡ some (2 ^ m.bit_size - 1) =
            get_value_mask-some m.bit_size
              (ground (arith, narrow, ok.formed.size, ok.formed.word)) in
          rw (on, len, narrow, unsigned, mask, masked m g from ok bg, masked m h to ok bh, word)
            refl
    ]

pub get_integer_ext :
    (m : IntegerMember) (offset : ℕ) (g h : Memory) (base : ℕ)
    → IsByteMember m
    → offset % 8 ≡ 0
    → IsBytes g
    → IsBytes h
    → ((i : ℕ) → i < m.bit_size / 8 → g (base + offset / 8 + i) ≡ h (base + offset / 8 + i))
    → get_integer m offset g base ≡ get_integer m offset h base
get_integer_ext m offset g h base ok start bg bh same =
    get_integer_moved m offset g h base base ok start bg bh same
