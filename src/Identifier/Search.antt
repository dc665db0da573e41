-- ===== src/Identifier/Search.antt =====
-- The loop over the connections of identifier_module.cpp, which breaks at the first match.
use net_blocks.Base.{
  ℕ, zero, suc, ◌+◌, ◌≤◌, ◌<◌, ◌≡◌, inl, inr, Bool, true, false, Option, none, some, arith,
  Bool-cases, subst, ap, refl,
}
use native.Mathlib.Decide.{dec_lt}
use net_blocks.Identifier.{find_index}

-- What the loop from `i` on finds.
pub data FirstAt (test : ℕ → Bool) (i n : ℕ) : Option ℕ → Type 0 where
  at_index :
      (j : ℕ)
      → i ≤ j
      → j < n
      → test j ≡ true
      → ((k : ℕ) → i ≤ k → k < j → test k ≡ false)
      → FirstAt test i n (some j)
  nowhere : ((k : ℕ) → i ≤ k → k < n → test k ≡ false) → FirstAt test i n none

later_first :
    (test : ℕ → Bool) (i n : ℕ) (r : Option ℕ)
    → test i ≡ false
    → FirstAt test (suc i) n r
    → FirstAt test i n r
later_first test i n r e (at_index j lo hi here before) =
    at_index j (omega arith) hi here (λ k p q. ground (arith, e, before k))
later_first test i n r e (nowhere out) = nowhere (λ k p q. ground (arith, e, out k))

find_index-FirstAt :
    (left i : ℕ) (test : ℕ → Bool) → FirstAt test i (i + left) (find_index left i test)
unfolding find_index
find_index-FirstAt zero i test = nowhere (λ k p q. absurd (omega arith))
find_index-FirstAt (suc left) i test =
    let ih = find_index-FirstAt left (suc i) test in
    elim (Bool-cases (test i)) [
      | inl e ↦ rw e (at_index i (omega arith) (omega arith) e (λ k p q. absurd (omega arith)))
      | inr e ↦
          let next : i + 1 ≡ suc i = omega arith in
          let end : i + suc left ≡ suc i + left = omega arith in
          rw (e, next, end) (later_first test i (suc i + left) (find_index left (suc i) test) e ih)
    ]

-- The whole loop.
pub scan : (test : ℕ → Bool) (n : ℕ) → FirstAt test 0 n (find_index n 0 test)
scan test n =
    subst (λ m. FirstAt test 0 m (find_index n 0 test)) (omega arith) (find_index-FirstAt n 0 test)

first_is :
    (test : ℕ → Bool) (n : ℕ) (r : Option ℕ) (j : ℕ)
    → FirstAt test 0 n r
    → j < n
    → test j ≡ true
    → ((k : ℕ) → k < j → test k ≡ false)
    → r ≡ some j
first_is test n r j (at_index i lo hi here before) below e none_before = elim (dec_lt i j) [
  | yes p ↦ absurd (ground (arith, here, none_before i))
  | no p ↦ elim (dec_lt j i) [
    | yes q ↦ absurd (ground (arith, e, before j))
    | no q ↦ ap some (omega arith)
  ]
]
first_is test n r j (nowhere out) below e none_before = absurd (ground (arith, e, out j))

-- The first match, where it is known.
pub find_index_first :
    (test : ℕ → Bool) (n j : ℕ)
    → j < n
    → test j ≡ true
    → ((k : ℕ) → k < j → test k ≡ false)
    → find_index n 0 test ≡ some j
find_index_first test n j below e before =
    first_is test n (find_index n 0 test) j (scan test n) below e before

absent_is :
    (test : ℕ → Bool) (n : ℕ) (r : Option ℕ)
    → FirstAt test 0 n r
    → ((k : ℕ) → k < n → test k ≡ false)
    → r ≡ none
absent_is test n r (at_index i lo hi here before) out = absurd (ground (arith, here, out i))
absent_is test n r (nowhere none_here) out = refl

pub find_index_absent :
    (test : ℕ → Bool) (n : ℕ) → ((k : ℕ) → k < n → test k ≡ false) → find_index n 0 test ≡ none
find_index_absent test n out = absent_is test n (find_index n 0 test) (scan test n) out

-- The only match.
pub find_index_only :
    (test : ℕ → Bool) (n j : ℕ)
    → j < n
    → test j ≡ true
    → ((k : ℕ) → k < n → test k ≡ true → k ≡ j)
    → find_index n 0 test ≡ some j
find_index_only test n j below e only = find_index_first test n j below e (λ k p.
    elim (Bool-cases (test k)) [
      | inl m ↦ absurd (let same = only k (omega arith) m in omega arith)
      | inr m ↦ m
    ])
