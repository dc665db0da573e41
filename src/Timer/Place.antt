-- ===== src/Timer/Place.antt =====
-- The search of `nb__insert_timer` for a place, and the links that it writes there.
use net_blocks.Base.{
  ℕ, zero, suc, ◌<◌, ◌≡◌, ◌≢◌, refl, sym, ap, subst, ◌∙◌, ◌⊎◌, inl, inr, true, false, Option, some,
  List, [], ◌∷◌, arith, ltb, ◌==◌, length, Bool-cases,
}
use net_blocks.Timer.{Ptr, null, TimerObj, update, find_place, link_behind}
use net_blocks.Timer.Segment.{NotIn, Linked, Linked-frame, Same-except}
use net_blocks.Timer.Sorted.{insert_sorted, timeout_in, NotIn-insert_sorted, SameData}

-- What linking `t` behind `prev` makes of the heap `h`: among `xs`, which follow `prev`.
record Spliced (h g : Ptr → TimerObj) (t prev : Ptr) (xs ys : List Ptr) : Type 0 where
  chain : Linked g prev (g prev).next ys
  back : (g prev).prev ≡ (h prev).prev
  frame : (q : Ptr) → q ≢ t → q ≢ prev → NotIn q xs → g q ≡ h q
  same_data : (q : Ptr) → SameData (g q) (h q)

-- The timers that `link_behind` writes, and those that it leaves alone.
record LinkedAt (h g : Ptr → TimerObj) (t prev curr : Ptr) : Type 0 where
  self : g t ≡ record (h t) { next = curr; prev = prev }
  before : g prev ≡ record (h prev) { next = t }
  behind : curr ≢ null → g curr ≡ record (h curr) { prev = t }
  others : (q : Ptr) → q ≢ t → q ≢ prev → (q ≢ curr) ⊎ (curr ≡ null) → g q ≡ h q

link_behind_lem :
    (h : Ptr → TimerObj) (t prev curr : Ptr)
    → prev ≢ t
    → (curr ≡ null) ⊎ ((curr ≢ t) × (curr ≢ prev))
    → LinkedAt h (link_behind h t prev curr) t prev curr
unfolding link_behind update
link_behind_lem h t prev curr ne apart = record {
  self = ground arith;
  before = ground arith;
  behind = λ some_curr. ground arith;
  others = λ q nt np nc. ground arith;
}

SameData-of : (a : TimerObj) → SameData a a
SameData-of a = (refl, refl, refl)

pub link_behind-SameData :
    (h : Ptr → TimerObj) (t prev curr q : Ptr) → SameData (link_behind h t prev curr q) (h q)
unfolding link_behind update
link_behind-SameData h t prev curr q = ground arith

module _ (h : Ptr → TimerObj) (t : Ptr) (ht : t ≢ null) where
  -- The place is between `prev` and the first of `xs`.
  splice_here :
      (prev curr : Ptr) (xs : List Ptr)
      → prev ≢ t
      → NotIn t xs
      → NotIn prev xs
      → Linked h prev curr xs
      → Spliced h (link_behind h t prev curr) t prev xs (t ∷ xs)
  splice_here prev curr [] ne ot op l =
      let at = link_behind_lem h t prev curr ne (inl l) in
      record {
        chain = (
          ap (λ r. r.next) at.before,
          ht,
          ap (λ r. r.prev) at.self,
          tt,
          ap (λ r. r.next) at.self ∙ l,
        );
        back = ap (λ r. r.prev) at.before;
        frame = λ q nt np out. at.others q nt np (inr l);
        same_data = link_behind-SameData h t prev curr;
      }
  splice_here prev curr (x ∷ xs) ne (ox, ot) (px, op) (here, nx, bx, dx, l) =
      let apart : (curr ≢ t) × (curr ≢ prev) = (λ e. ox (sym e ∙ here), λ e. px (sym e ∙ here)) in
      let at = link_behind_lem h t prev curr ne (inr apart) in
      let g = link_behind h t prev curr in
      let gx : g x ≡ record (h x) { prev = t } =
        subst (λ c. g c ≡ record (h c) { prev = t }) here (at.behind (λ e. nx (sym here ∙ e))) in
      record {
        chain = (
          ap (λ r. r.next) at.before,
          ht,
          ap (λ r. r.prev) at.self,
          (ox, ot),
          (
            ap (λ r. r.next) at.self ∙ here,
            nx,
            ap (λ r. r.prev) gx,
            dx,
            subst (λ (q : Ptr). Linked g x q xs) (sym (ap (λ r. r.next) gx))
                (Linked-frame h g x (h x).next xs
                  (Same-except g h t prev x xs
                    (λ q nt np nc. at.others q nt np (inl (λ e. nc (e ∙ here)))) ot op dx)
                  l),
          ),
        );
        back = ap (λ r. r.prev) at.before;
        frame = λ q nt np (nq, out). at.others q nt np (inl (λ e. nq (e ∙ here)));
        same_data = link_behind-SameData h t prev curr;
      }

  -- The place is further on, behind `x`.
  splice_later :
      (g : Ptr → TimerObj) (prev x : Ptr) (xs ys : List Ptr)
      → prev ≢ x
      → prev ≢ t
      → x ≢ null
      → (h x).prev ≡ prev
      → (h prev).next ≡ x
      → NotIn prev xs
      → NotIn x ys
      → Spliced h g t x xs ys
      → Spliced h g t prev (x ∷ xs) (x ∷ ys)
  splice_later g prev x xs ys px pt nx bx fx op ox s =
      let kept : g prev ≡ h prev = s.frame prev pt px op in
      record {
        chain = (ap (λ r. r.next) kept ∙ fx, nx, s.back ∙ bx, ox, s.chain);
        back = ap (λ r. r.prev) kept;
        frame = λ q nt np (nq, out). s.frame q nt nq out;
        same_data = s.same_data;
      }

  -- The loop finds the place, if the fuel covers the timers that are left.
  find_place-Spliced :
      (fuel to : ℕ) (prev curr : Ptr) (xs : List Ptr)
      → length xs < fuel
      → prev ≢ null
      → prev ≢ t
      → NotIn t xs
      → NotIn prev xs
      → (h prev).next ≡ curr
      → Linked h prev curr xs
      → (p' c' : Ptr) × (find_place fuel h to prev curr ≡ some (p', c'))
        × (p' ≢ null)
        × Spliced h (link_behind h t p' c') t prev xs (insert_sorted (timeout_in h) to t xs)
  unfolding find_place insert_sorted
  find_place-Spliced zero to prev curr xs fuel hp ne ot op f l = absurd (omega arith)
  find_place-Spliced (suc fuel) to prev curr [] le hp ne ot op f l =
      (prev, curr, ground arith, hp, splice_here prev curr [] ne ot op l)
  find_place-Spliced (suc fuel) to prev curr (x ∷ xs) le hp ne (ox, ot) (px, op) f
        (here, nx, bx, dx, l) =
      let more : (curr == null) ≡ false = ground arith in
      elim (Bool-cases (ltb to (h x).timeout)) [
        | inl e ↦ (
          prev,
          curr,
          rw (more, here, e),
          hp,
          rw e (splice_here prev curr (x ∷ xs) ne (ox, ot) (px, op) (here, nx, bx, dx, l)),
        )
        | inr e ↦
            let (p', c', found, np, s) =
              find_place-Spliced fuel to x (h x).next xs (omega arith) nx (λ q. ox (sym q)) ot dx
                refl l in
            (
              p',
              c',
              rw (more, here, e, found),
              np,
              rw e (
                  splice_later (link_behind h t p' c') prev x xs
                    (insert_sorted (timeout_in h) to t xs) px ne nx bx (f ∙ here) op
                    (NotIn-insert_sorted (timeout_in h) to t x xs (λ q. ox (sym q)) dx) s),
            )
      ]

-- The two ends of the search from the head of the list.
pub data Found (h : Ptr → TimerObj) (t head : Ptr) (ys : List Ptr) (xs : List Ptr)
    : Option (Ptr × Ptr) → Type 0 where
  first : ys ≡ t ∷ xs → Found h t head ys xs (some (null, head))
  behind :
      (p c : Ptr)
      → p ≢ null
      → Linked (link_behind h t p c) null head ys
      → Found h t head ys xs (some (p, c))

pub find_place-Found :
    (fuel : ℕ) (h : Ptr → TimerObj) (t to head : Ptr) (xs : List Ptr)
    → t ≢ null
    → length xs < fuel
    → NotIn t xs
    → Linked h null head xs
    → Found h t head (insert_sorted (timeout_in h) to t xs) xs (find_place fuel h to null head)
unfolding find_place insert_sorted
find_place-Found zero h t to head xs nt le out l = absurd (omega arith)
find_place-Found (suc fuel) h t to head [] nt le out l =
    let last : (head == null) ≡ true = ground arith in rw last (first refl)
find_place-Found (suc fuel) h t to head (x ∷ xs) nt le (ox, out) (here, nx, bx, dx, l) =
    let more : (head == null) ≡ false = ground arith in
    elim (Bool-cases (ltb to (h x).timeout)) [
      | inl e ↦ rw (more, here, e) (first refl)
      | inr e ↦
          let (p, c, found, np, s) =
            find_place-Spliced h t nt fuel to x (h x).next xs (omega arith) nx (λ q. ox (sym q)) out
              dx refl l in
          let ys = insert_sorted (timeout_in h) to t xs in
          rw (more, here, e, found)
            (behind p c np (
              refl,
              nx,
              s.back ∙ bx,
              NotIn-insert_sorted (timeout_in h) to t x xs (λ q. ox (sym q)) dx,
              s.chain,
            ))
    ]
