-- ===== src/Timer/Unlink.antt =====
-- The links that `nb__remove_timer` of nb_timer.c writes.
use net_blocks.Base.{
  ◌≡◌, ◌≢◌, sym, ap, subst, ◌∙◌, ◌⊎◌, inl, inr, false, List, [], ◌∷◌, arith, ◌==◌, if◌then◌else◌,
  Bool-cases,
}
use net_blocks.Timer.{Ptr, null, TimerObj, Timers, update, remove_timer}
use net_blocks.Timer.Segment.{NotIn, Linked, Linked-frame, Same-except}

-- The specification: the list without the timer.
unfoldable pub erase : Ptr → List Ptr → List Ptr
erase t [] = []
erase t (x ∷ xs) = if x == t then xs else x ∷ erase t xs

abbrev pub Has : Ptr → List Ptr → Type 0
Has t [] = ⊥
Has t (x ∷ xs) = (x ≡ t) ⊎ Has t xs

NotIn-erase : (t p : Ptr) (xs : List Ptr) → NotIn p xs → NotIn p (erase t xs)
unfolding erase
NotIn-erase t p [] out = tt
NotIn-erase t p (x ∷ xs) (here, out) = elim (Bool-cases (x == t)) [
  | inl e ↦ rw e out
  | inr e ↦ rw e (here, NotIn-erase t p xs out)
]

-- What the function writes, of the links of the old heap `h`.
pub record RemovedAt (h g : Ptr → TimerObj) (t : Ptr) : Type 0 where
  pub behind : (h t).next ≢ null → g (h t).next ≡ record (h (h t).next) { prev = (h t).prev }
  pub before : (h t).prev ≢ null → g (h t).prev ≡ record (h (h t).prev) { next = (h t).next }
  pub others :
      (q : Ptr)
      → q ≢ t
      → (q ≢ (h t).next) ⊎ ((h t).next ≡ null)
      → (q ≢ (h t).prev) ⊎ ((h t).prev ≡ null)
      → g q ≡ h q

pub remove_timer_at :
    (ts : Timers) (t : Ptr)
    → (ts.timer t).next ≢ t
    → (ts.timer t).prev ≢ t
    → ((ts.timer t).next ≢ (ts.timer t).prev) ⊎ ((ts.timer t).next ≡ null)
    → RemovedAt ts.timer (remove_timer ts t).timer t
unfolding remove_timer update
remove_timer_at ts t nt pt np = record {
  behind = λ some_next. ground arith;
  before = λ some_prev. ground arith;
  others = λ q qt qn qp. ground arith;
}

-- What follows `t` is not `q`, which is none of the timers behind `t`.
pub next_apart :
    (h : Ptr → TimerObj) (prev n q : Ptr) (xs : List Ptr)
    → Linked h prev n xs
    → NotIn q xs
    → (q ≢ n) ⊎ (n ≡ null)
next_apart h prev n q [] l out = inr l
next_apart h prev n q (x ∷ xs) (here, nx, bx, dx, l) (qx, out) = inl (λ e. qx (e ∙ here))

pub Has-later : (t y : Ptr) (ys : List Ptr) → (y == t) ≡ false → Has t (y ∷ ys) → Has t ys
Has-later t y ys e (inl same) = absurd (ground (arith, e, same))
Has-later t y ys e (inr m) = m

module _ (h g : Ptr → TimerObj) (t : Ptr) (at : RemovedAt h g t) where
  -- The timers behind `t`.
  pub rest_chain :
      (pv : Ptr) (rest : List Ptr)
      → (h t).prev ≡ pv
      → NotIn t rest
      → NotIn pv rest
      → Linked h t (h t).next rest
      → Linked g pv (h t).next rest
  rest_chain pv [] back ot op l = l
  rest_chain pv (x ∷ xs) back (ox, ot) (px, op) (here, nx, bx, dx, l) =
      let gx : g x ≡ record (h x) { prev = (h t).prev } =
        subst (λ c. g c ≡ record (h c) { prev = (h t).prev }) here
          (at.behind (λ e. nx (sym here ∙ e))) in
      (
        here,
        nx,
        ap (λ r. r.prev) gx ∙ back,
        dx,
        subst (λ (q : Ptr). Linked g x q xs) (sym (ap (λ r. r.next) gx))
            (Linked-frame h g x (h x).next xs
              (Same-except g h t x pv xs
                (λ q nt nx' np.
                  at.others q nt (inl (λ e. nx' (e ∙ here))) (inl (λ e. np (e ∙ back))))
                ot dx op)
              l),
      )

  -- `q` is none of the timers that the function writes.
  abbrev Untouched : Ptr → Type 0
  Untouched q = (q ≢ t) × ((q ≢ (h t).next) ⊎ ((h t).next ≡ null)) × (q ≢ (h t).prev)

  -- The timers from `x` on, with `t` behind `x`.
  pub middle_chain :
      (prev p x : Ptr) (xs : List Ptr)
      → Linked h prev p (x ∷ xs)
      → Has t xs
      → Linked g prev p (x ∷ erase t xs) × ((q : Ptr) → NotIn q (x ∷ xs) → Untouched q)
  unfolding erase
  middle_chain prev p x [] l m = elim m [ ]
  middle_chain prev p x (y ∷ ys) (here, nx, bx, (xy, dx), (hy, ny, by, dy, l)) m =
      elim (Bool-cases (y == t)) [
        | inl e ↦
            let same : y ≡ t = ground (arith, e) in
            let back : (h t).prev ≡ x = subst (λ c. (h c).prev ≡ x) same by in
            let dt : NotIn t ys = subst (λ c. NotIn c ys) same dy in
            let lt : Linked h t (h t).next ys = subst (λ c. Linked h c (h c).next ys) same l in
            let gx : g x ≡ record (h x) { next = (h t).next } =
              subst (λ c. g c ≡ record (h c) { next = (h t).next }) back
                (at.before (λ n. nx (sym back ∙ n))) in
            (
              (
                here,
                nx,
                ap (λ r. r.prev) gx ∙ bx,
                rw e dx,
                rw e (
                    subst (λ (q : Ptr). Linked g x q ys) (sym (ap (λ r. r.next) gx))
                      (rest_chain x ys back dt dx lt)),
              ),
              λ q (qx, (qy, out)). (
                λ n. qy (n ∙ sym same),
                next_apart h t (h t).next q ys lt out,
                λ n. qx (n ∙ back),
              ),
            )
        | inr e ↦
            let (chain, apart) =
              middle_chain x (h x).next y ys (hy, ny, by, dy, l) (Has-later t y ys e m) in
            let (xt, xn, xp) = apart x (xy, dx) in
            let gx : g x ≡ h x = at.others x xt xn (inl xp) in
            (
              (
                here,
                nx,
                ap (λ r. r.prev) gx ∙ bx,
                rw e (xy, NotIn-erase t x ys dx),
                rw e (
                    subst (λ (q : Ptr). Linked g x q (y ∷ erase t ys)) (sym (ap (λ r. r.next) gx))
                      chain),
              ),
              λ q (qx, out). apart q out,
            )
      ]
