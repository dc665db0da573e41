-- ===== src/Identifier/Table.antt =====
-- The table of active connections of identifier_module.cpp.
use net_blocks.Base.{
  ℕ, ◌+◌, ◌<◌, ◌≡◌, Bool, true, false, ◌&&◌, Option, some, arith, ltb, ◌==◌, sym, ◌∙◌, subst, ap,
  refl,
}
use native.Mathlib.Decide.{dec_lt}
use net_blocks.Queue.{put}
use net_blocks.Identifier.{
  FlowIdentifier, dst_identifiers_only, src_dst_identifier, NetState, max_active_connections,
  match_connection, find_index, connection_at, retrieve_connection, put_connection, add_connection,
}
use net_blocks.Identifier.Search.{
  FirstAt, at_index, nowhere, scan, find_index_first, find_index_absent,
}

-- Whether two sets of identifiers name the same flow.
unfoldable pub is_same_flow : FlowIdentifier → ℕ → ℕ → ℕ → ℕ → ℕ → ℕ → Bool
is_same_flow src_dst_identifier a r h a' r' h' = (a == a') && ((r == r') && (h == h'))
is_same_flow dst_identifiers_only a r h a' r' h' = a == a'

-- No active connection has these identifiers.
abbrev pub IsFree : FlowIdentifier → NetState → ℕ → ℕ → ℕ → Type 0
IsFree flow s a r h = (k : ℕ) → k < s.num_conn → match_connection flow s k a r h ≡ false

extended_same :
    (test test' : ℕ → Bool) (n : ℕ)
    → ((k : ℕ) → k < n → test' k ≡ test k)
    → test' n ≡ false
    → find_index (n + 1) 0 test' ≡ find_index n 0 test
extended_same test test' n same e = go (find_index n 0 test) (scan test n)
  where
    go : (r : Option ℕ) → FirstAt test 0 n r → find_index (n + 1) 0 test' ≡ r
    go r (at_index j lo hi here before) =
        find_index_first test' (n + 1) j (omega arith) (same j hi ∙ here)
          (λ k p. same k (omega arith) ∙ before k (omega arith) p)
    go r (nowhere out) = find_index_absent test' (n + 1) (λ k p. elim (dec_lt k n) [
      | yes q ↦ same k q ∙ out k (omega arith) q
      | no q ↦ let last : k ≡ n = omega arith in ap test' last ∙ e
    ])

-- What `add_connection` makes of the table.
record Added (flow : FlowIdentifier) (s s' : NetState) (c a r h : ℕ) : Type 0 where
  count : s'.num_conn ≡ s.num_conn + 1
  last : s'.active_connections s.num_conn ≡ c
  kept : (k : ℕ) → k < s.num_conn → s'.active_connections k ≡ s.active_connections k
  match_last :
      (a' r' h' : ℕ)
      → match_connection flow s' s.num_conn a' r' h' ≡ is_same_flow flow a r h a' r' h'
  match_kept :
      (k a' r' h' : ℕ)
      → k < s.num_conn
      → match_connection flow s' k a' r' h' ≡ match_connection flow s k a' r' h'

put_connection-Added :
    (flow : FlowIdentifier) (s : NetState) (c a r h : ℕ)
    → Added flow s (put_connection flow s c a r h) c a r h
unfolding put_connection put match_connection is_same_flow
put_connection-Added dst_identifiers_only s c a r h = record {
  count = refl;
  last = ground arith;
  kept = λ k p. ground arith;
  match_last = λ a' r' h'. ground arith;
  match_kept = λ k a' r' h' p. ground arith;
}
put_connection-Added src_dst_identifier s c a r h = record {
  count = refl;
  last = ground arith;
  kept = λ k p. ground arith;
  match_last = λ a' r' h'. ground arith;
  match_kept = λ k a' r' h' p. ground arith;
}

is_same_flow_refl : (flow : FlowIdentifier) (a r h : ℕ) → is_same_flow flow a r h a r h ≡ true
unfolding is_same_flow
is_same_flow_refl dst_identifiers_only a r h = ground arith
is_same_flow_refl src_dst_identifier a r h = ground arith

connection_at_kept :
    (flow : FlowIdentifier) (s s' : NetState) (c a r h : ℕ) (test : ℕ → Bool)
    → Added flow s s' c a r h
    → connection_at s' (find_index s.num_conn 0 test)
      ≡ connection_at s (find_index s.num_conn 0 test)
connection_at_kept flow s s' c a r h test added =
    go (find_index s.num_conn 0 test) (scan test s.num_conn)
  where
    go : (x : Option ℕ) → FirstAt test 0 s.num_conn x → connection_at s' x ≡ connection_at s x
    go x (at_index j lo hi here before) = unfold connection_at in added.kept j hi
    go x (nowhere out) = unfold connection_at in refl

-- With room in the table, and identifiers that no active connection has, `add_connection` succeeds.
-- After it the identifiers retrieve the new connection, and every other flow retrieves what it
-- retrieved before.
pub add_connection-retrieve_connection :
    (flow : FlowIdentifier) (s : NetState) (c a r h : ℕ)
    → s.num_conn < max_active_connections
    → IsFree flow s a r h
    → (s' : NetState) × (add_connection flow s c a r h ≡ some s')
      × (retrieve_connection flow s' a r h ≡ c)
      × ((a' r' h' : ℕ)
          → is_same_flow flow a r h a' r' h' ≡ false
          → retrieve_connection flow s' a' r' h' ≡ retrieve_connection flow s a' r' h')
unfolding add_connection retrieve_connection
add_connection-retrieve_connection flow s c a r h room free = (s', rw e refl, own, others)
  where
    s' : NetState
    s' = put_connection flow s c a r h

    e : ltb s.num_conn max_active_connections ≡ true
    e = ground arith

    added : Added flow s s' c a r h
    added = put_connection-Added flow s c a r h

    own : connection_at s' (find_index s'.num_conn 0 (λ i. match_connection flow s' i a r h)) ≡ c
    own =
        let found =
          find_index_first (λ i. match_connection flow s' i a r h) (s.num_conn + 1) s.num_conn
            (omega arith) (added.match_last a r h ∙ is_same_flow_refl flow a r h)
            (λ k p. added.match_kept k a r h p ∙ free k p) in
        ap (connection_at s') (
          subst (λ n. find_index n 0 (λ i. match_connection flow s' i a r h) ≡ some s.num_conn)
            (sym added.count) found)
        ∙ (unfold connection_at in added.last)

    others :
        (a' r' h' : ℕ)
        → is_same_flow flow a r h a' r' h' ≡ false
        → connection_at s' (find_index s'.num_conn 0 (λ i. match_connection flow s' i a' r' h'))
          ≡ connection_at s (find_index s.num_conn 0 (λ i. match_connection flow s i a' r' h'))
    others a' r' h' ne =
        let same =
          extended_same (λ i. match_connection flow s i a' r' h')
            (λ i. match_connection flow s' i a' r' h') s.num_conn
            (λ k p. added.match_kept k a' r' h' p) (added.match_last a' r' h' ∙ ne) in
        ap (connection_at s') (
          subst
            (λ n.
              find_index n 0 (λ i. match_connection flow s' i a' r' h')
              ≡ find_index s.num_conn 0 (λ i. match_connection flow s i a' r' h'))
            (sym added.count) same)
        ∙ connection_at_kept flow s s' c a r h (λ i. match_connection flow s i a' r' h') added
