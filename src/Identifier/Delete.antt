-- ===== src/Identifier/Delete.antt =====
-- `delete_connection` of identifier_module.cpp, in both modes.
use net_blocks.Base.{
  ℕ, ◌-◌, ◌<◌, ◌≡◌, ◌≢◌, Bool, true, false, Option, none, some, arith, ◌==◌, if◌then◌else◌, sym,
  ◌∙◌, subst, ap, refl,
}
use native.Mathlib.Decide.{dec_lt}
use net_blocks.Queue.{put}
use net_blocks.Identifier.{
  FlowIdentifier, dst_identifiers_only, src_dst_identifier, NetState, match_connection, find_index,
  connection_at, retrieve_connection, delete_at, delete_connection,
}
use net_blocks.Identifier.Search.{
  FirstAt, at_index, nowhere, scan, find_index_first, find_index_absent, find_index_only,
}

-- No two active connections have the same local application id.
abbrev pub IsDistinct : NetState → Type 0
IsDistinct s =
    (j k : ℕ)
    → j < s.num_conn
    → k < s.num_conn
    → s.active_local_app_ids j ≡ s.active_local_app_ids k
    → j ≡ k

-- The search for a local application id.
abbrev has_id : NetState → ℕ → ℕ → Bool
has_id s b i = s.active_local_app_ids i == b

-- What `delete_at` makes of the table for destination identifiers.
delete_at_ids :
    (s : NetState) (i k : ℕ)
    → (delete_at dst_identifiers_only s i).active_local_app_ids k
      ≡ (if k == i then s.active_local_app_ids (s.num_conn - 1) else s.active_local_app_ids k)
unfolding delete_at put
delete_at_ids s i k = refl

delete_at_connections :
    (s : NetState) (i k : ℕ)
    → (delete_at dst_identifiers_only s i).active_connections k
      ≡ (if k == i then s.active_connections (s.num_conn - 1) else s.active_connections k)
unfolding delete_at put
delete_at_connections s i k = refl

delete_at_count :
    (flow : FlowIdentifier) (s : NetState) (i : ℕ) → (delete_at flow s i).num_conn ≡ s.num_conn - 1
unfolding delete_at
delete_at_count dst_identifiers_only s i = refl
delete_at_count src_dst_identifier s i = refl

module _ (s : NetState) (i : ℕ) (below : i < s.num_conn) (distinct : IsDistinct s) where
  abbrev after_delete : NetState
  after_delete = delete_at dst_identifiers_only s i

  deleted_free :
      (k : ℕ) → k < s.num_conn - 1 → has_id after_delete (s.active_local_app_ids i) k ≡ false
  deleted_free k p =
      let ids = delete_at_ids s i k in
      let apart = distinct k i (omega arith) below in
      let moved = distinct (s.num_conn - 1) i (omega arith) below in
      ground (arith, ids, apart, moved)

  deleted_kept :
      (b j : ℕ)
      → j < s.num_conn
      → s.active_local_app_ids j ≡ b
      → b ≢ s.active_local_app_ids i
      → (j' : ℕ) × (j' < s.num_conn - 1)
        × (has_id after_delete b j' ≡ true)
        × (after_delete.active_connections j' ≡ s.active_connections j)
  deleted_kept b j p e ne = elim (dec_lt j (s.num_conn - 1)) [
    | yes q ↦
        let ids = delete_at_ids s i j in
        let conns = delete_at_connections s i j in
        let other : (j == i) ≡ false = ground (arith, e, ne) in
        (j, q, ground (arith, ids, other), conns ∙ rw other refl)
    | no q ↦
        let last : j ≡ s.num_conn - 1 = omega arith in
        let ids = delete_at_ids s i i in
        let conns = delete_at_connections s i i in
        let here : (i == i) ≡ true = ground arith in
        let other : i ≢ j = λ same. ne (sym e ∙ ap s.active_local_app_ids (sym same)) in
        (i, omega arith, ground (arith, ids, here, last, e), conns ∙ rw (here, last) refl)
  ]

  after_delete-IsDistinct : IsDistinct after_delete
  after_delete-IsDistinct j k p q e =
      let count = delete_at_count dst_identifiers_only s i in
      let bound : after_delete.num_conn ≡ s.num_conn - 1 = count in
      let ids_j = delete_at_ids s i j in
      let ids_k = delete_at_ids s i k in
      let both = distinct j k (omega arith) (omega arith) in
      let last_j = distinct j (s.num_conn - 1) (omega arith) (omega arith) in
      let last_k = distinct (s.num_conn - 1) k (omega arith) (omega arith) in
      ground (arith, count, ids_j, ids_k, e, both, last_j, last_k)

retrieve_only :
    (s : NetState) (b r h j : ℕ)
    → j < s.num_conn
    → has_id s b j ≡ true
    → IsDistinct s
    → retrieve_connection dst_identifiers_only s b r h ≡ s.active_connections j
unfolding retrieve_connection match_connection connection_at
retrieve_only s b r h j p e distinct = ap (connection_at s) (
    find_index_only (has_id s b) s.num_conn j p e
      (λ k q m. let same = distinct k j q p in ground (arith, same, m, e)))

retrieve_absent :
    (flow : FlowIdentifier) (s : NetState) (b r h : ℕ)
    → ((k : ℕ) → k < s.num_conn → match_connection flow s k b r h ≡ false)
    → retrieve_connection flow s b r h ≡ 0
unfolding retrieve_connection connection_at
retrieve_absent flow s b r h out =
    ap (connection_at s) (find_index_absent (λ i. match_connection flow s i b r h) s.num_conn out)

-- What the theorem states of the table `s'` that is left.
pub record Deleted (s s' : NetState) (a : ℕ) : Type 0 where
  pub gone : (r h : ℕ) → retrieve_connection dst_identifiers_only s' a r h ≡ 0
  pub kept :
      (b r h : ℕ)
      → b ≢ a
      → retrieve_connection dst_identifiers_only s' b r h
        ≡ retrieve_connection dst_identifiers_only s b r h
  pub distinct_left : IsDistinct s'

delete_at-Deleted :
    (s : NetState) (i a : ℕ)
    → i < s.num_conn
    → s.active_local_app_ids i ≡ a
    → IsDistinct s
    → Deleted s (delete_at dst_identifiers_only s i) a
delete_at-Deleted s i a below own distinct = record {
  gone = λ r h. retrieve_absent dst_identifiers_only s' a r h (λ k p.
      let free = deleted_free s i below distinct k (omega (arith, count)) in
      unfold match_connection in ground (arith, free, own));
  kept =
      λ b r h ne. go b r h ne (find_index s.num_conn 0 (has_id s b)) (scan (has_id s b) s.num_conn);
  distinct_left = left;
}
  where
    s' : NetState
    s' = delete_at dst_identifiers_only s i

    count : s'.num_conn ≡ s.num_conn - 1
    count = delete_at_count dst_identifiers_only s i

    left : IsDistinct s'
    left = after_delete-IsDistinct s i below distinct

    go :
        (b r h : ℕ)
        → b ≢ a
        → (x : Option ℕ) → FirstAt (has_id s b) 0 s.num_conn x
        → retrieve_connection dst_identifiers_only s' b r h
          ≡ retrieve_connection dst_identifiers_only s b r h
    go b r h ne x (at_index j lo hi here before) =
        let e : s.active_local_app_ids j ≡ b = ground (arith, here) in
        let (j', p, m, conn) = deleted_kept s i below distinct b j hi e (λ q. ne (q ∙ own)) in
        retrieve_only s' b r h j' (omega (arith, count)) m left
        ∙ (conn ∙ sym (retrieve_only s b r h j hi here distinct))
    go b r h ne x (nowhere out) =
        retrieve_absent dst_identifiers_only s' b r h (λ k p.
          let ids = delete_at_ids s i k in
          let here = out k in
          let last = out (s.num_conn - 1) in
          unfold match_connection in ground (arith, ids, here, last, count))
        ∙ sym (
            retrieve_absent dst_identifiers_only s b r h
              (λ k p. unfold match_connection in out k (omega arith) p))

-- With destination identifiers, and no two active connections with one local application id,
-- `delete_connection` leaves no connection with the given application id; every other application id
-- still retrieves what it retrieved before, and the ids stay distinct.
pub delete_connection-retrieve_connection :
    (s : NetState) (a r h : ℕ)
    → IsDistinct s
    → Deleted s (delete_connection dst_identifiers_only s a r h) a
unfolding delete_connection match_connection
delete_connection-retrieve_connection s a r h distinct =
    go (find_index s.num_conn 0 (has_id s a)) (scan (has_id s a) s.num_conn)
  where
    go :
        (x : Option ℕ)
        → FirstAt (has_id s a) 0 s.num_conn x
        → Deleted s (elim x [ none ↦ s | some i ↦ delete_at dst_identifiers_only s i ]) a
    go x (at_index i lo hi here before) = delete_at-Deleted s i a hi (ground (arith, here)) distinct
    go x (nowhere out) = record {
      gone = λ r h.
          retrieve_absent dst_identifiers_only s a r h
            (λ k p. unfold match_connection in out k (omega arith) p);
      kept = λ b r h ne. refl;
      distinct_left = distinct;
    }

-- The slot of the deleted connection `i`, and the other slots, with source and destination identifiers.
clobbered :
    (s : NetState) (i k b r' h' : ℕ)
    → i < s.num_conn - 1
    → k < s.num_conn - 1
    → match_connection src_dst_identifier s k b r' h' ≡ false
    → s.active_remote_host_ids i ≢ h'
    → match_connection src_dst_identifier (delete_at src_dst_identifier s i) k b r' h' ≡ false
unfolding delete_at put match_connection
clobbered s i k b r' h' below p out ne = ground (arith, out)

delete_connection_found :
    (flow : FlowIdentifier) (s : NetState) (i a r h : ℕ)
    → find_index s.num_conn 0 (λ k. match_connection flow s k a r h) ≡ some i
    → delete_connection flow s a r h ≡ delete_at flow s i
unfolding delete_connection
delete_connection_found flow s i a r h found =
    ap (λ x. elim x as (λ _. NetState) [ none ↦ s | some i ↦ delete_at flow s i ]) found

-- With source and destination identifiers, `delete_connection` of a connection in front of the last
-- one makes the last one unreachable, if the hosts of the two differ and no other connection has the
-- identifiers of the last: they retrieved it before, and retrieve none afterwards.
pub delete_connection_loses :
    (s : NetState) (i a r h a' r' h' : ℕ)
    → i < s.num_conn - 1
    → find_index s.num_conn 0 (λ k. match_connection src_dst_identifier s k a r h) ≡ some i
    → match_connection src_dst_identifier s (s.num_conn - 1) a' r' h' ≡ true
    → ((k : ℕ) → k < s.num_conn - 1 → match_connection src_dst_identifier s k a' r' h' ≡ false)
    → s.active_remote_host_ids i ≢ h'
    → (retrieve_connection src_dst_identifier s a' r' h' ≡ s.active_connections (s.num_conn - 1))
      × (retrieve_connection src_dst_identifier
            (delete_connection src_dst_identifier s a r h)
            a'
            r'
            h'
          ≡ 0)
unfolding retrieve_connection connection_at
delete_connection_loses s i a r h a' r' h' below found last only ne =
    let s' = delete_at src_dst_identifier s i in
    let count = delete_at_count src_dst_identifier s i in
    (
      ap (connection_at s) (
          find_index_first (λ k. match_connection src_dst_identifier s k a' r' h') s.num_conn
            (s.num_conn - 1) (omega arith) last only),
      subst (λ t. retrieve_connection src_dst_identifier t a' r' h' ≡ 0)
          (sym (delete_connection_found src_dst_identifier s i a r h found))
          (retrieve_absent src_dst_identifier s' a' r' h' (λ k p.
            let bound : k < s.num_conn - 1 = omega (arith, count) in
            clobbered s i k a' r' h' below bound (only k bound) ne)),
    )
