-- ===== src/Final/Runs.antt =====
-- Runs of `insert` of hashgraph.rs over a sequence of events, as gossip delivers them.
use jx.Base.{
  ℕ, ◌≤◌, ◌≡◌, refl, ◌∙◌, ◌⊎◌, true, false, Option, none, some, List, [], ◌∷◌, arith, nat_eq,
}
use jx.Base.Map
use jx.Roster.{Bytes}
use jx.Hashgraph.{
  EventHash, Event, EventRecord, Hashgraph, FameStatus, get_event, fame_of, is_decided, is_pending,
  is_round_decided,
}
use jx.Insert.{admit, insert, insert_admitted}
use jx.Final.{Later, Later-refl, Later-trans, record_fame}
use jx.Final.Insertion.{insert-Extends, insert_admitted-Keeps}
use jx.Hashgraph.{after_ask}

-- the state after each event of the list is inserted, an event refused changing nothing but what
-- `insert` wrote before the error
unfoldable pub insert_all : (Event → Bytes ⊎ EventHash) → List Event → Hashgraph → Hashgraph
insert_all hash_of [] hg = hg
insert_all hash_of (e ∷ es) hg = insert_all hash_of es (insert hash_of e hg).1

-- what one insertion keeps of the whole graph
record Advances (hg hg' : Hashgraph) : Type 0 where
  distinct : Map.DistinctKeys hg'.events
  decided : (n : ℕ) → is_round_decided hg n ≡ true → is_round_decided hg' n ≡ true
  watermark : hg.next_round_to_order ≤ hg'.next_round_to_order

insert-Advances :
    (hash_of : Event → Bytes ⊎ EventHash) (event : Event) (hg : Hashgraph)
    → Map.DistinctKeys hg.events
    → Advances hg (insert hash_of event hg).1
unfolding insert
insert-Advances hash_of event hg d =
    after_ask (λ s. Advances hg s) (admit hash_of event) (insert_admitted event) hg
      (record { distinct = d; decided = λ n e. e; watermark = omega arith })
      λ a admitted.
        let e = insert_admitted-Keeps event a hg d in
        record { distinct = e.distinct d; decided = e.decided; watermark = e.watermark }

module _ (hash_of : Event → Bytes ⊎ EventHash) where
  insert_all-Later :
      (es : List Event) (hg : Hashgraph) (h : EventHash) (r : EventRecord)
      → Map.DistinctKeys hg.events
      → get_event hg h ≡ some r
      → (r' : EventRecord) × (get_event (insert_all hash_of es hg) h ≡ some r') × Later r r'
  unfolding insert_all
  insert_all-Later [] hg h r d e = (r, e, Later-refl r)
  insert_all-Later (x ∷ es) hg h r d e =
      let (r', e', l') = insert-Extends hash_of x hg h r d e in
      let next = (insert-Advances hash_of x hg d).distinct in
      let (r'', e'', l'') = insert_all-Later es (insert hash_of x hg).1 h r' next e' in
      (r'', e'', Later-trans r r' r'' l' l'')

  -- The election of a witness ends once: a fame status that is decided before a run of insertions is
  -- the one after it, for an event map with distinct keys.
  pub fame_of-insert_all :
      (es : List Event) (hg : Hashgraph) (w : EventHash) (s : FameStatus)
      → Map.DistinctKeys hg.events
      → fame_of hg w ≡ some s
      → is_decided (some s) ≡ true
      → fame_of (insert_all hash_of es hg) w ≡ some s
  unfolding fame_of
  fame_of-insert_all es hg w s d e t = go (get_event hg w) refl e
    where
      go :
          (o : Option EventRecord)
          → get_event hg w ≡ o
          → elim o [ none ↦ none | some r ↦ record_fame r ] ≡ some s
          → fame_of (insert_all hash_of es hg) w ≡ some s
      go none e' q = ground arith
      go (some r) e' q =
          let (r', found, later) = insert_all-Later es hg w r d e' in
          rw (found, fame_of) (later.fame (rw q t) ∙ q)

  -- An event that a round has received keeps its place: the round received and the consensus timestamp
  -- that it has before a run of insertions are those after it, for an event map with distinct keys.
  pub order-insert_all :
      (es : List Event) (hg : Hashgraph) (h : EventHash) (r : EventRecord) (n : ℕ)
      → Map.DistinctKeys hg.events
      → get_event hg h ≡ some r
      → r.round_received ≡ some n
      → (r' : EventRecord) × (get_event (insert_all hash_of es hg) h ≡ some r')
        × (r'.round_received ≡ some n)
        × (r'.consensus_timestamp ≡ r.consensus_timestamp)
  order-insert_all es hg h r n d e q =
      let (r', found, later) = insert_all-Later es hg h r d e in
      let ordered : is_pending r ≡ false = rw q in
      (r', found, later.received ordered ∙ q, later.timestamp ordered)

  -- An event stored before a run of insertions is stored after it, with its content, its sequence
  -- number, its ancestry row, its round and its witness flag, for an event map with distinct keys.
  pub record-insert_all :
      (es : List Event) (hg : Hashgraph) (h : EventHash) (r : EventRecord)
      → Map.DistinctKeys hg.events
      → get_event hg h ≡ some r
      → (r' : EventRecord) × (get_event (insert_all hash_of es hg) h ≡ some r')
        × (r'.event ≡ r.event)
        × (r'.seq ≡ r.seq)
        × (r'.ancestor_seqs ≡ r.ancestor_seqs)
        × (r'.round ≡ r.round)
        × (r'.is_witness ≡ r.is_witness)
  record-insert_all es hg h r d e =
      let (r', found, later) = insert_all-Later es hg h r d e in
      (r', found, later.event, later.seq, later.ancestor_seqs, later.round, later.is_witness)

  -- A round whose fame is decided before a run of insertions is decided after it, and the next round
  -- to order never goes back, for an event map with distinct keys.
  pub is_round_decided-insert_all :
      (es : List Event) (hg : Hashgraph) (n : ℕ)
      → Map.DistinctKeys hg.events
      → is_round_decided hg n ≡ true
      → (is_round_decided (insert_all hash_of es hg) n ≡ true)
        × (hg.next_round_to_order ≤ (insert_all hash_of es hg).next_round_to_order)
  unfolding insert_all
  is_round_decided-insert_all [] hg n d e = (e, omega arith)
  is_round_decided-insert_all (x ∷ es) hg n d e =
      let a = insert-Advances hash_of x hg d in
      let (still, later) =
        is_round_decided-insert_all es (insert hash_of x hg).1 n a.distinct (a.decided n e) in
      (still, omega (arith, later, a.watermark))
