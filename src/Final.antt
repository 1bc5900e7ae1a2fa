-- ===== src/Final.antt =====
-- What no later step of the hashgraph takes back: the relation between a state and the states after
-- it, and its rules for the methods of hashgraph.rs, order.rs, fame.rs and round.rs.
pub mod Pending
pub mod Ordering
pub mod Voting
pub mod Insertion
pub mod Runs
pub mod Transfer
mod Tests
use jx.Base.{
  ℕ, ◌≤◌, ◌≡◌, ◌≢◌, refl, sym, ◌∙◌, Bool, true, false, Option, none, some, List, [], ◌∷◌, any,
  arith, if◌then◌else◌, ◌==◌, ==_iff, nat_eq, ◌||◌,
}
use native.Mathlib.Decide.{ℕ_discrete}
use jx.Base.Map
use jx.Hashgraph.{
  EventHash, EventRecord, Hashgraph, FameStatus, undecided, famous, not_famous, get_event,
  is_decided, is_pending, is_round_decided, set_contains, set_insert, modify_event, Result, ok, err,
  fault, Exec, bind, pure, ask, update, continue,
}

-- The fame that `fame_of` shows of a record.
abbrev pub record_fame : EventRecord → Option FameStatus
record_fame r = if r.is_witness then some r.fame_status else none

-- A record and what later steps may have made of it.
pub record Later (r r' : EventRecord) : Type 0 where
  pub event : r'.event ≡ r.event
  pub seq : r'.seq ≡ r.seq
  pub ancestor_seqs : r'.ancestor_seqs ≡ r.ancestor_seqs
  pub round : r'.round ≡ r.round
  pub is_witness : r'.is_witness ≡ r.is_witness
  pub fame : is_decided (record_fame r) ≡ true → record_fame r' ≡ record_fame r
  pub received : is_pending r ≡ false → r'.round_received ≡ r.round_received
  pub timestamp : is_pending r ≡ false → r'.consensus_timestamp ≡ r.consensus_timestamp

pub Later-refl : (r : EventRecord) → Later r r
Later-refl r = ground arith

pub Later-trans : (a b c : EventRecord) → Later a b → Later b c → Later a c
Later-trans a b c p q = ground arith

-- All that a later state keeps of the events of an earlier one, `skip` aside: `skip` is the event that
-- is being inserted, whose own record is still being written.
pub record Extends (skip : EventHash) (hg hg' : Hashgraph) : Type 0 where
  pub kept :
      (h : EventHash) (r : EventRecord)
      → h ≢ skip
      → get_event hg h ≡ some r
      → (r' : EventRecord) × (get_event hg' h ≡ some r') × Later r r'
  pub distinct : Map.DistinctKeys hg.events → Map.DistinctKeys hg'.events
  pub decided : (n : ℕ) → is_round_decided hg n ≡ true → is_round_decided hg' n ≡ true
  pub watermark : hg.next_round_to_order ≤ hg'.next_round_to_order
  pub roster : hg'.roster_history ≡ hg.roster_history
  pub members : hg'.member_index ≡ hg.member_index

pub Extends-refl : (skip : EventHash) (hg : Hashgraph) → Extends skip hg hg
Extends-refl skip hg = record {
  kept = λ h r n e. (r, e, Later-refl r);
  distinct = λ d. d;
  decided = λ n e. e;
  watermark = omega arith;
  roster = refl;
  members = refl;
}

pub Extends-trans :
    (skip : EventHash) (a b c : Hashgraph) → Extends skip a b → Extends skip b c → Extends skip a c
Extends-trans skip a b c p q = record {
  kept = λ h r n e.
      let (r', e', l') = p.kept h r n e in
      let (r'', e'', l'') = q.kept h r' n e' in (r'', e'', Later-trans r r' r'' l' l'');
  distinct = λ d. q.distinct (p.distinct d);
  decided = λ n e. q.decided n (p.decided n e);
  watermark = let x = p.watermark in let y = q.watermark in omega arith;
  roster = q.roster ∙ p.roster;
  members = q.members ∙ p.members;
}

-- A method whose every run from an event map with distinct keys extends the state.
abbrev pub Keeps : EventHash → {A : Type 0} → Exec Hashgraph A → Type 0
Keeps skip m = (hg : Hashgraph) → Map.DistinctKeys hg.events → Extends skip hg (m hg).1

-- a bind extends the state where both parts do, the second from the states it is run in
pub bind-Extends :
    (skip : EventHash) {A B : Type 0} (m : Exec Hashgraph A) (f : A → Exec Hashgraph B)
    (hg : Hashgraph)
    → Extends skip hg (m hg).1
    → ((a : A) → (m hg).0 ≡ ok a → Extends skip (m hg).1 (f a (m hg).1).1)
    → Extends skip hg (bind m f hg).1
unfolding bind
bind-Extends skip m f hg p q = go (m hg) p q
  where
    go :
        (z : Result _ × Hashgraph)
        → Extends skip hg z.1
        → ((a : _) → z.0 ≡ ok a → Extends skip z.1 (f a z.1).1)
        → Extends skip hg (continue z.0 f z.1).1
    go (ok a, s) p' q' = Extends-trans skip hg s (f a s).1 p' (q' a refl)
    go (err e, s) p' q' = p'
    go (fault z, s) p' q' = p'

pub bind-Keeps :
    (skip : EventHash) {A B : Type 0} (m : Exec Hashgraph A) (f : A → Exec Hashgraph B)
    → Keeps skip m
    → ((a : A) → Keeps skip (f a))
    → Keeps skip (bind m f)
bind-Keeps skip m f p q hg d =
    let first = p hg d in bind-Extends skip m f hg first (λ a e. q a (m hg).1 (first.distinct d))

pub pure-Keeps : (skip : EventHash) {A : Type 0} (a : A) → Keeps skip {A = A} (pure a)
unfolding pure
pure-Keeps skip a hg d = Extends-refl skip hg

pub ask-Keeps :
    (skip : EventHash) {A : Type 0} (q : Hashgraph → Result A) → Keeps skip {A = A} (ask q)
unfolding ask
ask-Keeps skip q hg d = Extends-refl skip hg

-- a query and what follows: nothing is written by the query
pub query-Keeps :
    (skip : EventHash) {A B : Type 0} (q : Hashgraph → Result A) (f : A → Exec Hashgraph B)
    → ((a : A) → Keeps skip (f a))
    → Keeps skip (bind (ask q) f)
query-Keeps skip q f p = bind-Keeps skip (ask q) f (ask-Keeps skip q) p

-- rewriting a record in place

get-modify-Later :
    (k : EventHash) (f : EventRecord → EventRecord) (hg : Hashgraph) (h : EventHash)
    (r : EventRecord)
    → ((x : EventRecord) → get_event hg k ≡ some x → Later x (f x))
    → get_event hg h ≡ some r
    → (r' : EventRecord) × (Map.get h (Map.modify k f hg.events) ≡ some r') × Later r r'
get-modify-Later k f hg h r later e = elim (ℕ_discrete k h) [
  | yes same ↦
      let e' : get_event hg k ≡ some r = rw same e in
      (f r, rw (← same) (Map.get-modify_self k f hg.events e'), later r e')
  | no differ ↦ (r, Map.get-modify_ne k h f hg.events differ ∙ e, Later-refl r)
]

pub modify_event-Extends :
    (skip k : EventHash) (f : EventRecord → EventRecord) (hg : Hashgraph)
    → ((r : EventRecord) → k ≢ skip → get_event hg k ≡ some r → Later r (f r))
    → Extends skip hg (modify_event k f hg)
unfolding is_round_decided
modify_event-Extends skip k f hg later = record {
  kept = λ h r n e. elim (ℕ_discrete k skip) [
    | yes same ↦ (r, Map.get-modify_ne k h f hg.events (λ p. n (sym p ∙ same)) ∙ e, Later-refl r)
    | no differ ↦ get-modify-Later k f hg h r (λ x. later x differ) e
  ];
  distinct = Map.modify-DistinctKeys k f hg.events;
  decided = λ n e. e;
  watermark = omega arith;
  roster = refl;
  members = refl;
}
