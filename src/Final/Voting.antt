-- ===== src/Final/Voting.antt =====
-- fame.rs against the relation of Final, at every depth of the recursion of `vote_of`.
use jx.Base.{
  ℕ, zero, suc, ◌-◌, ◌≡◌, refl, inl, inr, Bool, true, false, Option, none, some, List, [], ◌∷◌,
  arith, if◌then◌else◌, nat_eq, Bool-cases,
}
use jx.Base.Map
use jx.Hashgraph.{
  EventHash, EventRecord, Hashgraph, FameStatus, undecided, get_event, is_decided, fame_of,
  record_vote, witnesses_of_round, member_count_at_round, Result, ok, err, fault, Exec, bind, pure,
  ask, update, continue, Fault, panic, out_of_fuel, known, after_ask,
}
use jx.Ancestry.{see}
use jx.Order.{decide_fame}
use jx.Fame.{
  VoteOutcome, cast, decided, Tally, eager_close, eager_on_record, eager_unless_decided,
  eager_verdict, try_eager_decide, tally_votes, record_and_cast, decide_and_end, conclude_with,
  conclude, aggregate, cast_vote, vote_unless_cached, vote_unless_decided, vote_in_rounds, vote_rec,
  vote_of, rounds_of, cached_vote, strongly_seen_of, coin_round_vote, zero_tally, add_vote,
  vote_with,
}
use jx.Final.{
  Extends, Extends-refl, Extends-trans, Keeps, bind-Extends, query-Keeps, modify_event-Extends,
}
use jx.Final.Ordering.{decide_fame-Extends}
use mathlib.Core.Option

-- The candidate's fame is not decided.
abbrev pub Open : EventHash → Hashgraph → Type 0
Open w hg = is_decided (fame_of hg w) ≡ false

-- A run of a voting step: it extends the state, and a vote that is cast leaves the election open.
pub record Voted (skip w : EventHash) (hg : Hashgraph) (z : Result VoteOutcome × Hashgraph)
    : Type 0 where
  pub extends : Extends skip hg z.1
  pub still_open : (b : Bool) → z.0 ≡ ok (cast b) → Open w z.1

abbrev pub Votes : EventHash → EventHash → Exec Hashgraph VoteOutcome → Type 0
Votes skip w m = (hg : Hashgraph) → Map.DistinctKeys hg.events → Open w hg → Voted skip w hg (m hg)

pub query-Votes :
    (skip w : EventHash) {A : Type 0} (q : Hashgraph → Result A)
    (f : A → Exec Hashgraph VoteOutcome)
    → ((a : A) → Votes skip w (f a))
    → Votes skip w (bind (ask q) f)
unfolding bind ask
query-Votes skip w q f h hg d o = go (q hg)
  where
    go : (z : Result _) → Voted skip w hg (continue z f hg)
    go (ok a) = h a hg d o
    go (err e) = record { extends = Extends-refl skip hg; still_open = λ b e'. cc }
    go (fault z) = record { extends = Extends-refl skip hg; still_open = λ b e'. cc }

fame_of-record_vote :
    (v c w : EventHash) (b : Bool) (hg : Hashgraph)
    → fame_of (record_vote v c b hg) w ≡ fame_of hg w
unfolding fame_of record_vote
fame_of-record_vote v c w b hg =
    ground (arith, Map.get-modify v w (λ r. record r { votes = Map.put c b r.votes }) hg.events)

record_vote-Extends :
    (skip v c : EventHash) (b : Bool) (hg : Hashgraph) → Extends skip hg (record_vote v c b hg)
unfolding record_vote
record_vote-Extends skip v c b hg = modify_event-Extends skip v _ hg (λ r n e. ground arith)

record_and_cast-Votes : (skip y w : EventHash) (b : Bool) → Votes skip w (record_and_cast y w b)
unfolding record_and_cast bind update pure
record_and_cast-Votes skip y w b hg d o = record {
  extends = record_vote-Extends skip y w b hg;
  still_open = λ c e. rw (fame_of-record_vote y w w b hg) o;
}

decide_and_end-Votes :
    (skip w : EventHash) (status : FameStatus) → Votes skip w (decide_and_end w status)
unfolding decide_and_end bind pure
decide_and_end-Votes skip w status hg d o =
    go (decide_fame w status hg) (decide_fame-Extends skip w status hg d o)
  where
    go :
        (z : Result (Unit {0}) × Hashgraph)
        → Extends skip hg z.1
        → Voted skip w hg (continue z.0 (λ _ s. (ok (decided status), s)) z.1)
    go (ok u, s) p = record { extends = p; still_open = λ b e. cc }
    go (err e, s) p = record { extends = p; still_open = λ b e. cc }
    go (fault z, s) p = record { extends = p; still_open = λ b e. cc }

if-Votes :
    (skip w : EventHash) (b : Bool) (m n : Exec Hashgraph VoteOutcome)
    → Votes skip w m
    → Votes skip w n
    → Votes skip w (if b then m else n)
if-Votes skip w true m n p q = p
if-Votes skip w false m n p q = q

conclude_with-Votes :
    (skip y w : EventHash) (y_round w_round : ℕ) (t : Tally) (total : ℕ)
    → Votes skip w (conclude_with y w y_round w_round t total)
unfolding conclude_with
conclude_with-Votes skip y w y_round w_round t total =
    if-Votes skip w _ _ _
      (query-Votes skip w (λ hg. coin_round_vote hg y) (record_and_cast y w)
        (record_and_cast-Votes skip y w))
      (if-Votes skip w _ _ _ (decide_and_end-Votes skip w _) (record_and_cast-Votes skip y w _))

conclude-Votes :
    (skip y w : EventHash) (y_round w_round : ℕ) (t : Tally)
    → Votes skip w (conclude y w y_round w_round t)
unfolding conclude
conclude-Votes skip y w y_round w_round t =
    query-Votes skip w (λ hg. member_count_at_round hg y_round)
      (conclude_with y w y_round w_round t) (conclude_with-Votes skip y w y_round w_round t)

-- the loop over the strongly seen witnesses
tally_votes-Votes :
    (skip w : EventHash) (vote : EventHash → Exec Hashgraph VoteOutcome) (ss : List EventHash)
    (t : Tally) (finish : Tally → Exec Hashgraph VoteOutcome)
    → ((s : EventHash) → Votes skip w (vote s))
    → ((t : Tally) → Votes skip w (finish t))
    → Votes skip w (tally_votes vote ss t finish)
unfolding tally_votes bind pure
tally_votes-Votes skip w vote [] t finish p q hg d o = q t hg d o
tally_votes-Votes skip w vote (s ∷ ss) t finish p q hg d o =
    go (λ b. tally_votes-Votes skip w vote ss (add_vote b t) finish p q) (vote s hg) (p s hg d o)
  where
    go :
        ((b : Bool) → Votes skip w (tally_votes vote ss (add_vote b t) finish))
        → (z : Result VoteOutcome × Hashgraph) → Voted skip w hg z
        → Voted skip w hg (
            continue z.0
              (λ outcome. elim outcome [
                | decided status ↦ pure (decided status)
                | cast b ↦ tally_votes vote ss (add_vote b t) finish
              ])
              z.1)
    go rest (ok (cast b), s') v =
        let next = rest b s' (v.extends.distinct d) (v.still_open b refl) in
        record {
          extends = Extends-trans skip hg s' _ v.extends next.extends;
          still_open = next.still_open;
        }
    go rest (ok (decided st), s') v = record { extends = v.extends; still_open = λ b e. cc }
    go rest (err e, s') v = record { extends = v.extends; still_open = λ b e. cc }
    go rest (fault z, s') v = record { extends = v.extends; still_open = λ b e. cc }

ask_fault-Votes : (skip w : EventHash) (z : Fault) → Votes skip w (ask (λ hg. fault z))
unfolding ask
ask_fault-Votes skip w z hg d o = record { extends = Extends-refl skip hg; still_open = λ b e. cc }

pure-Votes : (skip w : EventHash) (outcome : VoteOutcome) → Votes skip w (pure outcome)
unfolding pure
pure-Votes skip w outcome hg d o = record { extends = Extends-refl skip hg; still_open = λ b e. o }

cast_vote-Votes :
    (skip y w : EventHash) (vote : EventHash → Exec Hashgraph VoteOutcome) (y_round w_round : ℕ)
    → ((s : EventHash) → Votes skip w (vote s))
    → Votes skip w (cast_vote vote y w y_round w_round)
unfolding cast_vote aggregate
cast_vote-Votes skip y w vote y_round w_round p =
    if-Votes skip w _ _ _
      (query-Votes skip w (λ hg. see hg y w) (record_and_cast y w) (record_and_cast-Votes skip y w))
      (if-Votes skip w _ _ _ (ask_fault-Votes skip w panic) (
        query-Votes skip w (λ hg. strongly_seen_of hg y (witnesses_of_round hg (y_round - 1)))
          (aggregate vote y w y_round w_round)
          (λ seen.
            tally_votes-Votes skip w vote seen zero_tally (conclude y w y_round w_round) p
              (conclude-Votes skip y w y_round w_round))))

vote_unless_cached-Votes :
    (skip y w : EventHash) (vote : EventHash → Exec Hashgraph VoteOutcome) (rounds : ℕ × ℕ)
    (cached : Option Bool)
    → ((s : EventHash) → Votes skip w (vote s))
    → Votes skip w (vote_unless_cached vote y w rounds cached)
unfolding vote_unless_cached
vote_unless_cached-Votes skip y w vote rounds (some b) p = pure-Votes skip w (cast b)
vote_unless_cached-Votes skip y w vote rounds none p =
    cast_vote-Votes skip y w vote rounds.0 rounds.1 p

vote_in_rounds-Votes :
    (skip y w : EventHash) (vote : EventHash → Exec Hashgraph VoteOutcome) (rounds : ℕ × ℕ)
    → ((s : EventHash) → Votes skip w (vote s))
    → Votes skip w (vote_in_rounds vote y w rounds)
unfolding vote_in_rounds vote_unless_decided
vote_in_rounds-Votes skip y w vote rounds p =
    query-Votes skip w (λ hg. ok (Option.get_or (fame_of hg w) undecided))
      (vote_unless_decided vote y w rounds)
      (λ status.
        if-Votes skip w (is_decided (some status)) _ _ (pure-Votes skip w (decided status)) (
          query-Votes skip w (λ hg. ok (cached_vote y w hg)) (vote_unless_cached vote y w rounds)
            (λ cached. vote_unless_cached-Votes skip y w vote rounds cached p)))

vote_rec-Votes : (fuel : ℕ) (skip y w : EventHash) → Votes skip w (vote_rec fuel y w)
unfolding vote_rec
vote_rec-Votes zero skip y w = ask_fault-Votes skip w out_of_fuel
vote_rec-Votes (suc fuel) skip y w =
    query-Votes skip w (rounds_of y w) (vote_in_rounds (λ s. vote_rec fuel s w) y w) (λ rounds.
      vote_in_rounds-Votes skip y w (λ s. vote_rec fuel s w) rounds
        (λ s. vote_rec-Votes fuel skip s w))

is_decided-get_or :
    (o : Option FameStatus)
    → is_decided o ≡ true
    → is_decided (some (Option.get_or o undecided)) ≡ true
is_decided-get_or none h = cc
is_decided-get_or (some status) h = h

-- a decided candidate is left alone
vote_rec-decided :
    (fuel : ℕ) (y w : EventHash) (hg : Hashgraph)
    → is_decided (fame_of hg w) ≡ true
    → (vote_rec fuel y w hg).1 ≡ hg
unfolding vote_rec ask vote_in_rounds vote_unless_decided pure
vote_rec-decided zero y w hg e = refl
vote_rec-decided (suc fuel) y w hg e =
    let vote = λ (s : EventHash). vote_rec fuel s w in
    after_ask Same (rounds_of y w) (vote_in_rounds vote y w) hg refl λ rounds _.
      after_ask Same (λ s. ok (Option.get_or (fame_of s w) undecided))
        (vote_unless_decided vote y w rounds) hg refl
        λ status r. ground (arith, is_decided-get_or (fame_of hg w) e)
  where
    Same : Hashgraph → Type 0
    Same s = s ≡ hg

-- A vote, cast or not, takes nothing back.
pub vote_of-Keeps : (skip y w : EventHash) → Keeps skip (vote_of y w)
unfolding vote_of
vote_of-Keeps skip y w =
    query-Keeps skip (λ hg. known hg y) (vote_with y w)
      λ r hg d. elim (Bool-cases (is_decided (fame_of hg w))) [
        | inl settled ↦ rw (vote_rec-decided (suc r.round) y w hg settled) (Extends-refl skip hg)
        | inr o ↦ (vote_rec-Votes (suc r.round) skip y w hg d o).extends
      ]

eager_close-Extends :
    (skip w : EventHash) (verdict : Option FameStatus) (hg : Hashgraph)
    → Map.DistinctKeys hg.events
    → Open w hg
    → Extends skip hg (eager_close w verdict hg).1
unfolding eager_close pure
eager_close-Extends skip w none hg d o = Extends-refl skip hg
eager_close-Extends skip w (some status) hg d o =
    bind-Extends skip (decide_fame w status) (λ _. pure (some status)) hg
      (decide_fame-Extends skip w status hg d o)
      (λ _ _. Extends-refl skip (decide_fame w status hg).1)

eager_on_record-Extends :
    (skip w : EventHash) (found : Option EventRecord) (hg : Hashgraph)
    → Map.DistinctKeys hg.events
    → Open w hg
    → Extends skip hg (eager_on_record w found hg).1
unfolding eager_on_record pure
eager_on_record-Extends skip w none hg d o = Extends-refl skip hg
eager_on_record-Extends skip w (some r) hg d o =
    after_ask (Extends skip hg) (λ s. eager_verdict s w r.round) (eager_close w) hg
      (Extends-refl skip hg) (λ verdict _. eager_close-Extends skip w verdict hg d o)

-- The early decision takes nothing back.
pub try_eager_decide-Keeps : (skip w : EventHash) → Keeps skip (try_eager_decide w)
unfolding try_eager_decide eager_unless_decided pure
try_eager_decide-Keeps skip w hg d = elim (Bool-cases (is_decided (fame_of hg w))) [
  | inl settled ↦ rw (settled, bind, ask) (Extends-refl skip hg)
  | inr o ↦ rw (o, bind, ask) (eager_on_record-Extends skip w (get_event hg w) hg d o)
]
