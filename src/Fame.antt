-- ===== src/Fame.antt =====
-- consensus-node/protocol/consensus/src/fame.rs: virtual voting on the fame of a witness.
use jx.Base.{
  ℕ, zero, suc, ◌+◌, ◌-◌, ◌*◌, ◌%◌, Bool, true, false, not, Option, none, some, List, [], ◌∷◌, map,
  keep, length, ltb, leb, if◌then◌else◌, ◌==◌, ◌&&◌, nat_eq,
}
use jx.Hashgraph.{
  EventHash, EventRecord, Hashgraph, FameStatus, famous, not_famous, undecided, get_event, known,
  slot, fame_of, is_decided, vote_for, witnesses_of_round, member_count_at_round, record_vote,
  Result, ok, fault, panic, out_of_fuel, unwrap_or, ◌>>=◌, Exec, bind, pure, ask, update,
}
use jx.Ancestry.{see, strongly_see}
use jx.Order.{decide_fame, for_each}
use mathlib.Core.Option

abbrev pub coin_round_frequency : ℕ
coin_round_frequency = 12

-- bit 0 of byte 32 of the voter's signature; an absent voter is a panic
unfoldable pub coin_round_vote : Hashgraph → EventHash → Result Bool
coin_round_vote hg voter = elim (get_event hg voter) [
  | none ↦ fault panic
  | some r ↦ slot r.event.signature 32 >>= λ b. ok (b % 2 == 1)
]

pub data VoteOutcome : Type 0 where
  cast : Bool → VoteOutcome
  decided : FameStatus → VoteOutcome

pub record Tally : Type 0 where
  pub yes : ℕ
  pub no_votes : ℕ

abbrev pub add_vote : Bool → Tally → Tally
add_vote true t = record t { yes = suc t.yes }
add_vote false t = record t { no_votes = suc t.no_votes }

abbrev pub zero_tally : Tally
zero_tally = record { yes = 0; no_votes = 0 }

-- the recorded votes of `voters` on `w`
unfoldable pub recorded_votes : Hashgraph → EventHash → List EventHash → Tally
recorded_votes hg w [] = zero_tally
recorded_votes hg w (v ∷ vs) =
    let rest = recorded_votes hg w vs in
    elim (get_event hg v) [
      | none ↦ rest
      | some r ↦ elim (vote_for r w) [ none ↦ rest | some vote ↦ add_vote vote rest ]
    ]

-- What the guards of `try_eager_decide` leave to do, as a query.
unfoldable pub eager_verdict : Hashgraph → EventHash → ℕ → Result (Option FameStatus)
eager_verdict hg w w_round =
    let voters = witnesses_of_round hg (w_round + 1) in
    let t = recorded_votes hg w voters in
    let seen = t.yes + t.no_votes in
    if ltb hg.highest_witness_round (w_round + 2)
    then ok none
    else if length voters == 0
    then ok none
    else member_count_at_round hg (w_round + 1) >>= λ count_next.
        member_count_at_round hg (w_round + 2) >>= λ total.
        if not (count_next == total)
        then ok none
        else if leb (length voters * 3) (total * 2)
        then ok none
        else if leb (seen * 3) (total * 2)
        then ok none
        else if not (seen == length voters)
        then ok none
        else if ltb (total * 2) (t.yes * 3)
        then ok (some famous)
        else if ltb (total * 2) (t.no_votes * 3)
        then ok (some not_famous)
        else ok none

-- The steps of `try_eager_decide`, one after the other.
unfoldable pub eager_close : EventHash → Option FameStatus → Exec Hashgraph (Option FameStatus)
unfolding bind pure
eager_close w none = pure none
eager_close w (some status) = bind (decide_fame w status) λ _. pure (some status)

unfoldable pub eager_on_record : EventHash → Option EventRecord → Exec Hashgraph (Option FameStatus)
unfolding bind pure ask
eager_on_record w none = pure none
eager_on_record w (some r) = bind (ask (λ hg. eager_verdict hg w r.round)) (eager_close w)

unfoldable pub eager_unless_decided :
    EventHash → Option FameStatus → Exec Hashgraph (Option FameStatus)
unfolding bind pure ask
eager_unless_decided w fame =
    if is_decided fame
    then pure fame
    else bind (ask (λ hg. ok (get_event hg w))) (eager_on_record w)

unfoldable pub try_eager_decide : EventHash → Exec Hashgraph (Option FameStatus)
unfolding bind ask
try_eager_decide w = bind (ask (λ hg. ok (fame_of hg w))) (eager_unless_decided w)

-- The witnesses among `below` that `y` strongly sees; an error counts as no.
unfoldable pub strongly_seen_of : Hashgraph → EventHash → List EventHash → Result (List EventHash)
strongly_seen_of hg y [] = ok []
strongly_seen_of hg y (s ∷ ss) = unwrap_or (strongly_see hg y s) false >>= λ sees.
    strongly_seen_of hg y ss >>= λ rest. ok (if sees then s ∷ rest else rest)

-- The loop over the strongly seen witnesses: a decision ends it, votes are counted.
unfoldable pub tally_votes :
    (EventHash → Exec Hashgraph VoteOutcome)
    → List EventHash
    → Tally
    → (Tally → Exec Hashgraph VoteOutcome)
    → Exec Hashgraph VoteOutcome
unfolding bind pure
tally_votes vote [] t finish = finish t
tally_votes vote (s ∷ ss) t finish = bind (vote s) λ outcome. elim outcome [
  | decided status ↦ pure (decided status)
  | cast b ↦ tally_votes vote ss (add_vote b t) finish
]

unfoldable pub record_and_cast : EventHash → EventHash → Bool → Exec Hashgraph VoteOutcome
unfolding bind pure update
record_and_cast y w vote = bind (update (record_vote y w vote)) λ _. pure (cast vote)

unfoldable pub decide_and_end : EventHash → FameStatus → Exec Hashgraph VoteOutcome
unfolding bind pure
decide_and_end w status = bind (decide_fame w status) λ _. pure (decided status)

-- The end of `vote_of`: majority, coin round, supermajority.
unfoldable pub conclude_with :
    EventHash → EventHash → ℕ → ℕ → Tally → ℕ → Exec Hashgraph VoteOutcome
unfolding bind ask
conclude_with y w y_round w_round t total =
    let v = leb t.no_votes t.yes in
    let stake = if v then t.yes else t.no_votes in
    let is_coin_round = (y_round - w_round) % coin_round_frequency == 0 in
    let has_supermajority = ltb (total * 2) (stake * 3) in
    if is_coin_round && not has_supermajority
    then bind (ask (λ hg. coin_round_vote hg y)) (record_and_cast y w)
    else if has_supermajority
    then decide_and_end w (if v then famous else not_famous)
    else record_and_cast y w v

unfoldable pub conclude : EventHash → EventHash → ℕ → ℕ → Tally → Exec Hashgraph VoteOutcome
unfolding bind ask
conclude y w y_round w_round t =
    bind (ask (λ hg. member_count_at_round hg y_round)) (conclude_with y w y_round w_round t)

-- What `vote_of` reads before it votes: the rounds of voter and candidate, in that order.
abbrev pub rounds_of : EventHash → EventHash → Hashgraph → Result (ℕ × ℕ)
rounds_of y w hg =
    known hg y >>= λ y_record. known hg w >>= λ w_record. ok (y_record.round, w_record.round)

abbrev pub cached_vote : EventHash → EventHash → Hashgraph → Option Bool
cached_vote y w hg = elim (get_event hg y) [ none ↦ none | some r ↦ vote_for r w ]

-- Below, `vote` is the recursive call of `vote_of`. First the aggregation over what `y` strongly
-- sees, then the last branches: the direct vote one round above the candidate, and further up the
-- aggregation; a voter that is not above the candidate fails the debug assertion.
unfoldable pub aggregate :
    (EventHash → Exec Hashgraph VoteOutcome)
    → EventHash
    → EventHash
    → ℕ
    → ℕ
    → List EventHash
    → Exec Hashgraph VoteOutcome
aggregate vote y w y_round w_round seen =
    tally_votes vote seen zero_tally (conclude y w y_round w_round)

unfoldable pub cast_vote :
    (EventHash → Exec Hashgraph VoteOutcome)
    → EventHash
    → EventHash
    → ℕ
    → ℕ
    → Exec Hashgraph VoteOutcome
unfolding bind ask
cast_vote vote y w y_round w_round =
    if y_round == w_round + 1
    then bind (ask (λ hg. see hg y w)) (record_and_cast y w)
    else if leb y_round (w_round + 1)
    then ask (λ hg. fault panic)
    else bind (ask (λ hg. strongly_seen_of hg y (witnesses_of_round hg (y_round - 1))))
        (aggregate vote y w y_round w_round)

unfoldable pub vote_unless_cached :
    (EventHash → Exec Hashgraph VoteOutcome)
    → EventHash
    → EventHash
    → ℕ × ℕ
    → Option Bool
    → Exec Hashgraph VoteOutcome
unfolding pure
vote_unless_cached vote y w rounds (some b) = pure (cast b)
vote_unless_cached vote y w rounds none = cast_vote vote y w rounds.0 rounds.1

-- the early return on a candidate with a decision
unfoldable pub vote_unless_decided :
    (EventHash → Exec Hashgraph VoteOutcome)
    → EventHash
    → EventHash
    → ℕ × ℕ
    → FameStatus
    → Exec Hashgraph VoteOutcome
unfolding bind pure ask
vote_unless_decided vote y w rounds status =
    if is_decided (some status)
    then pure (decided status)
    else bind (ask (λ hg. ok (cached_vote y w hg))) (vote_unless_cached vote y w rounds)

unfoldable pub vote_in_rounds :
    (EventHash → Exec Hashgraph VoteOutcome)
    → EventHash
    → EventHash
    → ℕ × ℕ
    → Exec Hashgraph VoteOutcome
unfolding bind ask
vote_in_rounds vote y w rounds =
    bind (ask (λ hg. ok (Option.get_or (fame_of hg w) undecided)))
      (vote_unless_decided vote y w rounds)

-- The recursion goes to the witnesses of the round below the voter's, so the voter's round is
-- enough fuel.
unfoldable pub vote_rec : ℕ → EventHash → EventHash → Exec Hashgraph VoteOutcome
unfolding bind ask
vote_rec zero y w = ask (λ hg. fault out_of_fuel)
vote_rec (suc fuel) y w = bind (ask (rounds_of y w)) (vote_in_rounds (λ s. vote_rec fuel s w) y w)

abbrev pub vote_with : EventHash → EventHash → EventRecord → Exec Hashgraph VoteOutcome
vote_with y w r = vote_rec (suc r.round) y w

unfoldable pub vote_of : EventHash → EventHash → Exec Hashgraph VoteOutcome
unfolding bind ask
vote_of y w = bind (ask (λ hg. known hg y)) (vote_with y w)

-- the body of the loop over the candidates
unfoldable pub vote_on_candidate : EventHash → EventHash → Exec Hashgraph (Unit {0})
unfolding bind pure
vote_on_candidate y candidate =
    bind (vote_of y candidate) λ _. bind (try_eager_decide candidate) λ _. pure tt

unfoldable pub backfill_vote : EventHash → EventHash → Exec Hashgraph (Unit {0})
unfolding bind pure
backfill_vote y voter = bind (vote_of voter y) λ _. pure tt

abbrev pub is_open : Option FameStatus → Bool
is_open (some undecided) = true
is_open _ = false

abbrev pub try_when : EventHash → Bool → Exec Hashgraph (Unit {0})
try_when y waits = if waits then bind (try_eager_decide y) (λ _. pure tt) else pure tt

-- `if self.fame_of(&y) == Some(Undecided) { self.try_eager_decide(&y); }`
unfoldable pub try_if_open : EventHash → Exec Hashgraph (Unit {0})
unfolding bind pure ask
try_if_open y = bind (ask (λ hg. ok (is_open (fame_of hg y)))) (try_when y)

-- one round of the backfill loop, for the witnesses of the round
unfoldable pub backfill_round : EventHash → List EventHash → Exec Hashgraph (Unit {0})
unfolding bind
backfill_round y voters = bind (for_each (backfill_vote y) voters) λ _. try_if_open y

-- The rounds above `y`'s, `count` of them from `round` on; a decision on `y` ends the loop.
unfoldable pub backfill : EventHash → ℕ → ℕ → Exec Hashgraph (Unit {0})
unfolding bind pure ask
backfill y zero round = pure tt
backfill y (suc count) round =
    let rest = backfill y count (round + 1) in
    bind (ask (λ hg. ok (is_decided (fame_of hg y)))) λ settled.
      if settled
      then pure tt
      else bind (bind (ask (λ hg. ok (witnesses_of_round hg round))) (backfill_round y)) λ _. rest

abbrev pub open_below : Hashgraph → ℕ → List EventHash
open_below hg y_round =
    map (λ (e : EventHash × ℕ). e.0)
      (keep (λ (e : EventHash × ℕ). ltb e.1 y_round) hg.undecided_witnesses)

-- the rounds of the backfill loop, and the last attempt
unfoldable pub backfill_rounds : EventHash → ℕ → ℕ → Exec Hashgraph (Unit {0})
unfolding bind
backfill_rounds y y_round count = bind (backfill y count (y_round + 1)) λ _. try_if_open y

unfoldable pub backfill_all : EventHash → ℕ → Exec Hashgraph (Unit {0})
unfolding bind ask
backfill_all y y_round =
    bind (ask (λ hg. ok (hg.highest_witness_round - y_round))) (backfill_rounds y y_round)

unfoldable pub vote_on_all : EventHash → ℕ → List EventHash → Exec Hashgraph (Unit {0})
unfolding bind
vote_on_all y y_round candidates =
    bind (for_each (vote_on_candidate y) candidates) λ _. backfill_all y y_round

unfoldable pub vote_from : EventHash → ℕ → Exec Hashgraph (Unit {0})
unfolding bind ask
vote_from y y_round = bind (ask (λ hg. ok (open_below hg y_round))) (vote_on_all y y_round)

-- the `expect` on a newly inserted witness
abbrev pub own_round : EventHash → Hashgraph → Result ℕ
own_round y hg = elim (get_event hg y) [ none ↦ fault panic | some r ↦ ok r.round ]

unfoldable pub vote_as_witness : EventHash → Exec Hashgraph (Unit {0})
unfolding bind ask
vote_as_witness y = bind (ask (own_round y)) (vote_from y)
