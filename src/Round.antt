-- ===== src/Round.antt =====
-- consensus-node/protocol/consensus/src/round.rs: the round of a new event, and whether it is a
-- witness.
use jx.Base.{
  ℕ, suc, ◌+◌, ◌*◌, max, Bool, true, Option, none, some, List, [], ◌∷◌, ltb, if◌then◌else◌,
}
use jx.Hashgraph.{
  EventHash, Hashgraph, witnesses_of_round, member_count_at_round, set_event_round, record_witness,
  Result, ok, ◌>>=◌, Exec, bind, pure, ask, update,
}
use jx.Ancestry.{strongly_see_at}

unfoldable pub base_round : Option ℕ → Option ℕ → ℕ
base_round none none = 1
base_round none (some b) = b
base_round (some a) none = a
base_round (some a) (some b) = max a b

unfoldable pub count_strongly_seen : Hashgraph → EventHash → ℕ → List EventHash → Result ℕ
count_strongly_seen hg h round [] = ok 0
count_strongly_seen hg h round (w ∷ ws) = strongly_see_at hg h w round >>= λ sees.
    count_strongly_seen hg h round ws >>= λ n. ok (if sees then suc n else n)

-- `match self_parent_round { None => true, Some(spr) => final_round > spr }`
abbrev pub starts_round : Option ℕ → ℕ → Bool
starts_round none final_round = true
starts_round (some spr) final_round = ltb spr final_round

-- the round and the witness flag that the counts give, written to the record and to the index
unfoldable pub finish_round : EventHash → ℕ → Option ℕ → ℕ → ℕ → Exec Hashgraph (Unit {0})
unfolding bind pure update
finish_round h base self_parent_round count total =
    let final_round = if ltb (total * 2) (count * 3) then base + 1 else base in
    let is_witness = starts_round self_parent_round final_round in
    bind (update (set_event_round h final_round is_witness))
      λ _. if is_witness then update (record_witness final_round h) else pure tt

unfoldable pub round_from_count : EventHash → ℕ → Option ℕ → ℕ → Exec Hashgraph (Unit {0})
unfolding bind ask
round_from_count h base self_parent_round count =
    bind (ask (λ hg. member_count_at_round hg base)) (finish_round h base self_parent_round count)

unfoldable pub finalize_round : EventHash → ℕ → Option ℕ → Exec Hashgraph (Unit {0})
unfolding bind ask
finalize_round h base self_parent_round =
    bind (ask (λ hg. count_strongly_seen hg h base (witnesses_of_round hg base)))
      (round_from_count h base self_parent_round)
