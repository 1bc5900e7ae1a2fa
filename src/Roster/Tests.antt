-- ===== src/Roster/Tests.antt =====
-- Concrete roster histories, at which the theorems apply.
use jx.Base.{◌≡◌, [], ◌∷◌, some, inl, inr, arith}
use jx.Roster.{MembershipRegistry, RosterHistory, roster_for_round, schedule, prune_before}
use jx.Roster.Laws.{
  roster_for_round-schedule_before, roster_for_round-schedule, roster_for_round-prune_before,
}

abbrev one : MembershipRegistry
one = record { keys = (7, record { key = []; bls_key = [] }) ∷ [] }

abbrev two : MembershipRegistry
two = record {
  keys = (7, record { key = []; bls_key = [] }) ∷ (8, record { key = []; bls_key = [] }) ∷ [];
}

-- one member from round 1 on, two from round 10 on
abbrev grown : RosterHistory
grown = record { snapshots = (1, one) ∷ (10, two) ∷ [] }

roster_for_round-schedule_before_example :
    roster_for_round (schedule grown 20 one) 12 ≡ roster_for_round grown 12
roster_for_round-schedule_before_example =
    roster_for_round-schedule_before grown 20 12 one (omega arith)

roster_for_round-schedule_example : roster_for_round (schedule grown 5 two) 7 ≡ some two
roster_for_round-schedule_example =
    roster_for_round-schedule grown 5 7 two ((omega arith, tt), (tt, tt)) (omega arith)
      (inl (omega arith), (inr (omega arith), tt))

roster_for_round-prune_before_example :
    roster_for_round (prune_before grown 12) 15 ≡ roster_for_round grown 15
roster_for_round-prune_before_example =
    roster_for_round-prune_before grown 12 15 ((omega arith, tt), (tt, tt)) (omega arith)
