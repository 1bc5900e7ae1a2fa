-- ===== src/Executor/Ends.antt =====
-- The execution of transactions of consensus-node/executor/state/src/executor.rs: how each ends, and
-- what an event leaves of which nothing is written.
use jx.Base.{
  ℕ, suc, ◌≤◌, length, length-append, List, [], ◌∷◌, ◌++◌, ◌+◌, ◌≡◌, ◌⊎◌, inl, inr, refl, sym, ◌∙◌,
  ap, true, false, Option, none, some, Option-cases, nat_eq, list_eq, arith,
}
use jx.Roster.{Bytes}
use jx.Op.{Op, accepted, refused, kv, membership, did, sub_actor, rebind}
use jx.State
use jx.State.{State, Keyspace, KeyspaceLaws}
use jx.Executor.{
  Externals, Ran, done, and_run, decide, reads, write, write_mint, write_did, apply_op,
  apply_did_op, apply_sub_actor_op, apply_rebind_op, check_mint, check_did, check_rebind,
}
use jx.Hashgraph.{Event}
use jx.Executor.Event.{
  execute_txs, execute_event, decode_tx, no_result, OpError, did_failed, actor_failed,
  ExecuteResult, Decodes, run_op, push_outcome,
}
use jx.Executor.Once.{and_run-done, end_of, value_of}

module _ {M K : Type 0} (x : Externals M K) where
  -- An operation that is checked first either fails its check, leaves the state as it was and is
  -- reported, or passes it, is written and is not reported.
  abbrev pub Checked :
      {E A : Type 0}
      → Option (E ⊎ A)
      → (A → State K → Ran (State K) (Unit {0}))
      → (E → OpError)
      → ExecuteResult M
      → ExecuteResult M
      → State K
      → State K
      → Type 0
  Checked {E} {A} c writes f r out st after =
      ((e : E) × (c ≡ some (inl e))
        × (after ≡ st)
        × (out ≡ record r { op_errors = r.op_errors ++ f e ∷ [] }))
      ⊎ ((a : A) × (c ≡ some (inr a)) × (writes a st ≡ done after tt) × (out ≡ r))

  decide-Checked :
      {E A : Type 0} (c : Option (E ⊎ A)) (writes : A → State K → Ran (State K) (Unit {0}))
      (f : E → OpError) (r out : ExecuteResult M) (st after : State K)
      → and_run (decide x c writes st) (λ mid u. done mid (push_outcome x f u r)) ≡ done after out
      → Checked c writes f r out st after
  decide-Checked none writes f r out st after e = ground arith
  decide-Checked (some (inl y)) writes f r out st after e =
      inl (y, refl, sym (ap (λ run. end_of run st) e), sym (ap (λ run. value_of run r) e))
  decide-Checked (some (inr a)) writes f r out st after e =
      let (mid, u, first, second) =
        and_run-done (and_run (writes a st) λ after _. done after (inr a)) _ after out e in
      let (low, t, begun, ended) = and_run-done (writes a st) _ mid u first in
      let same : inr a ≡ u = ap (λ run. value_of run u) ended in
      let end : low ≡ after =
        ap (λ run. end_of run low) ended ∙ ap (λ run. end_of run mid) second in
      inr (
        a,
        refl,
        begun ∙ ap (λ z. done z tt) end,
        sym (ap (λ z. push_outcome x f z r) same ∙ ap (λ run. value_of run r) second),
      )

  -- how a transaction ends: whatever is not written is reported once, and whatever is written is
  -- not reported
  abbrev pub Outcome : Decodes x → ExecuteResult M → ExecuteResult M → State K → State K → Type 0
  Outcome (accepted (kv op)) r out st after =
      (State.apply x.sha256 x.keyspace op st ≡ some (after, true)) × (out ≡ r)
  Outcome (accepted (membership m)) r out st after =
      (after ≡ st) × (out ≡ record r { membership_ops = r.membership_ops ++ m ∷ [] })
  Outcome (accepted (did op)) r out st after =
      Checked (check_did x op (reads x st)) (write_did x) did_failed r out st after
  Outcome (accepted (sub_actor op)) r out st after =
      Checked (check_mint x op (reads x st)) (write_mint x) actor_failed r out st after
  Outcome (accepted (rebind op)) r out st after =
      Checked (check_rebind x op (reads x st)) (write x) actor_failed r out st after
  Outcome (refused e) r out st after =
      (after ≡ st) × (out ≡ record r { errors = r.errors ++ e ∷ [] })

  pub applied :
      (op : Op) (st after : State K) (u : Unit {0})
      → apply_op x op st ≡ done after u
      → State.apply x.sha256 x.keyspace op st ≡ some (after, true)
  unfolding apply_op
  applied op st after u e = elim (Option-cases (State.apply x.sha256 x.keyspace op st)) [
    | inl n ↦ ground (arith, n)
    | inr ((mid, false), a) ↦ ground (arith, a)
    | inr ((mid, true), a) ↦ a ∙ ground (arith, a)
  ]

  -- A transaction that runs to its end is written or reported, once and not both: an operation on
  -- the keys is applied, an operation on actors passes its check and is written or fails it and is
  -- reported, and a payload that is refused or is on the membership is reported or handed on. What
  -- is reported or handed on leaves the state as it was.
  pub run_op-Outcome :
      (op : Decodes x) (r out : ExecuteResult M) (st after : State K)
      → run_op x op r st ≡ done after out
      → Outcome op r out st after
  unfolding run_op apply_did_op apply_sub_actor_op apply_rebind_op
  run_op-Outcome (accepted (kv op)) r out st after e =
      let (mid, u, first, second) = and_run-done (apply_op x op st) _ after out e in
      (
        applied op st mid u first ∙ ap (λ run. some (end_of run mid, true)) second,
        sym (ap (λ run. value_of run r) second),
      )
  run_op-Outcome (accepted (membership o)) r out st after e =
      (sym (ap (λ run. end_of run st) e), sym (ap (λ run. value_of run r) e))
  run_op-Outcome (accepted (did op)) r out st after e =
      decide-Checked (check_did x op (reads x st)) (write_did x) did_failed r out st after e
  run_op-Outcome (accepted (sub_actor op)) r out st after e =
      decide-Checked (check_mint x op (reads x st)) (write_mint x) actor_failed r out st after e
  run_op-Outcome (accepted (rebind op)) r out st after e =
      decide-Checked (check_rebind x op (reads x st)) (write x) actor_failed r out st after e
  run_op-Outcome (refused o) r out st after e =
      (sym (ap (λ run. end_of run st) e), sym (ap (λ run. value_of run r) e))

  -- how much is reported or handed on
  abbrev pub reports : ExecuteResult M → ℕ
  reports r = length r.errors + length r.membership_ops + length r.op_errors

  -- One report more, and the state as it was, or no report.
  abbrev Counted : ExecuteResult M → ExecuteResult M → State K → State K → Type 0
  Counted r out st after = ((after ≡ st) × (reports out ≡ suc (reports r))) ⊎ (out ≡ r)

  one_more : {A : Type 0} (xs : List A) (a : A) → length (xs ++ a ∷ []) ≡ suc (length xs)
  one_more xs a = omega (arith, length-append xs (a ∷ []))

  Checked-Counted :
      {E A : Type 0} (c : Option (E ⊎ A)) (writes : A → State K → Ran (State K) (Unit {0}))
      (f : E → OpError) (r out : ExecuteResult M) (st after : State K)
      → Checked c writes f r out st after
      → Counted r out st after
  Checked-Counted c writes f r out st after (inl (e, fails, same, reported)) =
      inl (same, ap reports reported ∙ omega (arith, one_more r.op_errors (f e)))
  Checked-Counted c writes f r out st after (inr (a, passes, wrote, same)) = inr same

  Outcome-Counted :
      (op : Decodes x) (r out : ExecuteResult M) (st after : State K)
      → Outcome op r out st after
      → Counted r out st after
  Outcome-Counted (accepted (kv op)) r out st after e = inr e.1
  Outcome-Counted (accepted (membership m)) r out st after e =
      inl (e.0, ap reports e.1 ∙ omega (arith, one_more r.membership_ops m))
  Outcome-Counted (accepted (did op)) r out st after e =
      Checked-Counted (check_did x op (reads x st)) (write_did x) did_failed r out st after e
  Outcome-Counted (accepted (sub_actor op)) r out st after e =
      Checked-Counted (check_mint x op (reads x st)) (write_mint x) actor_failed r out st after e
  Outcome-Counted (accepted (rebind op)) r out st after e =
      Checked-Counted (check_rebind x op (reads x st)) (write x) actor_failed r out st after e
  Outcome-Counted (refused o) r out st after e =
      inl (e.0, ap reports e.1 ∙ omega (arith, one_more r.errors o))

  execute_txs-reports :
      (txs : List Bytes) (r out : ExecuteResult M) (st after : State K)
      → execute_txs x txs r st ≡ done after out
      → (reports out ≤ reports r + length txs) × (reports out ≡ reports r + length txs → after ≡ st)
  unfolding execute_txs
  execute_txs-reports [] r out st after e =
      let same = ap (λ run. reports (value_of run r)) e in
      (omega (arith, same), λ _. sym (ap (λ run. end_of run st) e))
  execute_txs-reports (tx ∷ txs) r out st after e =
      let (mid, s, first, second) = and_run-done (run_op x (decode_tx x tx) r st) _ after out e in
      let rest = execute_txs-reports txs s out mid after second in
      elim (Outcome-Counted (decode_tx x tx) r s st mid
        (run_op-Outcome (decode_tx x tx) r s st mid first)) [
          | inl (same, more) ↦
              (omega (arith, rest.0, more), λ all. rest.1 (omega (arith, all, more)) ∙ same)
          | inr same ↦
              let none_more = ap reports same in
              (
                omega (arith, rest.0, none_more),
                λ all. absurd (omega (arith, all, rest.0, none_more)),
              )
        ]

  -- An event that reports or hands on as many transactions as it holds leaves the state as it was.
  pub execute_event-reports :
      (event : Event) (out : ExecuteResult M) (st after : State K)
      → execute_event x event st ≡ done after out
      → reports out ≡ length event.payload
      → after ≡ st
  unfolding execute_event
  execute_event-reports event out st after e all =
      (execute_txs-reports event.payload (no_result x) out st after e).1 (omega (arith, all))
