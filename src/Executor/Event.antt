-- ===== src/Executor/Event.antt =====
-- consensus-node/executor/state/src/executor.rs: the execution of events and the buckets of finalized
-- events, without and with the differences of the state. The result of an event's errors is dropped
-- by the buckets, as the code drops it.
use jx.Base.{
  ℕ, max, Bool, true, false, ◌&&◌, Option, none, some, List, [], ◌∷◌, ◌++◌, ◌⊎◌, inl, inr, keep,
  ltb, ◌==◌, list_beq, nat_eq, compare, Ordering, if◌then◌else◌,
}
use jx.Roster.{Bytes}
use jx.Hashgraph
use jx.Hashgraph.{set_contains, set_insert}
use jx.Op.{
  Op, ExecutorError, Decoded, accepted, refused, put, delete, DecodedOp, kv, membership, did,
  sub_actor, rebind, decode_payload,
}
use jx.Did.{DidOp, decode_did_op, did_state_key, encode_document}
use jx.Actor.{SubActorOp, RebindOp, decode_sub_actor_op, decode_rebind}
use jx.State.{State, bytes_ltb}
use jx.Executor.{
  Externals, DidError, ActorError, DidWrites, SubActorAfterImage, Ran, panicked, storage_error,
  done, and_run, apply_op, apply_did_op, apply_sub_actor_op, apply_rebind_op,
}

pub data OpError : Type 0 where
  did_failed : DidError → OpError
  actor_failed : ActorError → OpError

pub record ExecuteResult (M : Type 0) : Type 0 where
  pub errors : List ExecutorError
  pub membership_ops : List M
  pub op_errors : List OpError

-- a `BTreeMap<Vec<u8>, Option<Vec<u8>>>`, in ascending order
abbrev pub Diffs : Type 0
Diffs = List (Bytes × Option Bytes)

-- `BTreeMap::insert`
unfoldable pub put_diff : Bytes → Option Bytes → Diffs → Diffs
put_diff key value [] = (key, value) ∷ []
put_diff key value ((k, v) ∷ m) =
    let rest = put_diff key value m in
    if list_beq k key
    then (k, value) ∷ m
    else if bytes_ltb key k
    then (key, value) ∷ (k, v) ∷ m
    else (k, v) ∷ rest

-- `entry(round)` of a `BTreeMap` by rounds, with a default where the round is missing
unfoldable pub update_round {ℓ} : {A : Type ℓ} → A → (A → A) → ℕ → List (ℕ × A) → List (ℕ × A)
update_round d f round [] = (round, f d) ∷ []
update_round d f round ((r, a) ∷ m) =
    let rest = update_round d f round m in
    elim (compare round r) [
      | Ordering.lt ↦ (round, f d) ∷ (r, a) ∷ m
      | Ordering.eq ↦ (r, f a) ∷ m
      | Ordering.gt ↦ (r, a) ∷ rest
    ]

unfoldable pub round_or {ℓ} : {A : Type ℓ} → A → ℕ → List (ℕ × A) → A
round_or d round [] = d
round_or d round ((r, a) ∷ m) = if r == round then a else round_or d round m

pub record Bucket (M K : Type 0) : Type 0 where
  pub state : State K
  pub executed : List ℕ
  pub pending : List (ℕ × List M)
  pub processed_through_round : ℕ

-- the highest round received
unfoldable pub new_max : List (Hashgraph.Event × ℕ) → ℕ
new_max [] = 0
new_max ((event, round) ∷ finalized) = max round (new_max finalized)

module _ {M K : Type 0} (x : Externals M K) where
  abbrev pub Decodes : Type 0
  Decodes = Decoded (DecodedOp M DidOp SubActorOp RebindOp)

  abbrev decoded_option : {A : Type 0} → Decoded A → Option A
  decoded_option (accepted a) = some a
  decoded_option (refused e) = none

  -- `DecodedOp::decode`
  unfoldable pub decode_tx : Bytes → Decodes
  decode_tx payload =
      decode_payload x.decode_membership
        (λ body. decoded_option (decode_did_op x.is_point x.is_utf8 body))
        (λ body. decoded_option (decode_sub_actor_op x.is_utf8 x.is_point body))
        (λ body. decoded_option (decode_rebind x.is_utf8 x.is_point body)) payload

  abbrev pub push_error : ExecutorError → ExecuteResult M → ExecuteResult M
  push_error e r = record r { errors = r.errors ++ e ∷ [] }

  abbrev pub push_membership : M → ExecuteResult M → ExecuteResult M
  push_membership m r = record r { membership_ops = r.membership_ops ++ m ∷ [] }

  abbrev pub push_outcome :
      {E A : Type 0} → (E → OpError) → E ⊎ A → ExecuteResult M → ExecuteResult M
  push_outcome f (inl e) r = record r { op_errors = r.op_errors ++ f e ∷ [] }
  push_outcome f (inr a) r = r

  -- the `match` of `execute_event`
  unfoldable pub run_op : Decodes → ExecuteResult M → State K → Ran (State K) (ExecuteResult M)
  run_op (accepted (kv op)) r st = and_run (apply_op x op st) λ after _. done after r
  run_op (accepted (membership m)) r st = done st (push_membership m r)
  run_op (accepted (did op)) r st =
      and_run (apply_did_op x op st) λ after out. done after (push_outcome did_failed out r)
  run_op (accepted (sub_actor op)) r st =
      and_run (apply_sub_actor_op x op st) λ after out. done after (push_outcome actor_failed out r)
  run_op (accepted (rebind op)) r st =
      and_run (apply_rebind_op x op st) λ after out. done after (push_outcome actor_failed out r)
  run_op (refused e) r st = done st (push_error e r)

  unfoldable pub execute_txs :
      List Bytes → ExecuteResult M → State K → Ran (State K) (ExecuteResult M)
  execute_txs [] r st = done st r
  execute_txs (tx ∷ txs) r st =
      and_run (run_op (decode_tx tx) r st) λ after s. execute_txs txs s after

  abbrev pub no_result : ExecuteResult M
  no_result = record { errors = []; membership_ops = []; op_errors = [] }

  -- `execute_event`
  unfoldable pub execute_event : Hashgraph.Event → State K → Ran (State K) (ExecuteResult M)
  execute_event event st = execute_txs event.payload no_result st

  abbrev pub Diffed : Type 0
  Diffed = ExecuteResult M × Diffs

  abbrev pub note_did : DidOp → DidError ⊎ DidWrites → Bytes → ExecuteResult M → Diffs → Diffed
  note_did op (inl e) key r m = (push_outcome {A = DidWrites} did_failed (inl e) r, m)
  note_did op (inr w) key r m = (
    r,
    elim w.root_write [
      | none ↦ put_diff key (some (encode_document op.document)) m
      | some entry ↦
          put_diff entry.0 (some entry.1) (put_diff key (some (encode_document op.document)) m)
    ],
  )

  abbrev pub note_mint : ActorError ⊎ SubActorAfterImage → ExecuteResult M → Diffs → Diffed
  note_mint (inl e) r m = (push_outcome {A = DidWrites} actor_failed (inl e) r, m)
  note_mint (inr w) r m =
      (r, put_diff w.root.0 (some w.root.1) (put_diff w.sub_actor.0 (some w.sub_actor.1) m))

  abbrev pub note_rebind : ActorError ⊎ (Bytes × Bytes) → ExecuteResult M → Diffs → Diffed
  note_rebind (inl e) r m = (push_outcome {A = DidWrites} actor_failed (inl e) r, m)
  note_rebind (inr (key, value)) r m = (r, put_diff key (some value) m)

  abbrev pub entry_of : Op → Bytes × Option Bytes
  entry_of (put key value) = (key, some value)
  entry_of (delete key) = (key, none)

  -- the panic of `did_state_key` before the operation is applied
  abbrev or_panics : Option Bytes → (Bytes → Ran (State K) Diffed) → Ran (State K) Diffed
  or_panics none f = panicked
  or_panics (some key) f = f key

  -- the `match` of `execute_event_with_diffs`
  unfoldable pub run_op_with_diffs :
      Decodes → ExecuteResult M → Diffs → State K → Ran (State K) Diffed
  run_op_with_diffs (accepted (kv op)) r m st =
      and_run (apply_op x op st)
        λ after _. done after (r, put_diff (entry_of op).0 (entry_of op).1 m)
  run_op_with_diffs (accepted (membership o)) r m st = done st (push_membership o r, m)
  run_op_with_diffs (accepted (did op)) r m st =
      or_panics (did_state_key op.id)
        λ key. and_run (apply_did_op x op st) λ after out. done after (note_did op out key r m)
  run_op_with_diffs (accepted (sub_actor op)) r m st =
      and_run (apply_sub_actor_op x op st) λ after out. done after (note_mint out r m)
  run_op_with_diffs (accepted (rebind op)) r m st =
      and_run (apply_rebind_op x op st) λ after out. done after (note_rebind out r m)
  run_op_with_diffs (refused e) r m st = done st (push_error e r, m)

  unfoldable pub execute_txs_with_diffs :
      List Bytes → ExecuteResult M → Diffs → State K → Ran (State K) Diffed
  execute_txs_with_diffs [] r m st = done st (r, m)
  execute_txs_with_diffs (tx ∷ txs) r m st =
      and_run (run_op_with_diffs (decode_tx tx) r m st)
        λ after s. execute_txs_with_diffs txs s.0 s.1 after

  -- `execute_event_with_diffs`
  unfoldable pub execute_event_with_diffs : Hashgraph.Event → Diffs → State K → Ran (State K) Diffed
  execute_event_with_diffs event m st = execute_txs_with_diffs event.payload no_result m st

  -- a run of the state inside the bucket
  abbrev pub in_bucket : {X : Type 0} → Bucket M K → Ran (State K) X → Ran (Bucket M K) X
  in_bucket b panicked = panicked
  in_bucket b (storage_error st) = storage_error (record b { state = st })
  in_bucket b (done st r) = done (record b { state = st }) r

  -- `if !ops.is_empty() { pending.entry(round).or_default().extend(ops) }`
  abbrev pub extend_pending : ℕ → List M → List (ℕ × List M) → List (ℕ × List M)
  extend_pending round [] pending = pending
  extend_pending round (m ∷ ms) pending = update_round [] (λ ops. ops ++ m ∷ ms) round pending

  -- what is kept of an executed event
  abbrev pub note_executed : ℕ → ℕ → ExecuteResult M → Bucket M K → Bucket M K
  note_executed round hash r b = record b {
    pending = extend_pending round r.membership_ops b.pending;
    executed = set_insert hash b.executed;
  }

  -- `event.hash().expect("hash bounded")`
  abbrev pub hashed : {S X : Type 0} → Option ℕ → (ℕ → Ran S X) → Ran S X
  hashed none f = panicked
  hashed (some h) f = f h

  -- the loop of `bucket_finalized`, with `any_new`
  unfoldable pub bucket_loop :
      List (Hashgraph.Event × ℕ) → Bool → Bucket M K → Ran (Bucket M K) Bool
  bucket_loop [] any_new b = done b any_new
  bucket_loop ((event, round) ∷ finalized) any_new b = hashed (x.hash event) λ h.
      elim (set_contains h b.executed) [
        | true ↦ bucket_loop finalized any_new b
        | false ↦
            and_run (in_bucket b (execute_event event b.state))
              λ after r. bucket_loop finalized true (note_executed round h r after)
      ]

  -- the watermark after the loop
  unfoldable pub raise_watermark : ℕ → Bool → Bucket M K → Bucket M K
  raise_watermark round any_new b =
      if any_new && ltb b.processed_through_round round
      then record b { processed_through_round = round }
      else b

  -- `bucket_finalized`
  unfoldable pub bucket_finalized :
      List (Hashgraph.Event × ℕ) → Bucket M K → Ran (Bucket M K) (Unit {0})
  bucket_finalized [] b = done b tt
  bucket_finalized (e ∷ finalized) b =
      and_run (bucket_loop (e ∷ finalized) false b)
        λ after any_new. done (raise_watermark (new_max (e ∷ finalized)) any_new after) tt

  abbrev pub RoundDiffs : Type 0
  RoundDiffs = List (ℕ × Diffs)

  -- the loop of `bucket_finalized_with_diffs`
  unfoldable pub bucket_loop_with_diffs :
      List (Hashgraph.Event × ℕ)
      → Bool
      → RoundDiffs
      → Bucket M K
      → Ran (Bucket M K) (Bool × RoundDiffs)
  bucket_loop_with_diffs [] any_new m b = done b (any_new, m)
  bucket_loop_with_diffs ((event, round) ∷ finalized) any_new m b = hashed (x.hash event) λ h.
      elim (set_contains h b.executed) [
        | true ↦ bucket_loop_with_diffs finalized any_new m b
        | false ↦
            and_run (in_bucket b (execute_event_with_diffs event (round_or [] round m) b.state))
              λ after r.
                bucket_loop_with_diffs finalized true (update_round [] (λ _. r.1) round m)
                  (note_executed round h r.0 after)
      ]

  abbrev has_diffs : ℕ × Diffs → Bool
  has_diffs (round, []) = false
  has_diffs (round, d ∷ ds) = true

  -- `bucket_finalized_with_diffs`; a `StateDiff` is a key with its value
  unfoldable pub bucket_finalized_with_diffs :
      List (Hashgraph.Event × ℕ) → Bucket M K → Ran (Bucket M K) RoundDiffs
  bucket_finalized_with_diffs [] b = done b []
  bucket_finalized_with_diffs (e ∷ finalized) b =
      and_run (bucket_loop_with_diffs (e ∷ finalized) false [] b) λ after out.
        done (raise_watermark (new_max (e ∷ finalized)) out.0 after) (keep has_diffs out.1)
