-- ===== src/Executor/Diffs.antt =====
-- `bucket_finalized_with_diffs` of consensus-node/executor/state/src/executor.rs against
-- `bucket_finalized`.
use jx.Base.{
  ℕ, ◌≡◌, ◌⊎◌, inl, inr, refl, sym, ◌∙◌, ap, Bool, true, false, none, List, [], ◌∷◌, Bool-cases,
  Option-cases,
}
use jx.Roster.{Bytes}
use jx.Hashgraph
use jx.Hashgraph.{set_contains}
use jx.Op.{accepted, refused, kv, membership, did, sub_actor, rebind}
use jx.Did.{DidOp, did_state_key}
use jx.State.{State}
use jx.Executor.{
  Externals, DidError, ActorError, DidWrites, SubActorAfterImage, Ran, panicked, storage_error,
  done, and_run, apply_op, apply_did_op, apply_sub_actor_op, apply_rebind_op, check_did,
}
use jx.Executor.Once.{hashed-some}
use jx.Executor.Event.{
  update_round, Bucket, ExecuteResult, did_failed, actor_failed, push_outcome, note_did, note_mint,
  note_rebind, Diffs, Diffed, RoundDiffs, Decodes, new_max, decode_tx, run_op, run_op_with_diffs,
  execute_txs, execute_txs_with_diffs, execute_event, execute_event_with_diffs, in_bucket,
  note_executed, bucket_loop, bucket_loop_with_diffs, raise_watermark, bucket_finalized,
  bucket_finalized_with_diffs, round_or, no_result,
}

-- a run with its value put through a function
abbrev pub map_run : {S X Y : Type 0} → (X → Y) → Ran S X → Ran S Y
map_run f panicked = panicked
map_run f (storage_error st) = storage_error st
map_run f (done st y) = done st (f y)

-- the value of the second part of a run is all that is put through the function
map_run-and_run :
    {S X Z W : Type 0} (g : Z → W) (run : Ran S X) (k : S → X → Ran S Z) (l : S → X → Ran S W)
    → ((st : S) (a : X) → map_run g (k st a) ≡ l st a)
    → map_run g (and_run run k) ≡ and_run run l
map_run-and_run g panicked k l e = refl
map_run-and_run g (storage_error st) k l e = refl
map_run-and_run g (done st a) k l e = e st a

-- a second part that reads only what the function keeps
and_run-map_run :
    {S X Y Z : Type 0} (h : X → Y) (run : Ran S X) (l : S → Y → Ran S Z)
    → and_run (map_run h run) l ≡ and_run run λ st a. l st (h a)
and_run-map_run h panicked l = refl
and_run-map_run h (storage_error st) l = refl
and_run-map_run h (done st a) l = refl

module _ {M K : Type 0} (x : Externals M K) where
  -- the result without the differences
  abbrev plain : Diffed x → ExecuteResult M
  plain r = r.0

  note_did-plain :
      (op : DidOp) (out : DidError ⊎ DidWrites) (key : Bytes) (r : ExecuteResult M) (m : Diffs)
      → (note_did x op out key r m).0 ≡ push_outcome x did_failed out r
  note_did-plain op (inl e) key r m = refl
  note_did-plain op (inr w) key r m = refl

  note_mint-plain :
      (out : ActorError ⊎ SubActorAfterImage) (r : ExecuteResult M) (m : Diffs)
      → (note_mint x out r m).0 ≡ push_outcome x actor_failed out r
  note_mint-plain (inl e) r m = refl
  note_mint-plain (inr w) r m = refl

  note_rebind-plain :
      (out : ActorError ⊎ (Bytes × Bytes)) (r : ExecuteResult M) (m : Diffs)
      → (note_rebind x out r m).0 ≡ push_outcome x actor_failed out r
  note_rebind-plain (inl e) r m = refl
  note_rebind-plain (inr w) r m = refl

  apply_did_op-panicked :
      (op : DidOp) (st : State K) → did_state_key op.id ≡ none → apply_did_op x op st ≡ panicked
  unfolding apply_did_op check_did
  apply_did_op-panicked op st n = rw n refl

  run_op-plain :
      (op : Decodes x) (r : ExecuteResult M) (m : Diffs) (st : State K)
      → map_run plain (run_op_with_diffs x op r m st) ≡ run_op x op r st
  unfolding run_op run_op_with_diffs
  run_op-plain (accepted (kv op)) r m st = map_run-and_run plain (apply_op x op st) _ _ λ s u. refl
  run_op-plain (accepted (membership o)) r m st = refl
  run_op-plain (accepted (did op)) r m st = elim (Option-cases (did_state_key op.id)) [
    | inl n ↦ rw (n, apply_did_op-panicked op st n) refl
    | inr (key, k) ↦ rw k (
        map_run-and_run plain (apply_did_op x op st) _ _
          λ s out. ap (done s) (note_did-plain op out key r m))
  ]
  run_op-plain (accepted (sub_actor op)) r m st =
      map_run-and_run plain (apply_sub_actor_op x op st) _ _
        λ s out. ap (done s) (note_mint-plain out r m)
  run_op-plain (accepted (rebind op)) r m st =
      map_run-and_run plain (apply_rebind_op x op st) _ _
        λ s out. ap (done s) (note_rebind-plain out r m)
  run_op-plain (refused e) r m st = refl

  execute_txs-plain :
      (txs : List Bytes) (r : ExecuteResult M) (m : Diffs) (st : State K)
      → map_run plain (execute_txs_with_diffs x txs r m st) ≡ execute_txs x txs r st
  unfolding execute_txs execute_txs_with_diffs
  execute_txs-plain [] r m st = refl
  execute_txs-plain (tx ∷ txs) r m st =
      map_run-and_run plain (run_op_with_diffs x (decode_tx x tx) r m st) _
        (λ after s. execute_txs x txs s.0 after) (λ after s. execute_txs-plain txs s.0 s.1 after)
      ∙ sym (
          and_run-map_run plain (run_op_with_diffs x (decode_tx x tx) r m st)
            (λ after s. execute_txs x txs s after))
      ∙ ap (λ run. and_run run λ after s. execute_txs x txs s after)
          (run_op-plain (decode_tx x tx) r m st)

  in_bucket-map_run :
      (b : Bucket M K) (run : Ran (State K) (Diffed x))
      → map_run plain (in_bucket x b run) ≡ in_bucket x b (map_run plain run)
  in_bucket-map_run b panicked = refl
  in_bucket-map_run b (storage_error st) = refl
  in_bucket-map_run b (done st r) = refl

  abbrev is_new : Bool × RoundDiffs x → Bool
  is_new out = out.0

  -- one event, once its hash is at hand
  hashed_loop-plain :
      (event : Hashgraph.Event) (round : ℕ) (finalized : List (Hashgraph.Event × ℕ))
      (any_new : Bool) (m : RoundDiffs x) (b : Bucket M K) (h : ℕ)
      → ((any_new : Bool) (m : RoundDiffs x) (b : Bucket M K)
          → map_run is_new (bucket_loop_with_diffs x finalized any_new m b)
            ≡ bucket_loop x finalized any_new b)
      → map_run is_new (elim (set_contains h b.executed) [
        | true ↦ bucket_loop_with_diffs x finalized any_new m b
        | false ↦
            and_run
              (in_bucket x b (execute_event_with_diffs x event (round_or [] round m) b.state))
              λ after r.
                bucket_loop_with_diffs x finalized true
                  (update_round [] (λ _. r.1) round m)
                  (note_executed x round h r.0 after)
      ])
        ≡ (elim (set_contains h b.executed) [
          | true ↦ bucket_loop x finalized any_new b
          | false ↦
              and_run
                (in_bucket x b (execute_event x event b.state))
                λ after r. bucket_loop x finalized true (note_executed x round h r after)
        ])
  unfolding execute_event execute_event_with_diffs
  hashed_loop-plain event round finalized any_new m b h rest =
      elim (Bool-cases (set_contains h b.executed)) [
        | inl t ↦ rw t (rest any_new m b)
        | inr n ↦
            let events =
              execute_txs_with_diffs x event.payload (no_result x) (round_or [] round m) b.state in
            let next : Bucket M K → ExecuteResult M → Ran (Bucket M K) Bool =
              λ after r. bucket_loop x finalized true (note_executed x round h r after) in
            rw n (
              map_run-and_run is_new (in_bucket x b events) _ (λ after r. next after r.0)
                (λ after r. rest true _ _)
              ∙ sym (and_run-map_run plain (in_bucket x b events) next)
              ∙ ap (λ run. and_run run next)
                  (in_bucket-map_run b events
                    ∙ ap (in_bucket x b) (
                        execute_txs-plain event.payload (no_result x) (round_or [] round m)
                          b.state)))
      ]

  bucket_loop-plain :
      (finalized : List (Hashgraph.Event × ℕ)) (any_new : Bool) (m : RoundDiffs x) (b : Bucket M K)
      → map_run is_new (bucket_loop_with_diffs x finalized any_new m b)
        ≡ bucket_loop x finalized any_new b
  unfolding bucket_loop bucket_loop_with_diffs execute_event execute_event_with_diffs
  bucket_loop-plain [] any_new m b = refl
  bucket_loop-plain ((event, round) ∷ finalized) any_new m b = elim (Option-cases (x.hash event)) [
    | inl none_given ↦ rw (bucket_loop, bucket_loop_with_diffs, none_given) refl
    | inr (h, g) ↦
        ap (map_run is_new) (hashed-some x (x.hash event) h _ g)
        ∙ hashed_loop-plain event round finalized any_new m b h (bucket_loop-plain finalized)
        ∙ sym (hashed-some x (x.hash event) h _ g)
  ]

  -- Executing a batch with the differences does to the bucket what executing it without them does,
  -- panics and storage errors included.
  pub bucket_finalized_with_diffs-plain :
      (finalized : List (Hashgraph.Event × ℕ)) (b : Bucket M K)
      → map_run (λ _. tt) (bucket_finalized_with_diffs x finalized b)
        ≡ bucket_finalized x finalized b
  unfolding bucket_finalized bucket_finalized_with_diffs
  bucket_finalized_with_diffs-plain [] b = refl
  bucket_finalized_with_diffs-plain (f ∷ finalized) b =
      map_run-and_run (λ _. tt) (bucket_loop_with_diffs x (f ∷ finalized) false [] b) _
        (λ after out. done (raise_watermark x (new_max (f ∷ finalized)) out.0 after) tt)
        (λ after out. refl)
      ∙ sym (
          and_run-map_run is_new (bucket_loop_with_diffs x (f ∷ finalized) false [] b)
            (λ after any_new. done (raise_watermark x (new_max (f ∷ finalized)) any_new after) tt))
      ∙ ap
          (λ run.
            and_run run
              λ after any_new. done (raise_watermark x (new_max (f ∷ finalized)) any_new after) tt)
          (bucket_loop-plain (f ∷ finalized) false [] b)
