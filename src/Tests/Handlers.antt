-- ===== src/Tests/Handlers.antt =====
-- The handlers of messages about jobs on concrete inputs.
use sv2_p2pool.Prelude.{
  ◌≡◌, ◌↔◌, refl, inl, inr, bytes_eq, bytes_eqb, nat_eq, [], ◌∷◌, none, some, starts_with,
}
use sv2_p2pool.Prelude.Assoc
use sv2_p2pool.Prelude.Flow.{next, traverse}
use sv2_p2pool.Jobs.{find_by_solution}
use sv2_p2pool.Coinbase.{
  extend_zeros, extranonce_size, reconstruct_coinbase, reconstruct_coinbase_with_extranonce,
}
use sv2_p2pool.Merkle.{pair_at, next_level, branch_loop, merkle_path}
use sv2_p2pool.Block.{check_bodies, match_bodies, reconstruct_block, build_candidate_block}
use sv2_p2pool.Engine.{bump}
use sv2_p2pool.Engine.Declare.{
  tally_declare, missing_transactions, decode_token, from_le_bytes, declare_checks,
  handle_declare_mining_job,
}
use sv2_p2pool.Engine.Declare.Outcome.{IsAccepted, declare-IsAccepted}
use sv2_p2pool.Engine.Declare.Asks.{Asks, declare_asks_iff}
use sv2_p2pool.Engine.Custom
use sv2_p2pool.Engine.Custom.{
  SetCustomMiningJobResult, error, invalid_mining_job_token, check_tip, check_coinbase, check_path,
  paths_eqb, check_job, conclude, propose, validate, accept_custom, judge, consume_job,
  handle_set_custom_mining_job,
}
use sv2_p2pool.Engine.Custom.Checks.{Matches}
use sv2_p2pool.Engine.Custom.Complete.{check_job_iff}
use sv2_p2pool.Engine.Custom.Success.{IsBacked, custom-IsBacked, IsProposed, custom-IsProposed}
use sv2_p2pool.Engine.Custom.Honest.{custom_structural, custom_validated}
use sv2_p2pool.Engine.Push.{
  received, credit_and_submit, rebuild, fetched, looked_up, find_job, handle_push_solution,
}
use sv2_p2pool.Engine.Push.Submits.{IsFound, push-IsFound}
use sv2_p2pool.Engine.Push.Dropped.{push-custom}
use sv2_p2pool.Tests.{
  toy, digest, body, solved_block, job, declaration, missing, scmj, solution, world, tdp, engine,
}

check_job_iff_example : (check_job toy job scmj ≡ next tt) ↔ Matches toy job scmj
check_job_iff_example = check_job_iff toy job scmj refl (refl, tt)

job-Matches : Matches toy job scmj
unfolding reconstruct_coinbase extranonce_size extend_zeros merkle_path branch_loop next_level
    pair_at bytes_eqb
job-Matches = record {
  is_validated = refl;
  on_tip = inr (refl, refl);
  version = refl;
  coinbase_tx = _;
  rebuilds = refl;
  coinbase = record {
    tx_version = refl;
    tx_in = _;
    rest = _;
    first = refl;
    after_prefix = _;
    has_prefix = refl;
    sequence = refl;
    outputs = refl;
    locktime = refl;
  };
  txids = digest body ∷ [];
  has_txids = refl;
  path = refl;
}

custom_structural_example :
    (handle_set_custom_mining_job toy world scmj 2 (record engine { tdp = none })).1
    ≡ some Custom.success
unfolding Assoc.get
custom_structural_example =
    custom_structural toy world scmj job refl (refl, tt) job-Matches 2 3
      (record engine { tdp = none }) refl refl (inl refl)

custom_validated_example :
    (handle_set_custom_mining_job toy world scmj 2 engine).1 ≡ some Custom.success
unfolding Assoc.get job-Matches
custom_validated_example =
    custom_validated toy world scmj job refl (refl, tt) job-Matches 2 3 4 tdp (body ∷ []) engine
      refl refl refl refl refl refl refl (λ block fine. inl refl)

-- The message is accepted.
custom_accepted : (handle_set_custom_mining_job toy world scmj 2 engine).1 ≡ some Custom.success
unfolding handle_set_custom_mining_job consume_job judge accept_custom validate propose conclude
    check_job check_tip check_coinbase check_path paths_eqb starts_with traverse Assoc.get
    Assoc.remove bytes_eqb reconstruct_coinbase extranonce_size extend_zeros merkle_path branch_loop
    next_level pair_at build_candidate_block match_bodies check_bodies
custom_accepted = refl

custom-IsBacked_example : IsBacked toy world scmj 2 engine
custom-IsBacked_example = custom-IsBacked toy world scmj 2 engine custom_accepted

custom-IsProposed_example : IsProposed toy world scmj job (body ∷ [])
unfolding Assoc.get
custom-IsProposed_example =
    custom-IsProposed toy world scmj 2 3 4 job tdp (body ∷ []) engine refl refl refl refl refl refl
      custom_accepted

declare-IsAccepted_example :
    IsAccepted toy declaration
      (some missing)
      (handle_declare_mining_job toy world declaration (some missing) engine).0
unfolding handle_declare_mining_job declare_checks decode_token from_le_bytes traverse
    reconstruct_coinbase extranonce_size extend_zeros
declare-IsAccepted_example = declare-IsAccepted toy world declaration (some missing) engine refl

declare_asks_iff_example :
    (handle_declare_mining_job toy world declaration none engine ≡ (
      bump (tally_declare (missing_transactions declaration.wtxid_list)) engine,
      some (missing_transactions declaration.wtxid_list),
    ))
    ↔ Asks toy declaration none declaration.wtxid_list
declare_asks_iff_example = declare_asks_iff toy declaration none declaration.wtxid_list world engine

push-IsFound_example :
    IsFound toy world solution solved_block
      (bump received engine)
      (handle_push_solution toy world solution engine).engine
unfolding handle_push_solution find_job looked_up fetched rebuild credit_and_submit find_by_solution
    Assoc.get bytes_eqb reconstruct_block match_bodies check_bodies
    reconstruct_coinbase_with_extranonce extranonce_size
push-IsFound_example = push-IsFound toy world solution solved_block engine refl

push-custom_example :
    (handle_push_solution toy world solution
      (handle_set_custom_mining_job toy world scmj 2 engine).0).submits
    ≡ none
unfolding Assoc.get Assoc.remove find_by_solution
push-custom_example = push-custom toy world solution scmj 2 3 engine (λ at s. refl) refl refl
