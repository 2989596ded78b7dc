-- ===== src/Tests/Runs.antt =====
-- Runs of the engine, allocation and reorgs on concrete inputs.
use sv2_p2pool.Prelude.{
  ℕ, suc, ◌≡◌, ◌≢◌, ◌↔◌, refl, true, false, bytes_eq, bytes_eqb, nat_eq, List, [], ◌∷◌, Option,
  none, some,
}
use sv2_p2pool.Prelude.Assoc
use sv2_p2pool.Prelude.Assoc.{get-remove_self}
use sv2_p2pool.Bitcoin.{Hash}
use sv2_p2pool.Engine.{Engine, World, guarded, inserted, removed}
use sv2_p2pool.Engine.Custom.{handle_set_custom_mining_job}
use sv2_p2pool.Engine.Custom.Returns.{Returns, custom-Returns}
use sv2_p2pool.Engine.Allocate.{
  offer, resolve_payout_script, trim_start, normalize, drop_token_payout,
  handle_allocate_mining_job_token,
}
use sv2_p2pool.Engine.Allocate.Bindings.{IsBound, allocate-IsBound, allocate_evicted}
use sv2_p2pool.Engine.Reorg.{walk, notify_share_chain_reorg}
use sv2_p2pool.Engine.Reorg.Ancestry.{IsAncestor}
use sv2_p2pool.Engine.Reorg.Survivors.{walked, notify_survivors}
use sv2_p2pool.Engine.Events.{Event, declare_mining_job, allocate_token, run, started}
use sv2_p2pool.Engine.Events.Reachable.{run-Inv}
use sv2_p2pool.Engine.Invariant.{Inv, Relies, Alone}
use sv2_p2pool.Tests.{toy, hash_of, job, declaration, missing, scmj, world, tdp, engine}

relies : Relies toy world
relies = record { keeps = λ at s v. v }

alone : Alone toy world
alone = record { keeps = λ s v. v; binds = λ s. refl; evicts = λ s. refl }

abbrev events : List (World toy × Event toy)
events =
    (world, allocate_token 2 (65 ∷ []) 100)
    ∷ (world, declare_mining_job declaration (some missing))
    ∷ []

abbrev reached : Engine
reached = run toy events (started toy true (some tdp) none)

run-Inv_example : Inv toy reached
run-Inv_example = run-Inv toy true (some tdp) none events ((relies, alone), ((relies, alone), tt))

custom-Returns_example : Returns (handle_set_custom_mining_job toy world scmj 2 reached)
custom-Returns_example = custom-Returns toy world scmj 2 reached refl (refl, tt) run-Inv_example

allocate-IsBound_example :
    IsBound toy world 2
      (65 ∷ [])
      100
      engine
      (4 ∷ [])
      (handle_allocate_mining_job_token toy world 2 (65 ∷ []) 100 engine).0
unfolding handle_allocate_mining_job_token offer resolve_payout_script trim_start Assoc.get
    bytes_eqb
allocate-IsBound_example =
    allocate-IsBound toy world 2 (65 ∷ []) 100 engine (4 ∷ []) (λ t. refl) refl

-- The token 2 is evicted between the inserts of its binding.
abbrev racing : World toy
racing = record world {
  between = λ point s. elim point [
    | guarded ↦ s
    | inserted ↦ drop_token_payout toy world 2 s
    | removed ↦ s
  ];
}

evicted_between : (t : Engine) → Assoc.get 2 (racing.between inserted t).token_payout ≡ none
unfolding drop_token_payout
evicted_between t = go (Assoc.get 2 t.token_payout) refl
  where
    go :
        (o : Option (List ℕ))
        → Assoc.get 2 t.token_payout ≡ o
        → Assoc.get 2 (drop_token_payout toy world 2 t).token_payout ≡ none
    go none e = rw (e, drop_token_payout) e
    go (some script) e = rw (e, drop_token_payout) (get-remove_self 2 t.token_payout)

abbrev stranded : Engine
stranded = (handle_allocate_mining_job_token toy racing 2 (65 ∷ []) 100 engine).0

allocate_evicted_example :
    (Assoc.get 2 stranded.token_payout ≡ none)
    × ((w : World toy) → drop_token_payout toy w 2 stranded ≡ stranded)
    × ((w : World toy) (token' : ℕ) (same_user : List ℕ) (budget' : ℕ)
        → normalize toy w same_user ≡ normalize toy racing (65 ∷ [])
        → token' ≢ 2
        → handle_allocate_mining_job_token toy w token' same_user budget' stranded
          ≡ (stranded, none))
unfolding handle_allocate_mining_job_token offer resolve_payout_script trim_start Assoc.get
    bytes_eqb
allocate_evicted_example =
    allocate_evicted toy racing 2 (65 ∷ []) 100 engine (4 ∷ []) evicted_between refl

abbrev production : World toy
production = record world { payout_resolver = none }

-- The walk from the tip 81.
walk_81 :
    (hops : ℕ)
    → walk toy world (suc (suc hops)) (hash_of 81) (hash_of 81 ∷ [])
      ≡ some (hash_of 80 ∷ hash_of 81 ∷ [])
unfolding walk bytes_eqb
walk_81 hops = refl

notify_survivors_example :
    (Assoc.get 3 (notify_share_chain_reorg toy world (hash_of 81) engine).declared_jobs ≡ some job)
    ↔ ((Assoc.get 3 (walked {b = toy} world (hash_of 81) engine).declared_jobs ≡ some job)
        × ((tip : Hash) × (some (hash_of 80) ≡ some tip)
            × IsAncestor {b = toy} world 100 (hash_of 81) tip))
unfolding Assoc.get
notify_survivors_example =
    notify_survivors {b = toy} world (hash_of 81) engine (hash_of 80 ∷ hash_of 81 ∷ []) 3 job refl
      (walk_81 98) (refl, tt)

abbrev unwired : Engine
unwired = record engine { handles = false }
