-- ===== src/Engine/Custom/Accepts.antt =====
-- What `handle_set_custom_mining_job` does to the engine, and what its success says.
use sv2_p2pool.Prelude.{ℕ, ◌≡◌, refl, sym, ◌∙◌, ap, Option, none, some, nat_eq}
use sv2_p2pool.Prelude.Assoc
use sv2_p2pool.Prelude.Assoc.{get-remove_self, remove_missing}
use sv2_p2pool.Bitcoin.{Bitcoin}
use sv2_p2pool.Messages.{SetCustomMiningJob}
use sv2_p2pool.Jobs.{DeclaredJob}
use sv2_p2pool.Engine.{Engine, World, Await}
use sv2_p2pool.Engine.Custom.{
  error, invalid_mining_job_token, judge, consume_job, handle_set_custom_mining_job,
}
use sv2_p2pool.Engine.Invariant.Consumed.{judge-keeps}

-- The engine without its counters.
abbrev pub uncounted : Engine → Engine
uncounted s = record s { metrics = none }

-- The engine after a token and the job that it stands for are consumed.
abbrev pub consumed : (token request_id : ℕ) → Engine → Engine
consumed token request_id s = record s {
  allocated_tokens = Assoc.remove token s.allocated_tokens;
  declared_jobs = Assoc.remove request_id s.declared_jobs;
}

module _ (b : Bitcoin) (w : World b) where
  -- No other task runs at the handler's awaits.
  abbrev pub IsQuiet : Type 0
  IsQuiet = (at : Await) (s : Engine) → w.meanwhile at s ≡ s

  judge-uncounted :
      (scmj : SetCustomMiningJob) (declared : DeclaredJob) (s : Engine)
      → IsQuiet
      → uncounted (judge b w scmj declared s).0 ≡ uncounted s
  judge-uncounted scmj declared s quiet =
      judge-keeps b w (λ s'. uncounted s' ≡ uncounted s) (λ f s' h. h)
        (λ at s' h. rw (quiet at s') h) scmj declared s refl

  consume_job-uncounted :
      (scmj : SetCustomMiningJob) (request_id : ℕ) (s : Engine)
      → IsQuiet
      → uncounted (consume_job b w scmj request_id s).0
        ≡ uncounted (record s { declared_jobs = Assoc.remove request_id s.declared_jobs })
  unfolding consume_job
  consume_job-uncounted scmj request_id s quiet = go (Assoc.get request_id s.declared_jobs) refl
    where
      go :
          (o : Option DeclaredJob)
          → Assoc.get request_id s.declared_jobs ≡ o
          → uncounted (consume_job b w scmj request_id s).0
            ≡ uncounted (record s { declared_jobs = Assoc.remove request_id s.declared_jobs })
      go none e =
          rw (e, consume_job)
            (ap (λ cache. uncounted (record s { declared_jobs = cache }))
              (sym (remove_missing request_id s.declared_jobs e)))
      go (some declared) e = rw (e, consume_job) (judge-uncounted scmj declared _ quiet)

  -- Whatever the outcome, a panic included, a known token and the job that it stands for are
  -- consumed and nothing else changes but the counters, when no other task runs meanwhile.
  pub custom-consumed :
      (scmj : SetCustomMiningJob) (token request_id : ℕ) (s : Engine)
      → IsQuiet
      → Assoc.get token s.allocated_tokens ≡ some request_id
      → uncounted (handle_set_custom_mining_job b w scmj token s).0
        ≡ uncounted (consumed token request_id s)
  unfolding handle_set_custom_mining_job
  custom-consumed scmj token request_id s quiet e =
      rw (e, handle_set_custom_mining_job) (consume_job-uncounted scmj request_id _ quiet)

  unknown_token :
      (scmj : SetCustomMiningJob) (token : ℕ) (s : Engine)
      → Assoc.get token s.allocated_tokens ≡ none
      → (handle_set_custom_mining_job b w scmj token s).1 ≡ some (error invalid_mining_job_token)
  unfolding handle_set_custom_mining_job
  unknown_token scmj token s e = rw (e, handle_set_custom_mining_job)

  unknown_unchanged :
      (scmj : SetCustomMiningJob) (token : ℕ) (s : Engine)
      → Assoc.get token s.allocated_tokens ≡ none
      → (handle_set_custom_mining_job b w scmj token s).0.allocated_tokens ≡ s.allocated_tokens
  unfolding handle_set_custom_mining_job
  unknown_unchanged scmj token s e = rw (e, handle_set_custom_mining_job)

  token_gone :
      (scmj : SetCustomMiningJob) (token : ℕ) (s : Engine)
      → IsQuiet
      → Assoc.get token (handle_set_custom_mining_job b w scmj token s).0.allocated_tokens ≡ none
  token_gone scmj token s quiet = go (Assoc.get token s.allocated_tokens) refl
    where
      go :
          (o : Option ℕ)
          → Assoc.get token s.allocated_tokens ≡ o
          → Assoc.get token (handle_set_custom_mining_job b w scmj token s).0.allocated_tokens
            ≡ none
      go none e = rw (unknown_unchanged scmj token s e) e
      go (some request_id) e =
          ap (λ s'. Assoc.get token s'.allocated_tokens)
            (custom-consumed scmj token request_id s quiet e)
          ∙ get-remove_self token s.allocated_tokens

  -- A token serves once: a second message under it is rejected, whatever the first one's outcome,
  -- when no other task runs meanwhile.
  pub custom-custom :
      (first second : SetCustomMiningJob) (token : ℕ) (s : Engine)
      → IsQuiet
      → (handle_set_custom_mining_job b w second token
          (handle_set_custom_mining_job b w first token s).0).1
        ≡ some (error invalid_mining_job_token)
  custom-custom first second token s quiet =
      unknown_token second token _ (token_gone first token s quiet)
