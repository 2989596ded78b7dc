-- ===== src/Engine/Allocate.antt =====
-- `handle_allocate_mining_job_token` and `TokenPayoutEvictor` of
-- crates/sv2-p2pool-engine/src/engine_impl.rs, and `drop_token_payout` of lib.rs.
pub mod Bindings
use sv2_p2pool.Prelude.{
  ℕ, Bool, true, false, not, ◌||◌, ◌==◌, nat_eq, bytes_eq, ltb, if◌then◌else◌, Bytes, List, [], ◌∷◌,
  ◌++◌, Option, none, some, length,
}
use mathlib.Core.List.{reverse}
use sv2_p2pool.Prelude.Assoc
use sv2_p2pool.Bitcoin.{Bitcoin}
use sv2_p2pool.Engine.{Engine, World, guarded, inserted, removed}

-- `char::is_ascii_whitespace`
abbrev pub is_ascii_whitespace : ℕ → Bool
is_ascii_whitespace c = c == 32 || (c == 9 || (c == 10 || (c == 12 || c == 13)))

unfoldable pub trim_start : Bytes → Bytes
trim_start [] = []
trim_start (c ∷ cs) = let rest = trim_start cs in if is_ascii_whitespace c then rest else c ∷ cs

-- `trim_matches(|c| c.is_ascii_whitespace())`
abbrev pub trim : Bytes → Bytes
trim text = reverse (trim_start (reverse (trim_start text)))

abbrev pub is_bound_elsewhere : ℕ → Option ℕ → Bool
is_bound_elsewhere token none = false
is_bound_elsewhere token (some existing_token) = not (existing_token == token)

abbrev pub is_nil : Bytes → Bool
is_nil [] = true
is_nil (x ∷ xs) = false

module _ (b : Bitcoin) where
  abbrev pub normalize : World b → Bytes → Bytes
  normalize w user_identifier = w.nfkc (trim user_identifier)

  -- `None` in production: the accounting selector is not wired.
  unfoldable pub resolve_payout_script : World b → Bytes → Option Bytes
  resolve_payout_script w user = elim w.payout_resolver [
    | none ↦ none
    | some resolver ↦ resolver user
  ]

  -- The two inserts of step 4.
  unfoldable pub bind_payout : World b → ℕ → Bytes → Bytes → Engine → Engine
  bind_payout w token script user s =
      let s' =
        w.between inserted (record s { token_payout = Assoc.insert token script s.token_payout }) in
      record s' { user_identifier_index = Assoc.insert user token s'.user_identifier_index }

  -- Steps 2 to 4: the guard on duplicates, the size budget, and the binding.
  unfoldable pub offer : World b → ℕ → Bytes → ℕ → Bytes → Engine → Engine × Option Bytes
  offer w token user budget script s =
      if is_bound_elsewhere token (Assoc.get user s.user_identifier_index)
      then (s, none)
      else if ltb budget (length (b.serialize_zero_output script))
      then (s, none)
      else (bind_payout w token script user (w.between guarded s), some script)

  -- The engine afterwards, and the script of the `TxOut` of value 0 that is returned.
  unfoldable pub handle_allocate_mining_job_token :
      World b → ℕ → Bytes → ℕ → Engine → Engine × Option Bytes
  unfolding offer
  handle_allocate_mining_job_token w token user_identifier budget s =
      let user = normalize w user_identifier in
      if is_nil user then (s, none) else (elim (resolve_payout_script w user) [
        | none ↦ (s, none)
        | some script ↦ offer w token user budget script s
      ])

  unfoldable pub drop_token_payout : World b → ℕ → Engine → Engine
  drop_token_payout w token s = elim (Assoc.get token s.token_payout) [
    | none ↦ s
    | some script ↦
        let s' =
          w.between removed (record s { token_payout = Assoc.remove token s.token_payout }) in
        record s' {
          user_identifier_index =
              Assoc.retain (λ _ bound_token. not (bound_token == token)) s'.user_identifier_index;
        }
  ]

  unfoldable pub on_allocated_evicted : World b → ℕ → Engine → Engine
  unfolding drop_token_payout
  on_allocated_evicted w token s = drop_token_payout w token s

  unfoldable pub on_active_evicted : World b → ℕ → ℕ → Engine → Engine
  unfolding drop_token_payout
  on_active_evicted w active_token allocated_token s = drop_token_payout w allocated_token s
