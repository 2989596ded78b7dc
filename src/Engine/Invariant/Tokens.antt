-- ===== src/Engine/Invariant/Tokens.antt =====
-- Allocation and the eviction of tokens keep the invariant.
use sv2_p2pool.Prelude.{
  ℕ, ◌≡◌, refl, sym, subst, false, not, ◌==◌, inl, inr, Bytes, Option, none, some, ltb, length,
  arith, nat_eq, bytes_eq, nat_eqb_iff, Bool-cases,
}
use sv2_p2pool.Prelude.Assoc
use sv2_p2pool.Prelude.Assoc.{
  IsMap, insert-IsMap, retain-IsMap, kept_iff, get-insert, get-remove, get-retain,
}
use sv2_p2pool.Bitcoin.{Bitcoin}
use sv2_p2pool.Engine.{Engine, World}
use sv2_p2pool.Engine.Allocate.{
  is_nil, normalize, is_bound_elsewhere, bind_payout, resolve_payout_script, offer,
  handle_allocate_mining_job_token, drop_token_payout,
}
use sv2_p2pool.Engine.Invariant.{IsLive, Inv, Alone}

module _ (b : Bitcoin) (w : World b) (alone : Alone b w) where
  -- The engine after both inserts of a binding, with nothing in between.
  abbrev bound : ℕ → Bytes → Bytes → Engine → Engine
  bound token script user s = record s {
    token_payout = Assoc.insert token script s.token_payout;
    user_identifier_index = Assoc.insert user token s.user_identifier_index;
  }

  bound-IsLive :
      (token : ℕ) (script user : Bytes) (s : Engine)
      → IsLive b s
      → IsLive b (bound token script user s)
  bound-IsLive token script user s live u t h = elim (Bool-cases (token == t)) [
    | inl same ↦ (script, ground (arith, get-insert token t script s.token_payout))
    | inr other ↦
        let (found, h') =
          live u t (
            ground (arith, get-insert user u token s.user_identifier_index, nat_eqb_iff token t)) in
        (found, ground (arith, get-insert token t script s.token_payout))
  ]

  bind_payout-Inv :
      (token : ℕ) (script user : Bytes) (s : Engine)
      → Inv b s
      → Inv b (bind_payout b w token script user s)
  unfolding bind_payout
  bind_payout-Inv token script user s v =
      subst
        (λ s'.
          Inv b (record s' {
            user_identifier_index = Assoc.insert user token s'.user_identifier_index;
          }))
        (sym (alone.binds (record s { token_payout = Assoc.insert token script s.token_payout })))
        (record {
          cache_map = v.cache_map;
          declared = v.declared;
          index_map = insert-IsMap user token s.user_identifier_index v.index_map;
          live = bound-IsLive token script user s v.live;
        })

  offer-Inv :
      (token : ℕ) (user : Bytes) (budget : ℕ) (script : Bytes) (s : Engine)
      → Inv b s
      → Inv b (offer b w token user budget script s).0
  unfolding offer
  offer-Inv token user budget script s v =
      elim (Bool-cases (is_bound_elsewhere token (Assoc.get user s.user_identifier_index))) [
        | inl bound ↦ rw (bound, offer) v
        | inr free ↦ elim (Bool-cases (ltb budget (length (b.serialize_zero_output script)))) [
          | inl over ↦ rw (free, over, offer) v
          | inr fits ↦
              rw (free, fits, offer) (bind_payout-Inv token script user _ (alone.keeps s v))
        ]
      ]

  -- `handle_allocate_mining_job_token` keeps the invariant.
  pub allocate-Inv :
      (token : ℕ) (user_identifier : Bytes) (budget : ℕ) (s : Engine)
      → Inv b s
      → Inv b (handle_allocate_mining_job_token b w token user_identifier budget s).0
  unfolding handle_allocate_mining_job_token
  allocate-Inv token user_identifier budget s v =
      elim (Bool-cases (is_nil (normalize b w user_identifier))) [
        | inl empty ↦ rw (empty, handle_allocate_mining_job_token) v
        | inr named ↦ go named (resolve_payout_script b w (normalize b w user_identifier)) refl
      ]
    where
      go :
          is_nil (normalize b w user_identifier) ≡ false
          → (o : Option Bytes) → resolve_payout_script b w (normalize b w user_identifier) ≡ o
          → Inv b (handle_allocate_mining_job_token b w token user_identifier budget s).0
      go named none e = rw (named, e, handle_allocate_mining_job_token) v
      go named (some script) e =
          rw (named, e, handle_allocate_mining_job_token) (offer-Inv token _ budget script s v)

  -- `drop_token_payout` keeps the invariant.
  pub drop_token_payout-Inv :
      (token : ℕ) (s : Engine) → Inv b s → Inv b (drop_token_payout b w token s)
  unfolding drop_token_payout
  drop_token_payout-Inv token s v = go (Assoc.get token s.token_payout) refl
    where
      go :
          (o : Option Bytes)
          → Assoc.get token s.token_payout ≡ o
          → Inv b (drop_token_payout b w token s)
      go none e = rw (e, drop_token_payout) v
      go (some script) e =
          rw (e, drop_token_payout)
            (subst
              (λ s'. Inv b (record s' {
                user_identifier_index =
                    Assoc.retain (λ _ bound_token. not (bound_token == token))
                      s'.user_identifier_index;
              }))
              (sym (alone.evicts (record s { token_payout = Assoc.remove token s.token_payout })))
              (record {
                cache_map = v.cache_map;
                declared = v.declared;
                index_map = retain-IsMap _ s.user_identifier_index v.index_map;
                live = λ u t h.
                    let (h₁, h₂) =
                      (kept_iff (λ bound_token. not (bound_token == token))
                          (Assoc.get u s.user_identifier_index) t).0
                        (ground (
                          arith,
                          get-retain (λ _ bound_token. not (bound_token == token)) u
                              s.user_identifier_index v.index_map,
                        )) in
                    let (found, h₃) = v.live u t h₁ in
                    (
                      found,
                      ground (
                        arith,
                        get-remove token t s.token_payout,
                        nat_eqb_iff t token,
                        nat_eqb_iff token t,
                      ),
                    );
              }))
