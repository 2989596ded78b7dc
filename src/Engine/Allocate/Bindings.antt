-- ===== src/Engine/Allocate/Bindings.antt =====
-- The bindings of users to tokens and payout scripts.
use sv2_p2pool.Prelude.{
  ℕ, ◌≡◌, ◌≢◌, ◌≤◌, refl, ap, ◌∙◌, ◌⊎◌, inl, inr, true, false, ◌==◌, nat_eq, bytes_eq, nat_eqb_iff,
  ltb, Bytes, Option, none, some, length, arith, Bool-cases,
}
use sv2_p2pool.Prelude.Assoc
use sv2_p2pool.Prelude.Assoc.{get-insert_self, get-remove_self, get-retain, kept_iff}
use sv2_p2pool.Bitcoin.{Bitcoin}
use sv2_p2pool.Engine.{Engine, World, guarded, inserted}
use sv2_p2pool.Engine.Allocate.{
  is_nil, normalize, is_bound_elsewhere, bind_payout, resolve_payout_script, offer,
  handle_allocate_mining_job_token, drop_token_payout,
}

module _ (b : Bitcoin) (w : World b) (token : ℕ) (user_identifier : Bytes) (budget : ℕ)
    (s : Engine) where
  -- As long as no payout selector is wired, as in production, no token gets a payout and the
  -- engine does not change.
  pub allocate_unwired :
      w.payout_resolver ≡ none
      → handle_allocate_mining_job_token b w token user_identifier budget s ≡ (s, none)
  unfolding handle_allocate_mining_job_token resolve_payout_script
  allocate_unwired unwired = elim (Bool-cases (is_nil (normalize b w user_identifier))) [
    | inl empty ↦ rw empty
    | inr named ↦ rw (named, unwired)
  ]

  -- What an allocation that returns a script has done, up to its second insert: `first` is the engine
  -- after the first.
  pub record Wrote (script : Bytes) (after : Engine) : Type 0 where
    pub named : is_nil (normalize b w user_identifier) ≡ false
    pub free :
        (Assoc.get (normalize b w user_identifier) s.user_identifier_index ≡ none)
        ⊎ (Assoc.get (normalize b w user_identifier) s.user_identifier_index ≡ some token)
    pub fits : length (b.serialize_zero_output script) ≤ budget
    pub first : Engine
    pub first_payout : Assoc.get token first.token_payout ≡ some script
    pub payouts : after.token_payout ≡ (w.between inserted first).token_payout
    pub user : Assoc.get (normalize b w user_identifier) after.user_identifier_index ≡ some token

  free_for : (o : Option ℕ) → is_bound_elsewhere token o ≡ false → (o ≡ none) ⊎ (o ≡ some token)
  free_for none h = inl refl
  free_for (some t) h = inr (ap some ((nat_eqb_iff t token).0 (ground arith)))

  offer-Wrote :
      (script script' : Bytes)
      → is_nil (normalize b w user_identifier) ≡ false
      → (offer b w token (normalize b w user_identifier) budget script' s).1 ≡ some script
      → Wrote script (offer b w token (normalize b w user_identifier) budget script' s).0
  unfolding offer bind_payout
  offer-Wrote script script' named h =
      elim (Bool-cases (
        is_bound_elsewhere token
          (Assoc.get (normalize b w user_identifier) s.user_identifier_index))) [
            | inl bound ↦ absurd (ground (arith, bound, h))
            | inr free ↦ elim (Bool-cases (ltb budget (length (b.serialize_zero_output script')))) [
              | inl over ↦ absurd (ground (arith, free, over, h))
              | inr fits ↦
                  let same : script' ≡ script = ground (arith, free, fits, h) in
                  rw (free, fits, same)
                    (record {
                      named = named;
                      free = free_for _ free;
                      fits = rw (← same) (ground arith);
                      first = record (w.between guarded s) {
                        token_payout = Assoc.insert token script (w.between guarded s).token_payout;
                      };
                      first_payout =
                          get-insert_self token script (w.between guarded s).token_payout;
                      payouts = refl;
                      user = get-insert_self (normalize b w user_identifier) token _;
                    })
            ]
          ]

  pub allocate-Wrote :
      (script : Bytes)
      → (handle_allocate_mining_job_token b w token user_identifier budget s).1 ≡ some script
      → Wrote script (handle_allocate_mining_job_token b w token user_identifier budget s).0
  unfolding handle_allocate_mining_job_token
  allocate-Wrote script h = elim (Bool-cases (is_nil (normalize b w user_identifier))) [
    | inl empty ↦ absurd (ground (arith, empty, h))
    | inr named ↦ go named (resolve_payout_script b w (normalize b w user_identifier)) refl
  ]
    where
      go :
          is_nil (normalize b w user_identifier) ≡ false
          → (o : Option Bytes) → resolve_payout_script b w (normalize b w user_identifier) ≡ o
          → Wrote script (handle_allocate_mining_job_token b w token user_identifier budget s).0
      go named none e = absurd (ground (arith, named, e, h))
      go named (some script') e =
          rw (named, e, handle_allocate_mining_job_token)
            (offer-Wrote script script' named (ground (arith, named, e, h)))

  -- What an allocation that returns a script leaves.
  pub record IsBound (script : Bytes) (after : Engine) : Type 0 where
    pub named : is_nil (normalize b w user_identifier) ≡ false
    pub free :
        (Assoc.get (normalize b w user_identifier) s.user_identifier_index ≡ none)
        ⊎ (Assoc.get (normalize b w user_identifier) s.user_identifier_index ≡ some token)
    pub fits : length (b.serialize_zero_output script) ≤ budget
    pub payout : Assoc.get token after.token_payout ≡ some script
    pub user : Assoc.get (normalize b w user_identifier) after.user_identifier_index ≡ some token

  -- An allocation that returns a script names a user who was bound to no other token, fits the
  -- budget, and leaves the token bound to the script and the normalized user bound to the token, as
  -- long as what runs between its two inserts does not touch the token's script.
  pub allocate-IsBound :
      (script : Bytes)
      → ((t : Engine)
          → Assoc.get token (w.between inserted t).token_payout ≡ Assoc.get token t.token_payout)
      → (handle_allocate_mining_job_token b w token user_identifier budget s).1 ≡ some script
      → IsBound script (handle_allocate_mining_job_token b w token user_identifier budget s).0
  allocate-IsBound script untouched h =
      let wrote = allocate-Wrote script h in
      record {
        named = wrote.named;
        free = wrote.free;
        fits = wrote.fits;
        payout = ap (Assoc.get token) wrote.payouts ∙ untouched wrote.first ∙ wrote.first_payout;
        user = wrote.user;
      }

module _ (b : Bitcoin) where
  -- A token without a script: an eviction of it does nothing.
  pub drop_nothing :
      (w : World b) (token : ℕ) (s : Engine)
      → Assoc.get token s.token_payout ≡ none
      → drop_token_payout b w token s ≡ s
  unfolding drop_token_payout
  drop_nothing w token s h = rw (h, drop_token_payout)

  elsewhere :
      (token other : ℕ) (o : Option ℕ)
      → o ≡ some other
      → token ≢ other
      → is_bound_elsewhere token o ≡ true
  elsewhere token other none h apart = cc
  elsewhere token other (some t) h apart = elim (Bool-cases (t == token)) [
    | inl same ↦ let same' = (nat_eqb_iff t token).0 same in absurd (apart cc)
    | inr other' ↦ ground arith
  ]

  -- A user who is bound to another token: an allocation gives nothing and does nothing.
  pub allocate_bound :
      (w : World b) (token other : ℕ) (user_identifier : Bytes) (budget : ℕ) (s : Engine)
      → Assoc.get (normalize b w user_identifier) s.user_identifier_index ≡ some other
      → token ≢ other
      → handle_allocate_mining_job_token b w token user_identifier budget s ≡ (s, none)
  unfolding handle_allocate_mining_job_token offer
  allocate_bound w token other user_identifier budget s h apart =
      elim (Bool-cases (is_nil (normalize b w user_identifier))) [
        | inl empty ↦ rw (empty, handle_allocate_mining_job_token)
        | inr named ↦ go named (resolve_payout_script b w (normalize b w user_identifier)) refl
      ]
    where
      go :
          is_nil (normalize b w user_identifier) ≡ false
          → (o : Option Bytes) → resolve_payout_script b w (normalize b w user_identifier) ≡ o
          → handle_allocate_mining_job_token b w token user_identifier budget s ≡ (s, none)
      go named none e = rw (named, e, handle_allocate_mining_job_token)
      go named (some script) e =
          rw (named, e, handle_allocate_mining_job_token, offer, elsewhere token other _ h apart)
            refl

  -- If an allocation's token is evicted between its two inserts, the user stays bound to a token
  -- that has no script: later evictions of that token do nothing, and every allocation of any other
  -- token to that user gives nothing and does nothing.
  pub allocate_evicted :
      (w : World b) (token : ℕ) (user_identifier : Bytes) (budget : ℕ) (s : Engine) (script : Bytes)
      → ((t : Engine) → Assoc.get token (w.between inserted t).token_payout ≡ none)
      → (handle_allocate_mining_job_token b w token user_identifier budget s).1 ≡ some script
      → (Assoc.get token
            (handle_allocate_mining_job_token b w token user_identifier budget s).0.token_payout
          ≡ none)
        × ((w' : World b)
            → drop_token_payout b w' token
                (handle_allocate_mining_job_token b w token user_identifier budget s).0
              ≡ (handle_allocate_mining_job_token b w token user_identifier budget s).0)
        × ((w' : World b) (token' : ℕ) (same_user : Bytes) (budget' : ℕ)
            → normalize b w' same_user ≡ normalize b w user_identifier
            → token' ≢ token
            → handle_allocate_mining_job_token b w' token' same_user budget'
                (handle_allocate_mining_job_token b w token user_identifier budget s).0
              ≡ ((handle_allocate_mining_job_token b w token user_identifier budget s).0, none))
  allocate_evicted w token user_identifier budget s script evicted h =
      let wrote = allocate-Wrote b w token user_identifier budget s script h in
      let gone = ap (Assoc.get token) wrote.payouts ∙ evicted wrote.first in
      (
        gone,
        λ w'. drop_nothing w' token _ gone,
        λ w' token' same_user budget' same apart.
            allocate_bound w' token' token same_user budget' _
              (ap
                  (λ u.
                    Assoc.get u
                      (handle_allocate_mining_job_token b w token user_identifier budget
                        s).0.user_identifier_index)
                  same
                ∙ wrote.user)
              apart,
      )
