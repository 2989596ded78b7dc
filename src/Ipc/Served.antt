-- ===== src/Ipc/Served.antt =====
-- The client in front of a daemon that follows the schema: each call gives back the daemon's answer.
use sv2_p2pool.Prelude.{
  ℕ, ◌^◌, ◌<◌, ◌≡◌, refl, Bool, true, false, Bytes, List, [], ◌∷◌, Option, none, some, length, map,
  all_zero,
}
use sv2_p2pool.Prelude.Flow.{Flow, next, traverse}
use sv2_p2pool.Bitcoin.{Hash, Network}
use sv2_p2pool.Bitcoin
use sv2_p2pool.Ipc.Wire
use sv2_p2pool.Ipc.Requests.{IsLawful, build_list-items}
use sv2_p2pool.Ipc.Wire.{
  Lists, ChainTipWhich, ShareHeaderWhich, TipHeightWhich, NetworkWhich, ValidationWhich,
  ValidateTemplateParams, ShareChain,
}
use sv2_p2pool.Ipc.{
  IpcClientError, ChainTipResult, tip, tip_uninitialised, TipHeightResult, height,
  height_uninitialised, ShareHeaderLookup, found, not_found, genesis, ValidationOutcome, ok,
  stale_chain_tip, invalid_coinbase, missing_transactions, lift, validate_template, submit_solution,
  get_chain_tip, get_share_header, get_tip_height, get_network, received, decode_block_hash,
  decode_validation_result, text_to_string, some_unless_zeros, network_of, tip_height, chain_tip,
  share_header,
}

-- What a daemon knows and decides. A missing tip or height is a daemon without a genesis.
pub record Daemon : Type 0 where
  pub tip : Option Hash
  pub height : Option ℕ
  pub prev_share_blockhash : Hash → Option Hash
  pub network : Network
  pub validate : (prefix suffix : Bytes) (wtxids txs : List Bytes) → ValidationOutcome
  pub accepts : (raw_block share_hash : Bytes) → Bool

-- The schema's encodings.
abbrev pub encode_outcome : ValidationOutcome → ValidationWhich
encode_outcome ok = Wire.ok
encode_outcome stale_chain_tip = Wire.stale_chain_tip
encode_outcome (invalid_coinbase reason) = Wire.invalid_coinbase (next (next reason))
encode_outcome (missing_transactions wtxids) = Wire.missing_transactions (next (map next wtxids))

abbrev pub encode_tip : Option Hash → ChainTipWhich
encode_tip none = Wire.tip_uninitialised
encode_tip (some h) = Wire.tip (next h)

abbrev pub encode_height : Option ℕ → TipHeightWhich
encode_height none = Wire.height_uninitialised
encode_height (some h) = Wire.height h

abbrev pub encode_header : (zeros : Bool) → Option Hash → ShareHeaderWhich
encode_header true prev = Wire.genesis
encode_header false none = Wire.not_found
encode_header false (some prev) = Wire.found (next (next prev))

abbrev pub encode_network : Network → NetworkWhich
encode_network Bitcoin.mainnet = Wire.mainnet
encode_network Bitcoin.testnet = Wire.testnet
encode_network Bitcoin.testnet4 = Wire.testnet4
encode_network Bitcoin.regtest = Wire.regtest
encode_network Bitcoin.signet = Wire.signet

-- An answer that arrived whole.
abbrev pub arrived {ℓ} : {A : Type ℓ} → A → Wire.Reply (Flow ℕ A)
arrived a = next (next (next (next a)))

pub record Serves {lists : Lists} (client : ShareChain lists) (daemon : Daemon) : Type 0 where
  pub validates :
      (p : ValidateTemplateParams lists)
      → client.validate_template p
        ≡ arrived (
            encode_outcome (
              daemon.validate p.coinbase_prefix p.coinbase_suffix
                (lists.items p.wtxid_list)
                (lists.items p.missing_txs)))
  pub submits :
      (raw_block share_hash : Bytes)
      → client.submit_solution (record { raw_block = raw_block; share_hash = share_hash })
        ≡ next (next (daemon.accepts raw_block share_hash))
  pub tells_tip : client.get_chain_tip ≡ arrived (encode_tip daemon.tip)
  pub tells_height : client.get_tip_height ≡ arrived (encode_height daemon.height)
  pub tells_header :
      (h : Hash)
      → client.get_share_header h
        ≡ arrived (encode_header (all_zero h) (daemon.prev_share_blockhash h))
  pub tells_network : client.get_network ≡ arrived (encode_network daemon.network)

-- Hashes are 32 bytes.
pub record HasHashes (daemon : Daemon) : Type 0 where
  pub tip_length : (h : Hash) → daemon.tip ≡ some h → length h ≡ 32
  pub prev_length : (h prev : Hash) → daemon.prev_share_blockhash h ≡ some prev → length prev ≡ 32

-- What the client should make of a daemon's knowledge.
abbrev pub tip_of : Option Hash → ChainTipResult
tip_of none = tip_uninitialised
tip_of (some h) = tip h

abbrev pub height_of : Option ℕ → TipHeightResult
height_of none = height_uninitialised
height_of (some h) = height h

abbrev pub lookup_with : (zeros : Bool) → Option Hash → ShareHeaderLookup
lookup_with true prev = genesis
lookup_with false none = not_found
lookup_with false (some prev) = found (some_unless_zeros prev)

abbrev pub lookup_of : Daemon → Hash → ShareHeaderLookup
lookup_of daemon h = lookup_with (all_zero h) (daemon.prev_share_blockhash h)

decode_block_hash-hash : (h : Hash) → length h ≡ 32 → decode_block_hash h ≡ next h
unfolding decode_block_hash
decode_block_hash-hash h e = rw e refl

traverse-lift : (xs : List Bytes) → traverse {R = IpcClientError} lift (map next xs) ≡ next xs
unfolding traverse
traverse-lift [] = refl
traverse-lift (x ∷ xs) = rw (traverse-lift xs) refl

decode-encode :
    (o : ValidationOutcome) → decode_validation_result (next (encode_outcome o)) ≡ next o
unfolding decode_validation_result text_to_string
decode-encode ok = refl
decode-encode stale_chain_tip = refl
decode-encode (invalid_coinbase reason) = refl
decode-encode (missing_transactions wtxids) = rw (traverse-lift wtxids) refl

module _ {lists : Lists} {client : ShareChain lists} {daemon : Daemon}
    (serves : Serves client daemon) where
  -- In front of a daemon that follows the schema, `validate_template` hands over the coinbase's
  -- two parts and both lists unchanged, and returns exactly what the daemon decided, its texts and
  -- lists included, where both lists have fewer than `2 ^ 29` items.
  pub validate_template-validate :
      IsLawful lists
      → (prefix suffix : Bytes) (wtxids txs : List Bytes) → length wtxids < 2 ^ 29
      → length txs < 2 ^ 29
      → validate_template client prefix suffix wtxids txs
        ≡ next (daemon.validate prefix suffix wtxids txs)
  unfolding validate_template received
  validate_template-validate lawful prefix suffix wtxids txs few few' =
      let (b, built, items) = build_list-items lawful wtxids few in
      let (b', built', items') = build_list-items lawful txs few' in
      rw (built, built', serves.validates _, items, items') (decode-encode _)

  -- `submit_solution` returns the daemon's verdict on the very block and share.
  pub submit_solution-accepts :
      (raw_block share_hash : Bytes)
      → submit_solution client raw_block share_hash ≡ next (daemon.accepts raw_block share_hash)
  unfolding submit_solution
  submit_solution-accepts raw_block share_hash = rw (serves.submits raw_block share_hash) refl

  pub get_network-network : get_network client ≡ next daemon.network
  unfolding get_network received
  get_network-network = rw serves.tells_network (go daemon.network)
    where
      go : (n : Network) → network_of (encode_network n) ≡ next n
      go Bitcoin.mainnet = refl
      go Bitcoin.testnet = refl
      go Bitcoin.testnet4 = refl
      go Bitcoin.regtest = refl
      go Bitcoin.signet = refl

  pub get_tip_height-height : get_tip_height client ≡ next (height_of daemon.height)
  unfolding get_tip_height received
  get_tip_height-height = rw serves.tells_height (go daemon.height)
    where
      go : (o : Option ℕ) → tip_height (encode_height o) ≡ next (height_of o)
      go none = refl
      go (some h) = refl

  module _ (hashes : HasHashes daemon) where
    pub get_chain_tip-tip : get_chain_tip client ≡ next (tip_of daemon.tip)
    unfolding get_chain_tip received
    get_chain_tip-tip = rw serves.tells_tip (go daemon.tip refl)
      where
        go : (o : Option Hash) → daemon.tip ≡ o → chain_tip (encode_tip o) ≡ next (tip_of o)
        go none e = refl
        go (some h) e = rw (decode_block_hash-hash h (hashes.tip_length h e)) refl

    pub get_share_header-lookup : (h : Hash) → get_share_header client h ≡ next (lookup_of daemon h)
    unfolding get_share_header received
    get_share_header-lookup h =
        rw (serves.tells_header h) (go (all_zero h) (daemon.prev_share_blockhash h) refl)
      where
        go :
            (zeros : Bool) (o : Option Hash)
            → daemon.prev_share_blockhash h ≡ o
            → share_header (encode_header zeros o) ≡ next (lookup_with zeros o)
        go true o e = refl
        go false none e = refl
        go false (some prev) e = rw (decode_block_hash-hash prev (hashes.prev_length h prev e)) refl
