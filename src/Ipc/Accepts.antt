-- ===== src/Ipc/Accepts.antt =====
-- The client in front of any daemon, a faulty or newer one included: what it accepts.
use sv2_p2pool.Prelude.{ℕ, ◌≡◌, refl, ap, ◌∙◌, ◌↔◌, arith, false, Bytes, some, length, all_zero}
use sv2_p2pool.Prelude.Flow.{Flow, next, exit, panic, ◌>>=◌, >>=-eq-next, map_exit-eq-next}
use sv2_p2pool.Bitcoin.{Hash}
use sv2_p2pool.Ipc.Wire
use sv2_p2pool.Ipc.Wire.{Lists, Reply, ChainTipWhich, ShareHeaderWhich, ShareChain}
use sv2_p2pool.Ipc.{
  IpcClientError, tip, found, in_schema, received, decode_block_hash, some_unless_zeros, chain_tip,
  share_header, get_chain_tip, get_share_header,
}
use sv2_p2pool.Ipc.Served.{arrived}

received-eq-next {ℓ} :
    {A : Type ℓ} (r : Reply A) (a : A) → received r ≡ next a → r ≡ next (next (next a))
unfolding received
received-eq-next (next (next (next x))) a h = cc
received-eq-next r a h = cc

in_schema-eq-next {ℓ} : {A : Type ℓ} (r : Flow ℕ A) (a : A) → in_schema r ≡ next a → r ≡ next a
in_schema-eq-next r a h = map_exit-eq-next _ r a h

decode_block_hash-eq-next :
    (bytes h : Bytes) → decode_block_hash bytes ≡ next h → (bytes ≡ h) × (length h ≡ 32)
unfolding decode_block_hash
decode_block_hash-eq-next bytes h e = ground arith

decode_block_hash_hash : (h : Hash) → length h ≡ 32 → decode_block_hash h ≡ next h
unfolding decode_block_hash
decode_block_hash_hash h e = rw e refl

-- A call that returned a variant: what arrived is that variant.
arrived_of {ℓ κ} :
    {A : Type ℓ} {B : Type κ} (reply : Reply (Flow ℕ A)) (decode : A → Flow IpcClientError B)
    (b : B)
    → (do result ← received reply; result ← in_schema result; decode result) ≡ next b
    → (a : A) × (reply ≡ arrived a) × (decode a ≡ next b)
arrived_of reply decode b h =
    let (r, e, h1) = >>=-eq-next (received reply) _ b h in
    let (a, e', h2) = >>=-eq-next (in_schema r) _ b h1 in
    (a, received-eq-next reply r e ∙ ap (λ x. next (next (next x))) (in_schema-eq-next r a e'), h2)

tip_of_which :
    (w : ChainTipWhich) (h : Hash)
    → chain_tip w ≡ next (tip h)
    → (w ≡ Wire.tip (next h)) × (length h ≡ 32)
tip_of_which (Wire.tip (next bytes)) h e =
    let (hash, decoded, same) = >>=-eq-next (decode_block_hash bytes) _ (tip h) e in
    let (bytes_hash, long) = decode_block_hash-eq-next bytes hash decoded in
    ground (arith, bytes_hash, long, same)
tip_of_which (Wire.tip (exit x)) h e = cc
tip_of_which (Wire.tip panic) h e = cc
tip_of_which Wire.tip_uninitialised h e = cc

prev_of_which :
    (w : ShareHeaderWhich) (prev : Hash)
    → share_header w ≡ next (found (some prev))
    → (w ≡ Wire.found (next (next prev))) × (length prev ≡ 32) × (all_zero prev ≡ false)
unfolding some_unless_zeros
prev_of_which (Wire.found (next (next bytes))) prev e =
    let (hash, decoded, same) = >>=-eq-next (decode_block_hash bytes) _ (found (some prev)) e in
    let (bytes_hash, long) = decode_block_hash-eq-next bytes hash decoded in
    ground (arith, bytes_hash, long, same)
prev_of_which (Wire.found (next (exit x))) prev e = cc
prev_of_which (Wire.found (next panic)) prev e = cc
prev_of_which (Wire.found (exit x)) prev e = cc
prev_of_which (Wire.found panic) prev e = cc
prev_of_which Wire.not_found prev e = cc
prev_of_which Wire.genesis prev e = cc

module _ {lists : Lists} (client : ShareChain lists) where
  -- The client reports a tip exactly when the daemon sent that tip, whole and as 32 bytes.
  pub get_chain_tip_iff :
      (h : Hash)
      → (get_chain_tip client ≡ next (tip h))
        ↔ ((client.get_chain_tip ≡ arrived (Wire.tip (next h))) × (length h ≡ 32))
  unfolding get_chain_tip received
  get_chain_tip_iff h = (
    λ e.
        let (w, whole, decoded) = arrived_of client.get_chain_tip chain_tip (tip h) e in
        let (sent, long) = tip_of_which w h decoded in (whole ∙ ap arrived sent, long),
    λ e. rw (e.0, decode_block_hash_hash h e.1) refl,
  )

  -- The client reports a previous share exactly when the daemon sent that hash for the header that
  -- was asked for, whole, as 32 bytes that are not all zeros.
  pub get_share_header_iff :
      (h prev : Hash)
      → (get_share_header client h ≡ next (found (some prev))) ↔ (
          (client.get_share_header h ≡ arrived (Wire.found (next (next prev))))
          × (length prev ≡ 32)
          × (all_zero prev ≡ false))
  unfolding get_share_header received some_unless_zeros
  get_share_header_iff h prev = (
    λ e.
        let (w, whole, decoded) =
          arrived_of (client.get_share_header h) share_header (found (some prev)) e in
        let (sent, long, nonzero) = prev_of_which w prev decoded in
        (whole ∙ ap arrived sent, long, nonzero),
    λ e. rw (e.0, decode_block_hash_hash prev e.1, e.2) refl,
  )
