-- ===== src/Browser/Grant/Chains.antt =====
-- What a grant that its `__post_init__` accepts says of the frame chains it allows.
use project_firestarter.Prelude.{
  passes, rest_passes, first_passes, ◌≤◌, String, ◌≡◌, refl, arith, true, false, List, [], ◌∷◌,
  List-Eq, String-Eq, ok, length, all, member, All, All-at, member-In, not,
}
use project_firestarter.Browser.Ids.{require_id, require_ids}
use project_firestarter.Browser.Grant.{
  CapabilityGrant, grant_init, chains_init, chain_items_init, is_empty, out_of_bounds,
}

items_pass :
    (allowed chain : List String)
    → chain_items_init allowed chain ≡ ok tt
    → all (λ o. member o allowed) chain ≡ true
unfolding chain_items_init
items_pass allowed [] h = refl
items_pass allowed (o ∷ os) h =
    let a = rest_passes (require_id o "frame_origin_id") _ h in
    let (b, c) = passes (not (member o allowed)) _ _ a in ground (arith, items_pass allowed os c)

abbrev pub ChainValid : List String → List String → Type 0
ChainValid allowed chain =
    (out_of_bounds chain 8 ≡ false) × (all (λ o. member o allowed) chain ≡ true)

chains_pass :
    (allowed : List String) (chains : List (List String))
    → chains_init allowed chains ≡ ok tt
    → All (ChainValid allowed) chains
unfolding chains_init
chains_pass allowed [] h = tt
chains_pass allowed (c ∷ cs) h =
    let (a, b) = passes (out_of_bounds c 8) _ _ h in
    (
      (
        a,
        items_pass allowed c (first_passes (chain_items_init allowed c) (chains_init allowed cs) b),
      ),
      chains_pass allowed cs (rest_passes (chain_items_init allowed c) (chains_init allowed cs) b),
    )

-- Of a grant that was accepted, an allowed frame chain is not empty, has at most eight origins, and
-- they are all allowed.
pub allowed_chain :
    (g : CapabilityGrant) (chain : List String)
    → grant_init g ≡ ok tt
    → member chain g.allowed_frame_origin_chains ≡ true
    → (is_empty chain ≡ false)
      × (length chain ≤ 8)
      × (all (λ o. member o g.allowed_origin_ids) chain ≡ true)
unfolding grant_init
allowed_chain g chain h m =
    let a = rest_passes (require_id g.grant_id "grant_id") _ h in
    let b = rest_passes (require_id g.task_id "task_id") _ a in
    let c = rest_passes (require_ids g.allowed_origin_ids "allowed_origin_id") _ b in
    let (d, e) = passes (out_of_bounds g.allowed_origin_ids 32) _ _ c in
    let (d', f) = passes (out_of_bounds g.allowed_frame_origin_chains 32) _ _ e in
    let chains =
      chains_pass g.allowed_origin_ids g.allowed_frame_origin_chains
        (first_passes (chains_init g.allowed_origin_ids g.allowed_frame_origin_chains) _ f) in
    let (bounds, inside) =
      All-at (ChainValid g.allowed_origin_ids) chains
        (member-In chain g.allowed_frame_origin_chains m) in
    (ground arith, ground arith, inside)
