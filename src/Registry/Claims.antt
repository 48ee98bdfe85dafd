-- ===== src/Registry/Claims.antt =====
-- `cmd_claim` and `cmd_check`: what a claim answers and leaves, and what it means to the others.
use project_firestarter.Prelude.{
  String, String-Eq, ◌==◌, ◌≡◌, ◌≢◌, refl, arith, Bool, true, false, Bool-cases, [], ◌∷◌, Option,
  none, some, Option-cases, inl, inr, ◌⊎◌, ℤ, lookup, insert, lookup-insert, lookup-insert_self,
  if◌then◌else◌,
}
use project_firestarter.Registry.Commands.{
  Entry, Entries, TimeOps, ClaimClock, blocked, check_code, live, claim_entry, cmd_claim, cmd_check,
}

-- Nobody holds the resource, or the claimant does, or the claim is by force.
abbrev pub MayClaim : {F : Type 0} → String → Bool → Option (Entry F) → Type 0
MayClaim {F = F} me force found =
    (found ≡ none) ⊎ ((held : Entry F) × (found ≡ some held) × ((held.owner ≡ me) ⊎ (force ≡ true)))

unblocked :
    {F : Type 0} (me : String) (force : Bool) (held : Entry F)
    → blocked me force (some held) ≡ false
    → (held.owner ≡ me) ⊎ (force ≡ true)
unfolding blocked
unblocked me force held b = ground (arith, String-Eq.agrees held.owner me)

module _ {F : Type 0} (ops : TimeOps F) where
  -- An entry that has not expired is live.
  pub lookup-live :
      (entries : Entries F) (resource : String) (now : F) {e : Entry F}
      → lookup entries resource ≡ some e
      → ops.later e.expires_at now ≡ true
      → lookup (live ops entries now) resource ≡ some e
  unfolding lookup live
  lookup-live [] resource now h l = cc
  lookup-live ((k, v) ∷ entries) resource now {e} h l = elim (Bool-cases (k == resource)) [
    | inl same ↦
        let here : v ≡ e = ground arith in
        let kept : ops.later v.expires_at now ≡ true = rw here l in rw (kept, same, here) refl
    | inr other ↦
        let there = lookup-live entries resource now {e = e} (rw other at h) l in
        elim (Bool-cases (ops.later v.expires_at now)) [
          | inl kept ↦ rw (kept, other) there
          | inr dropped ↦ rw dropped there
        ]
  ]

  module _ (me resource intent : String) (ttl : ℤ) (force : Bool) (clock : ClaimClock F)
      (entries : Entries F) where
    abbrev pub held_now : Option (Entry F)
    held_now = lookup (live ops entries clock.at_live) resource

    abbrev pub after_claim : Entries F
    after_claim =
        insert (live ops entries clock.at_live) resource
          (claim_entry ops me intent ttl clock held_now)

    pub claim_blocked :
        blocked me force held_now ≡ true
        → cmd_claim ops me resource intent ttl force clock entries ≡ (1, entries)
    unfolding cmd_claim
    claim_blocked b = rw b refl

    pub claim_free :
        blocked me force held_now ≡ false
        → cmd_claim ops me resource intent ttl force clock entries ≡ (0, after_claim)
    unfolding cmd_claim
    claim_free b = rw b refl

  -- A claim is refused, and the entries stay as they are, with another agent holding the resource and
  -- no force; or it succeeds, with the resource free, held by the claimant or taken by force, and of
  -- the entries left the resource's is the claim and any other is what was live.
  pub claim_outcome :
      (me resource intent : String) (ttl : ℤ) (force : Bool) (clock : ClaimClock F)
      (entries : Entries F) (other : String)
      → ((held : Entry F) × (held_now me resource intent ttl force clock entries ≡ some held)
          × (held.owner ≢ me)
          × (force ≡ false)
          × (cmd_claim ops me resource intent ttl force clock entries ≡ (1, entries)))
        ⊎ ((left : Entries F) × MayClaim me force
              (held_now me resource intent ttl force clock entries)
            × (cmd_claim ops me resource intent ttl force clock entries ≡ (0, left))
            × (lookup left other ≡ (
                if resource == other
                then some (
                    claim_entry ops me intent ttl clock
                      (held_now me resource intent ttl force clock entries))
                else lookup (live ops entries clock.at_live) other)))
  unfolding blocked
  claim_outcome me resource intent ttl force clock entries other =
      elim (Option-cases (held_now me resource intent ttl force clock entries)) [
        | inl e ↦ inr (free (rw (e, blocked) refl) (inl e))
        | inr (held, e) ↦ elim (Bool-cases (blocked me force (some held))) [
          | inl b ↦ inl (
            held,
            e,
            (λ p. ground (arith, String-Eq.agrees held.owner me)),
            ground arith,
            claim_blocked me resource intent ttl force clock entries (rw (e, b) refl),
          )
          | inr b ↦ inr (free (rw (e, b) refl) (inr (held, e, unblocked me force held b)))
        ]
      ]
    where
      current : Entries F
      current = live ops entries clock.at_live

      free :
          blocked me force (held_now me resource intent ttl force clock entries) ≡ false
          → MayClaim me force (held_now me resource intent ttl force clock entries)
          → (left : Entries F) × MayClaim me force
              (held_now me resource intent ttl force clock entries)
            × (cmd_claim ops me resource intent ttl force clock entries ≡ (0, left))
            × (lookup left other ≡ (
                if resource == other
                then some (
                    claim_entry ops me intent ttl clock
                      (held_now me resource intent ttl force clock entries))
                else lookup current other))
      free b may = (
        after_claim me resource intent ttl force clock entries,
        may,
        claim_free me resource intent ttl force clock entries b,
        lookup-insert current resource other _,
      )

  -- Until a claim that succeeded expires, a check succeeds for its agent and fails for any other.
  pub check-claim :
      (me resource intent : String) (ttl : ℤ) (force : Bool) (clock : ClaimClock F)
      (entries : Entries F) (agent : String) (now : F)
      → (cmd_claim ops me resource intent ttl force clock entries).0 ≡ 0
      → ops.later (ops.plus clock.at_expiry ttl) now ≡ true
      → cmd_check ops agent resource now
          (cmd_claim ops me resource intent ttl force clock entries).1
        ≡ (if me == agent then 0 else 1)
  unfolding cmd_check check_code
  check-claim me resource intent ttl force clock entries agent now h l =
      elim (Bool-cases (blocked me force (held_now me resource intent ttl force clock entries))) [
        | inl b ↦
            absurd (ground (arith, claim_blocked me resource intent ttl force clock entries b))
        | inr b ↦
            let taken = claim_free me resource intent ttl force clock entries b in
            let claim =
              claim_entry ops me intent ttl clock
                (held_now me resource intent ttl force clock entries) in
            let found =
              lookup-live (after_claim me resource intent ttl force clock entries) resource now
                {e = claim} (lookup-insert_self (live ops entries clock.at_live) resource claim)
                l in
            rw (taken, found, cmd_check, check_code) refl
      ]
