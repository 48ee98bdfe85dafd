-- ===== src/Registry/Holding.antt =====
-- What can take a live entry away from its holder.
use project_firestarter.Prelude.{
  ℕ, String, String-Eq, ◌==◌, ◌≡◌, ◌≢◌, sym, ap, subst, ◌∙◌, arith, Bool, true, false, Bool-cases,
  List, [], ◌∷◌, some, Option-cases, inl, inr, ℤ, lookup, lookup-insert, lookup-pop,
}
use project_firestarter.Registry.Commands.{
  Entry, Entries, TimeOps, ClaimClock, blocked, cmd_release, live, cmd_claim, cmd_heartbeat,
}
use project_firestarter.Registry.Claims.{lookup-live, held_now, claim_blocked, claim_free}

-- A command, with the agent that runs it and what it reads of the clock.
pub data Command (F : Type 0) : Type 0 where
  claims : String → String → String → ℤ → Bool → ClaimClock F → Command F
  heartbeats : String → String → ℤ → F → F → Command F
  releases : String → String → Bool → Command F

module _ {F : Type 0} (ops : TimeOps F) where
  unfoldable pub command : Command F → Entries F → ℕ × Entries F
  command (claims me resource intent ttl force clock) entries =
      cmd_claim ops me resource intent ttl force clock entries
  command (heartbeats me resource ttl beat now) entries =
      cmd_heartbeat ops me resource ttl beat now entries
  command (releases me resource force) entries = cmd_release me resource force entries

  unfoldable pub commands : List (Command F) → Entries F → Entries F
  unfolding command
  commands [] entries = entries
  commands (c ∷ cs) entries = commands cs (command c entries).1

  -- Another agent's command, without force, which finds the entry live.
  abbrev pub Bystander : Entry F → Command F → Type 0
  Bystander e (claims me resource intent ttl force clock) =
      (e.owner ≢ me) × (force ≡ false) × (ops.later e.expires_at clock.at_live ≡ true)
  Bystander e (heartbeats me resource ttl beat now) = e.owner ≢ me
  Bystander e (releases me resource force) = (e.owner ≢ me) × (force ≡ false)

  abbrev pub Bystanders : Entry F → List (Command F) → Type 0
  Bystanders e [] = Unit
  Bystanders e (c ∷ cs) = Bystander e c × Bystanders e cs

  kept :
      (resource : String) (e : Entry F) {x y : ℕ × Entries F}
      → x ≡ y
      → lookup y.1 resource ≡ some e
      → lookup x.1 resource ≡ some e
  kept resource e p h = subst (λ r. lookup r.1 resource ≡ some e) (sym p) h

  claim_keeps :
      (resource : String) (e : Entry F) (me r intent : String) (ttl : ℤ) (force : Bool)
      (clock : ClaimClock F) (entries : Entries F)
      → lookup entries resource ≡ some e
      → e.owner ≢ me
      → force ≡ false
      → ops.later e.expires_at clock.at_live ≡ true
      → lookup (cmd_claim ops me r intent ttl force clock entries).1 resource ≡ some e
  unfolding blocked
  claim_keeps resource e me r intent ttl force clock entries h o f l =
      elim (Bool-cases (blocked me force (held_now ops me r intent ttl force clock entries))) [
        | inl b ↦ kept resource e (claim_blocked ops me r intent ttl force clock entries b) h
        | inr b ↦
            let mine = lookup-live ops entries resource clock.at_live {e = e} h l in
            kept resource e (claim_free ops me r intent ttl force clock entries b) (
              lookup-insert (live ops entries clock.at_live) r resource _
              ∙ (elim (Bool-cases (r == resource)) [
                | inl same ↦
                    let r_is : r ≡ resource = (String-Eq.agrees r resource).0 same in
                    let found : lookup (live ops entries clock.at_live) r ≡ some e =
                      subst (λ k. lookup (live ops entries clock.at_live) k ≡ some e) (sym r_is)
                        mine in
                    let b' : blocked me force (some e) ≡ false =
                      subst (λ x. blocked me force x ≡ false) found b in
                    absurd (ground (arith, String-Eq.agrees e.owner me))
                | inr other ↦ rw other mine
              ]))
      ]

  heartbeat_keeps :
      (resource : String) (e : Entry F) (me r : String) (ttl : ℤ) (beat now : F)
      (entries : Entries F)
      → lookup entries resource ≡ some e
      → e.owner ≢ me
      → lookup (cmd_heartbeat ops me r ttl beat now entries).1 resource ≡ some e
  unfolding cmd_heartbeat
  heartbeat_keeps resource e me r ttl beat now entries h o =
      elim (Option-cases (lookup entries r)) [
        | inl n ↦ rw (n, cmd_heartbeat) h
        | inr (x, n) ↦ elim (Bool-cases (x.owner == me)) [
          | inr other ↦ rw (n, other, cmd_heartbeat) h
          | inl mine ↦
              rw (n, mine, cmd_heartbeat)
                (lookup-insert entries r resource _ ∙ (elim (Bool-cases (r == resource)) [
                  | inl same ↦
                      let r_is : r ≡ resource = (String-Eq.agrees r resource).0 same in
                      let x_is : some x ≡ some e = sym n ∙ ap (lookup entries) r_is ∙ h in
                      absurd (ground (arith, String-Eq.agrees x.owner me))
                  | inr other ↦ rw other h
                ]))
        ]
      ]

  release_keeps :
      (resource : String) (e : Entry F) (me r : String) (force : Bool) (entries : Entries F)
      → lookup entries resource ≡ some e
      → e.owner ≢ me
      → force ≡ false
      → lookup (cmd_release me r force entries).1 resource ≡ some e
  unfolding cmd_release
  release_keeps resource e me r force entries h o f = elim (Option-cases (lookup entries r)) [
    | inl n ↦ rw (n, cmd_release) h
    | inr (x, n) ↦ elim (Bool-cases (x.owner == me)) [
      | inr other ↦ rw (n, other, f, cmd_release) h
      | inl mine ↦
          rw (n, mine, cmd_release)
            (lookup-pop entries r resource ∙ (elim (Bool-cases (r == resource)) [
              | inl same ↦
                  let r_is : r ≡ resource = (String-Eq.agrees r resource).0 same in
                  let x_is : some x ≡ some e = sym n ∙ ap (lookup entries) r_is ∙ h in
                  absurd (ground (arith, String-Eq.agrees x.owner me))
              | inr other ↦ rw other h
            ]))
    ]
  ]

  command_keeps :
      (resource : String) (e : Entry F) (c : Command F) (entries : Entries F)
      → lookup entries resource ≡ some e
      → Bystander e c
      → lookup (command c entries).1 resource ≡ some e
  unfolding command
  command_keeps resource e (claims me r intent ttl force clock) entries h (o, f, l) =
      claim_keeps resource e me r intent ttl force clock entries h o f l
  command_keeps resource e (heartbeats me r ttl beat now) entries h o =
      heartbeat_keeps resource e me r ttl beat now entries h o
  command_keeps resource e (releases me r force) entries h (o, f) =
      release_keeps resource e me r force entries h o f

  -- A live entry stays as it is through any sequence of commands of other agents without force that
  -- claim before it expires.
  pub holder_keeps :
      (resource : String) (e : Entry F) (cs : List (Command F)) (entries : Entries F)
      → lookup entries resource ≡ some e
      → Bystanders e cs
      → lookup (commands cs entries) resource ≡ some e
  unfolding commands
  holder_keeps resource e [] entries h b = h
  holder_keeps resource e (c ∷ cs) entries h (b, bs) =
      holder_keeps resource e cs (command c entries).1 (command_keeps resource e c entries h b) bs
