-- ===== src/Registry/Tests.antt =====
-- Runs of the commands with whole seconds for the clock, and the theorems applied to them.
use project_firestarter.Prelude.{
  ℕ, ◌+◌, ltb, String, String-Eq, ◌==◌, ◌≡◌, ◌≢◌, ◌⊎◌, refl, arith, false, List, [], ◌∷◌, some, pos,
  pos_part, lookup, insert, if◌then◌else◌,
}
use project_firestarter.Registry.Commands.{
  Entry, Entries, TimeOps, ClaimClock, cmd_claim, cmd_check, live, claim_entry, blocked, acquired,
}
use project_firestarter.Registry.Claims.{MayClaim, claim_outcome, check-claim, held_now}
use project_firestarter.Registry.Holding.{
  Command, claims, heartbeats, releases, commands, holder_keeps,
}

abbrev build_dir : String
build_dir = "build/"

abbrev docs_dir : String
docs_dir = "docs/"

abbrev ann : String
ann = "ann"

abbrev bob : String
bob = "bob"

abbrev whole_seconds : TimeOps ℕ
whole_seconds = record { later = λ a b. ltb b a; plus = λ a n. a + pos_part n }

abbrev at_ten : ClaimClock ℕ
at_ten = record { at_live = 10; at_acquire = 11; at_heartbeat = 12; at_expiry = 13 }

abbrev building : Entry ℕ
building = record {
  owner = "ann";
  intent = "build";
  acquired_at = 1;
  heartbeat_at = 1;
  expires_at = 100;
}

abbrev board : Entries ℕ
board = ("build/", building) ∷ []

claim_outcome_example :
    ((held : Entry ℕ) × (held_now whole_seconds "bob" "build/" "clean" (pos 60) false at_ten board
        ≡ some held)
      × (held.owner ≢ "bob")
      × (false ≡ false)
      × (cmd_claim whole_seconds "bob" "build/" "clean" (pos 60) false at_ten board ≡ (1, board)))
    ⊎ ((left : Entries ℕ) × MayClaim "bob" false
          (held_now whole_seconds "bob" "build/" "clean" (pos 60) false at_ten board)
        × (cmd_claim whole_seconds "bob" "build/" "clean" (pos 60) false at_ten board ≡ (0, left))
        × (lookup left "docs/" ≡ (
            if build_dir == docs_dir
            then some (
                claim_entry whole_seconds "bob" "clean"
                  (pos 60)
                  at_ten
                  (held_now whole_seconds "bob" "build/" "clean" (pos 60) false at_ten board))
            else lookup (live whole_seconds board 10) "docs/")))
claim_outcome_example =
    claim_outcome whole_seconds "bob" "build/" "clean" (pos 60) false at_ten board "docs/"

taken : (cmd_claim whole_seconds "ann" "build/" "build" (pos 60) false at_ten board).0 ≡ 0
unfolding cmd_claim live lookup blocked acquired insert
taken = refl

check-claim_example :
    cmd_check whole_seconds "bob" "build/" 70
      (cmd_claim whole_seconds "ann" "build/" "build" (pos 60) false at_ten board).1
    ≡ (if ann == bob then 0 else 1)
check-claim_example =
    check-claim whole_seconds "ann" "build/" "build" (pos 60) false at_ten board "bob" 70 taken refl

abbrev others : List (Command ℕ)
others =
    claims "bob" "build/" "clean" (pos 60) false at_ten
    ∷ heartbeats "bob" "build/" (pos 60) 20 20
    ∷ releases "bob" "build/" false
    ∷ claims "bob" "docs/" "write" (pos 60) false at_ten
    ∷ []

not_bob : building.owner ≢ "bob"
not_bob p = ground (arith, String-Eq.agrees "ann" "bob")

on_board : lookup board "build/" ≡ some building
unfolding lookup
on_board = refl

holder_keeps_example : lookup (commands whole_seconds others board) "build/" ≡ some building
holder_keeps_example =
    holder_keeps whole_seconds "build/" building others board on_board
      ((not_bob, refl, refl), (not_bob, ((not_bob, refl), ((not_bob, refl, refl), tt))))
