-- ===== src/Capacity/Scheduler/Lanes.antt =====
-- What a schedule selects and what it defers.
use project_firestarter.Prelude.{
  count, ℕ, suc, ◌+◌, ◌-◌, ◌≤◌, ℤ, pos, pos_part, leb_ℤ, String, String-Eq, ◌≡◌, refl, sym, ap,
  subst, ◌∙◌, arith, true, false, not, In, here, there, All, ◌&&◌, Bool-cases, inl, inr, List, [],
  ◌∷◌, map, length, leb, member, Result, ok, err, ◌>>=◌, refuse_if, if◌then◌else◌,
}
use project_firestarter.Browser.Json.{Json}
use project_firestarter.Capacity.Scheduler.Ranking.{ids, count-ordered, In-ordered}
use project_firestarter.Capacity.Scheduler.{
  Profile, Candidate, Deferred, Schedule, profile, heavy_groups, ordered, fill, schedule,
}

-- A bind that succeeded, taken apart.
bind_ok :
    {A B : Type 0} (w : Result A) (next : A → Result B) {b : B}
    → (w >>= next) ≡ ok b
    → (a : A) × (w ≡ ok a) × (next a ≡ ok b)
bind_ok (ok a) next h = (a, refl, h)
bind_ok (err e) next h = cc

module _ {F : Type 0} where
  -- Heavy candidates in groups that are free: not in use before, nor by an earlier one.
  pub data Apart : List String → List (Candidate F) → Type 0 where
    none_left : {groups : List String} → Apart groups []
    light :
        {groups : List String} {c : Candidate F} {cs : List (Candidate F)} (p : Profile)
        → profile c.resource_profile ≡ ok p
        → p.heavy ≡ false
        → Apart groups cs
        → Apart groups (c ∷ cs)
    heavy :
        {groups : List String} {c : Candidate F} {cs : List (Candidate F)} (p : Profile)
        → profile c.resource_profile ≡ ok p
        → p.heavy ≡ true
        → member p.group groups ≡ false
        → Apart (p.group ∷ groups) cs
        → Apart groups (c ∷ cs)

  -- Each candidate goes to one of two lists, which keep the order.
  pub data Split : List (Candidate F) → List (Candidate F) → List (Candidate F) → Type 0 where
    done : Split [] [] []
    picks :
        {c : Candidate F} {cs ps ws : List (Candidate F)}
        → Split cs ps ws
        → Split (c ∷ cs) (c ∷ ps) ws
    waits :
        {c : Candidate F} {cs ps ws : List (Candidate F)}
        → Split cs ps ws
        → Split (c ∷ cs) ps (c ∷ ws)

  -- What the loop gives.
  record Filled (deficit n : ℕ) (groups : List String) (cs : List (Candidate F))
      (out : List String × List Deferred) : Type 0 where
    room : n ≤ deficit → n + length out.0 ≤ deficit
    whole : (i : String) → count i out.0 + count i (map (λ d. d.0) out.1) ≡ count i (ids cs)
    chosen :
        (picked : List (Candidate F)) × (waiting : List (Candidate F)) × Split cs picked waiting
        × (ids picked ≡ out.0)
        × (ids waiting ≡ map (λ d. d.0) out.1)
        × Apart groups picked

  defers :
      (deficit n : ℕ) (groups : List String) (c : Candidate F) (cs : List (Candidate F))
      (reason : String) (rest out : List String × List Deferred)
      → Filled deficit n groups cs rest
      → ok (rest.0, (c.candidate_id, reason) ∷ rest.1) ≡ ok out
      → Filled deficit n groups (c ∷ cs) out
  defers deficit n groups c cs reason rest out f h =
      let (picked, waiting, split, same, late, apart) = f.chosen in
      subst (Filled deficit n groups (c ∷ cs)) {x = (rest.0, (c.candidate_id, reason) ∷ rest.1)}
        (cc h)
        (record {
          room = f.room;
          whole = λ i. ground (arith, f.whole i);
          chosen =
              (picked, c ∷ waiting, waits split, same, ap (λ l. c.candidate_id ∷ l) late, apart);
        })

  selects :
      (deficit n : ℕ) (groups : List String) (c : Candidate F) (cs : List (Candidate F))
      (p : Profile) (rest out : List String × List Deferred)
      → profile c.resource_profile ≡ ok p
      → leb deficit n ≡ false
      → (p.heavy && member p.group groups) ≡ false
      → Filled deficit (suc n) (if p.heavy then p.group ∷ groups else groups) cs rest
      → ok (c.candidate_id ∷ rest.0, rest.1) ≡ ok out
      → Filled deficit n groups (c ∷ cs) out
  selects deficit n groups c cs p rest out e room free f h =
      let (picked, waiting, split, same, late, apart) = f.chosen in
      subst (Filled deficit n groups (c ∷ cs)) {x = (c.candidate_id ∷ rest.0, rest.1)} (cc h)
        (record {
          room = λ k. ground (arith, f.room, room);
          whole = λ i. ground (arith, f.whole i);
          chosen = (
            c ∷ picked,
            waiting,
            picks split,
            ap (λ l. c.candidate_id ∷ l) same,
            late,
            elim (Bool-cases p.heavy) [
              | inl y ↦
                  heavy p e y (ground (arith, y, free))
                    (subst (λ b. Apart (if b then p.group ∷ groups else groups) picked) y apart)
              | inr n ↦
                  light p e n
                    (subst (λ b. Apart (if b then p.group ∷ groups else groups) picked) n apart)
            ],
          );
        })

  fill-Filled :
      (deficit n : ℕ) (groups : List String) (cs : List (Candidate F))
      (out : List String × List Deferred)
      → fill deficit n groups cs ≡ ok out
      → Filled deficit n groups cs out
  unfolding fill
  fill-Filled deficit n groups [] out h =
      subst (Filled deficit n groups []) {x = ([], [])} (cc h) (record {
        room = λ k. omega (arith, k);
        whole = λ i. refl;
        chosen = ([], [], done, refl, refl, none_left);
      })
  fill-Filled deficit n groups (c ∷ cs) out h =
      let (p, e, g) = bind_ok (profile c.resource_profile) _ h in
      elim (Bool-cases (leb deficit n)) [
        | inl full ↦
            let (rest, a, b) = bind_ok (fill deficit n groups cs) _ (rw full at g) in
            defers deficit n groups c cs "LOGICAL_CAPACITY_FULL" rest out
              (fill-Filled deficit n groups cs rest a) b
        | inr room ↦ elim (Bool-cases (p.heavy && member p.group groups)) [
          | inl busy ↦
              let (rest, a, b) = bind_ok (fill deficit n groups cs) _ (rw (room, busy) at g) in
              defers deficit n groups c cs "HEAVY_CONTENTION_SERIALIZED" rest out
                (fill-Filled deficit n groups cs rest a) b
          | inr free ↦
              let now = if p.heavy then p.group ∷ groups else groups in
              let (rest, a, b) = bind_ok (fill deficit (suc n) now cs) _ (rw (room, free) at g) in
              selects deficit n groups c cs p rest out e room free
                (fill-Filled deficit (suc n) now cs rest a) b
        ]
      ]

  -- Both lists of a split hold its candidates only.
  split-In :
      {cs ps ws : List (Candidate F)} {P : Candidate F → Type 0}
      → ((c : Candidate F) → In c cs → P c)
      → Split cs ps ws
      → All P ps × All P ws
  split-In f done = (tt, tt)
  split-In f (picks {c = c} s) =
      let (a, b) = split-In (λ x m. f x (there m)) s in ((f c here, a), b)
  split-In f (waits {c = c} s) =
      let (a, b) = split-In (λ x m. f x (there m)) s in (a, (f c here, b))

-- A schedule that is returned selects no more candidates than lanes are free; each candidate is
-- selected or deferred, as often as it is given; those selected and those deferred are given
-- candidates, and split the candidates in the scheduler's order; and the heavy ones of those selected
-- are in groups in which no active lane and no earlier selected candidate is heavy.
pub schedule-Apart :
    {F : Type 0} (capacity : ℤ) (active : List (Json F)) (candidates : List (Candidate F))
    (s : Schedule)
    → schedule capacity active candidates ≡ ok s
    → (length s.selected_candidate_ids ≤ pos_part capacity - length active)
      × ((i : String)
          → count i s.selected_candidate_ids + count i (map (λ d. d.0) s.deferred)
            ≡ count i (ids candidates))
      × ((groups : List String) × (picked : List (Candidate F)) × (waiting : List (Candidate F))
          × (heavy_groups active ≡ ok groups)
          × All (λ c. In c candidates) picked
          × All (λ c. In c candidates) waiting
          × Split (ordered candidates) picked waiting
          × (ids picked ≡ s.selected_candidate_ids)
          × (ids waiting ≡ map (λ d. d.0) s.deferred)
          × Apart groups picked)
unfolding schedule
schedule-Apart capacity active candidates s h =
    let (u, a, b) =
      bind_ok (refuse_if (not (leb_ℤ (pos 1) capacity && leb_ℤ capacity (pos 64))) _) _ h in
    let (groups, e, d) = bind_ok (heavy_groups active) _ b in
    let (out, f, g) =
      bind_ok (fill (pos_part capacity - length active) 0 groups (ordered candidates)) _ d in
    let r = fill-Filled (pos_part capacity - length active) 0 groups (ordered candidates) out f in
    let picks : out.0 ≡ s.selected_candidate_ids = cc g in
    let waits : out.1 ≡ s.deferred = cc g in
    let (picked, waiting, split, same, late, apart) = r.chosen in
    let inside = split-In {P = λ c. In c candidates} (λ c m. In-ordered candidates m) split in
    (
      subst (λ l. length l ≤ pos_part capacity - length active) picks
          (omega (arith, r.room (omega arith))),
      λ i.
          ap (λ l. count i l + count i (map (λ x. x.0) s.deferred)) (sym picks)
          ∙ ap (λ l. count i out.0 + count i (map (λ x. x.0) l)) (sym waits)
          ∙ r.whole i
          ∙ count-ordered i candidates,
      (
        groups,
        picked,
        waiting,
        e,
        inside.0,
        inside.1,
        split,
        same ∙ picks,
        late ∙ ap (λ l. map (λ x. x.0) l) waits,
        apart,
      ),
    )
