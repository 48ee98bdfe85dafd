-- ===== src/Browser/Binding/Shape.antt =====
-- What a binding that its `__post_init__` accepts says of the frames.
use project_firestarter.Prelude.{
  ℕ, suc, ◌≤◌, ◌≡◌, refl, ap, ◌∙◌, arith, Bool, Bool-cases, inl, inr, true, false, ◌||◌, ℤ, pos,
  ◌≤ℤ◌, String, ℤ_Eq, String-Eq, ok, refuse_if, passes, rest_passes, List, [], ◌∷◌, All, In, here,
  there, In-member, member-In, member, length, ltb, nat_eq, nat_eq_iff, to_set, any, not,
}
use project_firestarter.Browser.Ids.{require_id, require_ids}
use project_firestarter.Browser.Binding.{
  DocumentBinding, binding_init, negative, not_top, other_top, same_depth,
}

-- No item twice.
abbrev pub IsDistinct : List ℤ → Type 0
IsDistinct [] = Unit
IsDistinct (x ∷ xs) = (¬ In x xs) × IsDistinct xs

-- The set of a list has each item of it, and no more items than it.
In-to_set : {y : ℤ} {xs : List ℤ} → In y xs → In y (to_set xs)
In-to_set {xs = []} m = elim m [ ]
In-to_set {xs = x ∷ xs} here = elim (Bool-cases (member x (to_set xs))) [
  | inl a ↦ rw a (member-In x (to_set xs) a)
  | inr b ↦ rw b here
]
In-to_set {y} {xs = x ∷ xs} (there m) = elim (Bool-cases (member x (to_set xs))) [
  | inl a ↦ rw a (In-to_set m)
  | inr b ↦ rw b (there (In-to_set m))
]

to_set-le : (xs : List ℤ) → length (to_set xs) ≤ length xs
to_set-le [] = omega arith
to_set-le (x ∷ xs) = ground (arith, to_set-le xs)

-- A list as long as its set has no item twice.
to_set-IsDistinct : (xs : List ℤ) → length (to_set xs) ≡ length xs → IsDistinct xs
to_set-IsDistinct [] h = tt
to_set-IsDistinct (x ∷ xs) h = elim (Bool-cases (member x (to_set xs))) [
  | inl a ↦ absurd (omega (arith, to_set-le xs, rw a at h))
  | inr b ↦ (λ m. cc (b, In-member (In-to_set m)), to_set-IsDistinct xs (omega (arith, rw b at h)))
]

not_negative : (n : ℤ) → negative n ≡ false → pos 0 ≤ℤ n
not_negative n h = ground arith

none_negative : (ns : List ℤ) → any negative ns ≡ false → All (λ n. pos 0 ≤ℤ n) ns
none_negative [] h = tt
none_negative (n ∷ ns) h =
    let parts : (negative n ≡ false) × (any negative ns ≡ false) = ground arith in
    (not_negative n parts.0, none_negative ns parts.1)

at_top : (ns : List ℤ) → not_top ns ≡ false → (rest : List ℤ) × (ns ≡ pos 0 ∷ rest)
at_top [] h = cc
at_top (n ∷ ns) h =
    let top : n ≡ pos 0 = (ℤ_Eq.agrees n (pos 0)).0 (ground arith) in (ns, ap (λ m. m ∷ ns) top)

own_top :
    (ds : List String) (d : String) {n : ℕ}
    → length ds ≡ suc n
    → other_top ds d ≡ false
    → (rest : List String) × (ds ≡ d ∷ rest)
own_top [] d h k = absurd (omega (arith, h))
own_top (t ∷ ts) d h k =
    let top : t ≡ d = (String-Eq.agrees t d).0 (ground arith) in (ts, ap (λ u. u ∷ ts) top)

refused_not : (test : Bool) (message : String) → refuse_if test message ≡ ok tt → test ≡ false
refused_not true message h = cc
refused_not false message h = refl

-- A binding whose frames are the top frame and those under it.
pub record Rooted (b : DocumentBinding) : Type 0 where
  pub top_frame : (rest : List ℤ) × (b.frame_ids ≡ pos 0 ∷ rest)
  pub top_document : (rest : List String) × (b.frame_document_ids ≡ b.document_id ∷ rest)
  pub bounded : length b.frame_ids ≤ 8
  pub distinct : IsDistinct b.frame_ids
  pub origins : length b.origin_ids ≡ length b.frame_ids
  pub documents : length b.frame_document_ids ≡ length b.frame_ids
  pub generations : length b.frame_generations ≡ length b.frame_ids
  pub frames_counted : All (λ n. pos 0 ≤ℤ n) b.frame_ids
  pub generations_counted : All (λ n. pos 0 ≤ℤ n) b.frame_generations
  pub tab_counted : pos 0 ≤ℤ b.tab_id
  pub document_counted : pos 0 ≤ℤ b.document_generation
  pub surface_counted : pos 0 ≤ℤ b.surface_generation

-- An accepted binding starts at the top frame, whose document is the binding's, has at most eight
-- frames, no frame twice, the other three chains as long as the chain of frames, and no negative tab,
-- frame or generation.
pub accepted_shape : (b : DocumentBinding) → binding_init b ≡ ok tt → Rooted b
unfolding binding_init
accepted_shape b h =
    let (tab, h1) = passes (negative b.tab_id) _ _ h in
    let h2 = rest_passes (require_id b.document_id "document_id") _ h1 in
    let h3 = rest_passes (require_id b.adapter_version "adapter_version") _ h2 in
    let (top, h4) = passes (not_top b.frame_ids) _ _ h3 in
    let (bounded, h5) =
      passes
        (ltb 8 (length b.frame_ids)
          || not (nat_eq (length (to_set b.frame_ids)) (length b.frame_ids)))
        _ _ h4 in
    let (depth, h6) = passes (not (same_depth b)) _ _ h5 in
    let (own, h7) = passes (other_top b.frame_document_ids b.document_id) _ _ h6 in
    let (counted, h8) = passes (any negative b.frame_ids) _ _ h7 in
    let h9 = rest_passes (require_ids b.origin_ids "origin_id") _ h8 in
    let h10 = rest_passes (require_ids b.frame_document_ids "frame_document_id") _ h9 in
    let (fresh, h11) = passes (any negative b.frame_generations) _ _ h10 in
    let last : (negative b.document_generation || negative b.surface_generation) ≡ false =
      refused_not _ _ h11 in
    let ends : (negative b.document_generation ≡ false) × (negative b.surface_generation ≡ false) =
      ground (arith, last) in
    let unique : length (to_set b.frame_ids) ≡ length b.frame_ids =
      ground (arith, nat_eq_iff (length (to_set b.frame_ids)) (length b.frame_ids)) in
    let lengths : (length b.origin_ids ≡ length b.frame_ids)
        × (length b.frame_document_ids ≡ length b.frame_ids)
        × (length b.frame_generations ≡ length b.frame_ids) =
      ground (
        arith,
        nat_eq_iff (length b.frame_ids) (length b.origin_ids),
        nat_eq_iff (length b.origin_ids) (length b.frame_document_ids),
        nat_eq_iff (length b.frame_document_ids) (length b.frame_generations),
      ) in
    let (rest, first) = at_top b.frame_ids top in
    record {
      top_frame = (rest, first);
      top_document =
          own_top b.frame_document_ids b.document_id {n = length rest}
            (lengths.1 ∙ ap (λ ns. length ns) first) own;
      bounded = ground arith;
      distinct = to_set-IsDistinct b.frame_ids unique;
      origins = lengths.0;
      documents = lengths.1;
      generations = lengths.2;
      frames_counted = none_negative b.frame_ids counted;
      generations_counted = none_negative b.frame_generations fresh;
      tab_counted = not_negative b.tab_id tab;
      document_counted = not_negative b.document_generation ends.0;
      surface_counted = not_negative b.surface_generation ends.1;
    }
