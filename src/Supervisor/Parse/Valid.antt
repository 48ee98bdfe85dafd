-- ===== src/Supervisor/Parse/Valid.antt =====
-- What the services of a parsed manifest satisfy.
use Prim.Native.String.{◌++◌ as append}
use project_firestarter.Prelude.{
  ℕ, suc, ◌≤◌, String, String-Eq, ◌==◌, ◌≡◌, refl, sym, subst, arith, true, false, Bool-cases,
  Option-cases, inl, inr, List, [], ◌∷◌, ◌++◌, Option, some, ltb, leb, lookup, insert,
  lookup-insert, All,
}
use project_firestarter.Browser.Json.{Json, boolean, arr, Items, nil, cons, Fields}
use project_firestarter.Supervisor.Spec.{ServiceSpec, Services, Manifest}
use project_firestarter.Supervisor.Dag.{Walk, returned, ◌>>=◌, manifest_init}
use project_firestarter.Supervisor.Dag.Order.{bind_returned}
use project_firestarter.Supervisor.Dag.Accepted.{manifest_init-parts}
use project_firestarter.Supervisor.Parse.{
  Net, bad, dependency_list, exact_keys, get, get_or, strict_bool, bounded_int, service_id_ok,
}
use project_firestarter.Supervisor.Parse.Entries.{
  entry_id, entry_health, build_spec, parse_entry, parse_entries, by_id, from_dict, from_entries,
  guard, fields_of, items_of, count_items, is_one, top_level_keys,
}

-- The identifier and the adapter are allowed, and the times are in their bounds.
pub record Valid (s : ServiceSpec) : Type 0 where
  pub id : service_id_ok s.service_id ≡ true
  pub adapter : s.adapter ≡ "synthetic"
  pub interval : (1 ≤ s.health.interval_ms) × (s.health.interval_ms ≤ 10000)
  pub wake : (1 ≤ s.wake_timeout_ms) × (s.wake_timeout_ms ≤ 300000)
  pub idle : s.idle_timeout_ms ≤ 86400000
  pub grace : s.drain_grace_ms ≤ 60000

All-last :
    {A : Type 0} (P : A → Type 0) (xs : List A) (x : A) → All P xs → P x → All P (xs ++ (x ∷ []))
All-last P [] x a p = (p, tt)
All-last P (y ∷ ys) x (a, b) p = (a, All-last P ys x b p)

-- What a computation returns has a property.
Yields : {A : Type 0} → (A → Type 0) → Walk A → Type 0
Yields {A} P w = (a : A) → w ≡ returned a → P a

bind-Yields :
    {A B : Type 0} {Q : A → Type 0} (P : B → Type 0) (w : Walk A) (next : A → Walk B)
    → Yields Q w
    → ((a : A) → Q a → Yields P (next a))
    → Yields P (w >>= next)
unfolding Yields
bind-Yields P w next q k b h = let (a, e, f) = bind_returned w next h in k a (q a e) b f

then-Yields :
    {A B : Type 0} (P : B → Type 0) (w : Walk A) (next : A → Walk B)
    → ((a : A) → Yields P (next a))
    → Yields P (w >>= next)
unfolding Yields
then-Yields P w next k b h = let (a, e, f) = bind_returned w next h in k a b f

returned-Yields : {A : Type 0} (P : A → Type 0) (a : A) → P a → Yields P (returned a)
unfolding Yields
returned-Yields P a p b h = let same : a ≡ b = cc in subst P same p

bad-Yields : {A : Type 0} (P : A → Type 0) (context text : String) → Yields P (bad context text)
unfolding Yields
bad-Yields P context text b h = cc

module _ {F : Type 0} where
  bounded_int-bounds :
      (value : Option (Json F)) (context : String) (lowest highest : ℕ)
      → Yields (λ n. (lowest ≤ n) × (n ≤ highest)) (bounded_int value context lowest highest)
  unfolding bounded_int Yields
  bounded_int-bounds value context lowest highest n h = (ground (arith, h), ground (arith, h))

  entry_id-ok :
      (entry : Fields F) (seen : List String) (context : String)
      → Yields (λ i. service_id_ok i ≡ true) (entry_id entry seen context)
  unfolding entry_id Yields
  entry_id-ok entry seen context i h = ground (arith, h)

  module _ (net : Net) where
    build_spec-Valid :
        (entry : Fields F) (context i : String) (dependencies : List String) (path : String)
        (health : Fields F)
        → service_id_ok i ≡ true
        → Yields Valid (build_spec net entry context i dependencies path health)
    unfolding build_spec
    build_spec-Valid entry context i dependencies path health ok =
        then-Yields Valid _ _ (λ upstream.
          bind-Yields Valid _ _ (bounded_int-bounds _ _ _ _) (λ interval a.
            bind-Yields Valid _ _ (bounded_int-bounds _ _ _ _) (λ wake b.
              bind-Yields Valid _ _ (bounded_int-bounds _ _ _ _) (λ idle c.
                bind-Yields Valid _ _ (bounded_int-bounds _ _ _ _) (λ grace d.
                  then-Yields Valid
                    (strict_bool (get_or entry "never_stop" (boolean false))
                      (append context ".never_stop"))
                    _
                    (λ never_stop.
                      then-Yields Valid
                        (strict_bool (get_or entry "retain" (boolean false))
                          (append context ".retain"))
                        _
                        (λ retain. returned-Yields Valid _ (record {
                          id = ok;
                          adapter = refl;
                          interval = a;
                          wake = b;
                          idle = c.1;
                          grace = d.1;
                        }))))))))

    parse_entry-Valid :
        (value : Json F) (seen : List String) (context : String)
        → Yields Valid (parse_entry net value seen context)
    unfolding parse_entry
    parse_entry-Valid value seen context = elim (Option-cases (fields_of (some value))) [
      | inl e ↦ rw (parse_entry, e) (bad-Yields Valid context _)
      | inr (entry, e) ↦
          rw (parse_entry, e)
            (then-Yields Valid _ _ (λ u.
              bind-Yields Valid _ _ (entry_id-ok entry seen context) (λ i ok.
                then-Yields Valid _ _ (λ v.
                  then-Yields Valid
                    (dependency_list (get_or entry "dependencies" (arr nil)) context) _
                    (λ dependencies. then-Yields Valid (entry_health entry context) _ (λ parts.
                      build_spec-Valid entry context i dependencies parts.0 parts.1 ok))))))
    ]

    parse_entries-Valid :
        (index : ℕ) (xs : Items F) (seen : List String) (parsed : List ServiceSpec)
        → All Valid parsed
        → Yields (All Valid) (parse_entries net index xs seen parsed)
    unfolding parse_entries
    parse_entries-Valid index nil seen parsed a = returned-Yields (All Valid) parsed a
    parse_entries-Valid index (cons v rest) seen parsed a =
        bind-Yields (All Valid) _ _ (parse_entry-Valid v seen _) (λ s ok.
          parse_entries-Valid (suc index) rest _ (parsed ++ (s ∷ []))
            (All-last Valid parsed s a ok))

-- Each service of a dictionary is found at its own identifier and has a property.
Filed : (P : ServiceSpec → Type 0) → Services → Type 0
Filed P d = (i : String) (s : ServiceSpec) → lookup d i ≡ some s → (s.service_id ≡ i) × P s

nothing_Filed : Filed Valid []
unfolding Filed lookup
nothing_Filed i s h = cc

by_id-Filed :
    (P : ServiceSpec → Type 0) (d : Services) (ss : List ServiceSpec)
    → Filed P d
    → All P ss
    → Filed P (by_id d ss)
unfolding Filed
by_id-Filed P d [] f a = f
by_id-Filed P d (s ∷ ss) f (p, a) =
    by_id-Filed P (insert d s.service_id s) ss
      (λ i t h. elim (Bool-cases (s.service_id == i)) [
        | inl y ↦
            let same : s ≡ t = cc (rw (lookup-insert d s.service_id i s, y) at h) in
            subst (λ u. (u.service_id ≡ i) × P u) same ((String-Eq.agrees s.service_id i).0 y, p)
        | inr n ↦ f i t (rw (lookup-insert d s.service_id i s, n) at h)
      ])
      a

manifest_init-Filed :
    (services : Services) (fuel : ℕ)
    → Filed Valid services
    → Yields (λ m. Filed Valid m.services) (manifest_init services fuel)
unfolding Yields
manifest_init-Filed services fuel f m h =
    subst (Filed Valid) (sym (manifest_init-parts services fuel m h).0) f

-- The services of a manifest are filed.
Parsed : Manifest → Type 0
unfolding Filed
Parsed m = Filed Valid m.services

from_entries-Parsed :
    {F : Type 0} (net : Net) (value : Option (Json F)) (fuel : ℕ)
    → Yields Parsed (from_entries net value fuel)
unfolding from_entries Parsed
from_entries-Parsed net value fuel = elim (Option-cases (items_of value)) [
  | inl e ↦ rw (from_entries, e) (bad-Yields Parsed "manifest" " services must be a non-empty list")
  | inr (xs, e) ↦
      rw (from_entries, e)
        (then-Yields Parsed
          (guard (ltb 0 (count_items xs)) "manifest" " services must be a non-empty list") _
          (λ x.
            then-Yields Parsed
              (guard (leb (count_items xs) 256) "manifest"
                " services exceeds the 256-service limit")
              _
              (λ y. bind-Yields Parsed _ _ (parse_entries-Valid net 0 xs [] [] tt) (λ parsed a.
                manifest_init-Filed (by_id [] parsed) fuel
                  (by_id-Filed Valid [] parsed nothing_Filed a)))))
]

from_dict-Parsed :
    {F : Type 0} (net : Net) (raw : Json F) (fuel : ℕ) → Yields Parsed (from_dict net raw fuel)
unfolding from_dict
from_dict-Parsed net raw fuel = elim (Option-cases (fields_of (some raw))) [
  | inl e ↦ rw (from_dict, e) (bad-Yields Parsed "manifest" " must be a JSON object")
  | inr (top, e) ↦
      rw (from_dict, e)
        (then-Yields Parsed (exact_keys top top_level_keys "manifest") _ (λ u.
          then-Yields Parsed
            (guard (is_one (get top "schema_version")) "manifest"
              " schema_version must be exactly 1")
            _ (λ v. from_entries-Parsed net (get top "services") fuel)))
]

-- Each service of a parsed manifest stands at its own identifier; the identifier matches the pattern, the
-- adapter is the synthetic one, and the five times are in their bounds.
pub from_dict-Valid :
    {F : Type 0} (net : Net) (raw : Json F) (fuel : ℕ) (m : Manifest) (i : String) (s : ServiceSpec)
    → from_dict net raw fuel ≡ returned m
    → lookup m.services i ≡ some s
    → (s.service_id ≡ i) × Valid s
unfolding Yields Filed Parsed
from_dict-Valid net raw fuel m i s h e = from_dict-Parsed net raw fuel m h i s e
