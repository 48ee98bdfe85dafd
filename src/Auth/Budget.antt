-- ===== src/Auth/Budget.antt =====
-- The counters of auth/store.py: their buckets, and what counting, a hit and a reset do to them.
use text.Mathlib.TextPositions.{slice-append_left}
use text.Mathlib.TextLemmas.{append_assoc}
use Prim.Native.String.{slice, ◌++◌ as append}
use project_firestarter.Prelude.{
  ℕ, ◌≤◌, ◌<◌, String, String-Eq, ◌==◌, ◌≡◌, ◌≢◌, sym, ap, ◌∙◌, arith, Bool, true, false, List, [],
  ◌∷◌, ◌++◌, ℤ, leb_ℤ, length, select, insert, lookup-insert, lookup-pop, if◌then◌else◌,
  length-append, ◌-ℤ◌, subst,
}
use project_firestarter.Auth.Model.{seconds}
use project_firestarter.Auth.Store.{AuthStore, hits, live, hit, count, reset, kept_hits}
use project_firestarter.Auth.Flows.{req_bucket, fail_bucket}

pub length-select {ℓ} : {A : Type ℓ} (p : A → Bool) (xs : List A) → length (select p xs) ≤ length xs
length-select p [] = omega arith
length-select p (x ∷ xs) = ground (arith, length-select p xs)

-- The two counters of two identifiers are never one.
pub buckets_differ : (a b : String) → fail_bucket a ≢ req_bucket b
buckets_differ a b e =
    let p : slice (fail_bucket a) 0 4 ≡ "fail" =
      subst (λ s. slice s 0 4 ≡ "fail") (sym (append_assoc "fail" ":" a))
        (slice-append_left "fail" (append ":" a)) in
    let q : slice (req_bucket b) 0 4 ≡ "req:" = slice-append_left "req:" b in
    let r : Path String "fail" "req:" = sym p ∙ ap (λ s. slice s 0 4) e ∙ q in
    let t : true ≡ false = ap (λ s. s == "fail") r in cc

-- A write to the counters, read back.
hits_write :
    (st : AuthStore) (k j : String) (v : List ℤ)
    → hits (record st { counters = insert st.counters k v }) j ≡ (if k == j then v else hits st j)
unfolding hits
hits_write st k j v = ground (arith, lookup-insert st.counters k j v)

pub hits-count :
    (st : AuthStore) (k j : String) (w now : ℤ)
    → hits (count st k w now).1 j ≡ (if k == j then kept_hits st k w now else hits st j)
unfolding count live
hits-count st k j w now = hits_write st k j (kept_hits st k w now)

pub hits-hit :
    (st : AuthStore) (k j : String) (w now stamp : ℤ)
    → hits (hit st k w now stamp).1 j
      ≡ (if k == j then kept_hits st k w now ++ (stamp ∷ []) else hits st j)
unfolding hit live
hits-hit st k j w now stamp =
    let kept = kept_hits st k w now in
    let st1 : AuthStore = record st { counters = insert st.counters k kept } in
    let a = hits_write st1 k j (kept ++ (stamp ∷ [])) in
    let b = hits_write st k j kept in ground arith

pub hits-reset :
    (st : AuthStore) (k j : String) → hits (reset st k) j ≡ (if k == j then [] else hits st j)
unfolding hits reset
hits-reset st k j = ground (arith, lookup-pop st.counters k j)

-- Counting forgets old hits and adds none; a hit below the maximum stays within it.
pub count-le :
    (st : AuthStore) (k j : String) (w now : ℤ)
    → length (hits (count st k w now).1 j) ≤ length (hits st j)
count-le st k j w now = ground (
  arith,
  hits-count st k j w now,
  String-Eq.agrees k j,
  length-select (λ t. leb_ℤ (now -ℤ seconds w) t) (hits st k),
)

pub hit-le :
    (st : AuthStore) (k j : String) (w now stamp : ℤ) (m : ℕ)
    → length (hits st k) < m
    → length (hits st j) ≤ m
    → length (hits (hit st k w now stamp).1 j) ≤ m
hit-le st k j w now stamp m h i = ground (
  arith,
  hits-hit st k j w now stamp,
  length-append (kept_hits st k w now) (stamp ∷ []),
  length-select (λ t. leb_ℤ (now -ℤ seconds w) t) (hits st k),
)

pub reset-le : (st : AuthStore) (k j : String) → length (hits (reset st k) j) ≤ length (hits st j)
reset-le st k j = ground (arith, hits-reset st k j)
