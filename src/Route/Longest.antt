-- ===== src/Route/Longest.antt =====
-- The route that src/protocol/halmos_http_route.c chooses.
use halmos.Base.{
  ℕ, ◌≤◌, ◌<◌, ◌≡◌, ◌⊎◌, refl, ap, inl, inr, Bool, true, false, ◌&&◌, Option, some, none, List, [],
  ◌∷◌, ◌++◌, ltb, ◌==◌, length, drop, All, Bool-cases, arith,
}
use halmos.Route.{
  RouteTable, has_prefix, match_loop, http_route_match, http_route_apply_logic, RouteType, rt_none,
  rt_query, rt_path,
}

-- The route does not match, or is at most so long.
abbrev pub AtMost : List ℕ → ℕ → RouteTable → Type 0
AtMost uri n r = (has_prefix uri r.source ≡ false) ⊎ (length r.source ≤ n)

abbrev pub Below : List ℕ → ℕ → RouteTable → Type 0
Below uri n r = (has_prefix uri r.source ≡ false) ⊎ (length r.source < n)

-- The first route with the longest source that is more than `n` long.
pub record IsFirstLongest (uri : List ℕ) (n : ℕ) (routes : List RouteTable) (r : RouteTable)
    : Type 0 where
  pub before : List RouteTable
  pub after : List RouteTable
  pub split : routes ≡ before ++ r ∷ after
  pub fits : has_prefix uri r.source ≡ true
  pub longer : n < length r.source
  pub shorter_before : All (Below uri (length r.source)) before
  pub not_longer_after : All (AtMost uri (length r.source)) after

data Outcome (uri : List ℕ) (routes : List RouteTable) (best : Option RouteTable) (n : ℕ)
    : Option RouteTable → Type 0 where
  kept : All (AtMost uri n) routes → Outcome uri routes best n best
  found : (r : RouteTable) → IsFirstLongest uri n routes r → Outcome uri routes best n (some r)

from_better :
    (uri : List ℕ) (routes : List RouteTable) (best : Option RouteTable) (n : ℕ) (r : RouteTable)
    (o : Option RouteTable)
    → has_prefix uri r.source ≡ true
    → n < length r.source
    → Outcome uri routes (some r) (length r.source) o
    → Outcome uri (r ∷ routes) best n o
from_better uri routes best n r o fits longer (kept all) = found r (record {
  before = [];
  after = routes;
  split = refl;
  fits = fits;
  longer = longer;
  shorter_before = tt;
  not_longer_after = all;
})
from_better uri routes best n r o fits longer (found q h) = found q (record {
  before = r ∷ h.before;
  after = h.after;
  split = ap (◌∷◌ r) h.split;
  fits = h.fits;
  longer = omega (arith, longer, h.longer);
  shorter_before = (inr h.longer, h.shorter_before);
  not_longer_after = h.not_longer_after;
})

below : (uri : List ℕ) (n m : ℕ) (r : RouteTable) → AtMost uri n r → n < m → Below uri m r
below uri n m r (inl e) h = inl e
below uri n m r (inr small) h = inr (omega arith)

from_same :
    (uri : List ℕ) (routes : List RouteTable) (best : Option RouteTable) (n : ℕ) (r : RouteTable)
    (o : Option RouteTable)
    → AtMost uri n r
    → Outcome uri routes best n o
    → Outcome uri (r ∷ routes) best n o
from_same uri routes best n r o small (kept all) = kept (small, all)
from_same uri routes best n r o small (found q h) = found q (record {
  before = r ∷ h.before;
  after = h.after;
  split = ap (◌∷◌ r) h.split;
  fits = h.fits;
  longer = h.longer;
  shorter_before = (below uri n (length q.source) r small h.longer, h.shorter_before);
  not_longer_after = h.not_longer_after;
})

and-true : (a b : Bool) → (a && b) ≡ true → (a ≡ true) × (b ≡ true)
and-true true b h = (refl, h)
and-true false b h = cc

not_better : (a : Bool) (m n : ℕ) → (a && ltb m n) ≡ false → (a ≡ false) ⊎ (n ≤ m)
not_better true m n h = inr (ground (arith, h))
not_better false m n h = inl refl

match_loop-Outcome :
    (uri : List ℕ) (routes : List RouteTable) (best : Option RouteTable) (n : ℕ)
    → Outcome uri routes best n (match_loop uri routes best n)
unfolding match_loop
match_loop-Outcome uri [] best n = kept tt
match_loop-Outcome uri (r ∷ routes) best n =
    elim (Bool-cases (has_prefix uri r.source && ltb n (length r.source))) [
      | inl e ↦
          let (fits, longer) = and-true (has_prefix uri r.source) (ltb n (length r.source)) e in
          rw e (
            from_better uri routes best n r _ fits (ground (arith, longer))
              (match_loop-Outcome uri routes (some r) (length r.source)))
      | inr e ↦ rw e (
          from_same uri routes best n r _
            (not_better (has_prefix uri r.source) n (length r.source) e)
            (match_loop-Outcome uri routes best n))
    ]

prefix_and_rest :
    (uri source : List ℕ) → has_prefix uri source ≡ true → source ++ drop (length source) uri ≡ uri
unfolding has_prefix
prefix_and_rest uri [] h = refl
prefix_and_rest [] (p ∷ ps) h = cc
prefix_and_rest (c ∷ uri) (p ∷ ps) h =
    let (same, more) = and-true (c == p) (has_prefix uri ps) h in
    let e : p ≡ c = ground (arith, same) in rw e (ap (◌∷◌ c) (prefix_and_rest uri ps more))

-- What the answer says of the address, for each type of route.
abbrev pub IsApplied : RouteType → List ℕ → RouteTable → Type 0
IsApplied rt_none uri r =
    ((http_route_apply_logic r uri).out_path_info ≡ [])
    × ((http_route_apply_logic r uri).out_query ≡ [])
IsApplied rt_path uri r =
    (r.source ++ (http_route_apply_logic r uri).out_path_info ≡ uri)
    × ((http_route_apply_logic r uri).out_query ≡ [])
IsApplied rt_query uri r = (http_route_apply_logic r uri).out_path_info ≡ []

apply_logic-IsApplied :
    (uri : List ℕ) (r : RouteTable) (t : RouteType)
    → r.type ≡ t
    → has_prefix uri r.source ≡ true
    → IsApplied t uri r
unfolding http_route_apply_logic
apply_logic-IsApplied uri r rt_none e h = rw e (refl, refl)
apply_logic-IsApplied uri r rt_path e h = rw e (prefix_and_rest uri r.source h, refl)
apply_logic-IsApplied uri r rt_query e h = rw e refl

-- The choice, and the answer that it leads to.
pub data IsChoice (uri : List ℕ) (routes : List RouteTable) : Option RouteTable → Type 0 where
  no_route : All (AtMost uri 0) routes → IsChoice uri routes none
  route :
      (r : RouteTable)
      → IsFirstLongest uri 0 routes r
      → IsApplied r.type uri r
      → IsChoice uri routes (some r)

Outcome-IsChoice :
    (uri : List ℕ) (routes : List RouteTable) (o : Option RouteTable)
    → Outcome uri routes none 0 o
    → IsChoice uri routes o
Outcome-IsChoice uri routes o (kept all) = no_route all
Outcome-IsChoice uri routes o (found r h) =
    route r h (apply_logic-IsApplied uri r r.type refl h.fits)

-- Of the routes whose source is not empty and starts the address, the first of the longest is chosen, and none
-- only if there is no such route; a chosen route of type PATH has as its path the rest of the address behind
-- the source, the other types have no path, and only QUERY has a query.
pub http_route_match-IsChoice :
    (routes : List RouteTable) (uri : List ℕ)
    → IsChoice uri routes (http_route_match (some routes) uri)
unfolding http_route_match
http_route_match-IsChoice routes uri =
    Outcome-IsChoice uri routes _ (match_loop-Outcome uri routes none 0)
