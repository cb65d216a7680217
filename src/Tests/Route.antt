-- ===== src/Tests/Route.antt =====
-- Runs of src/protocol/halmos_http_route.c.
use halmos.Base.{ℕ, ◌≡◌, refl, some, List, [], ◌∷◌, codes}
use halmos.Route.{
  RouteTable, RouteType, rt_path, rt_query, fcgi_php, has_prefix, match_loop, http_route_match,
  http_route_apply_logic, tokens_of, query_of,
}
use halmos.Route.Longest.{IsChoice, http_route_match-IsChoice}

abbrev route_to : RouteType → List ℕ → RouteTable
route_to type source = record {
  type = type;
  source = source;
  target = codes "/produk.php";
  fcgi_type = fcgi_php;
  var_names = codes "id" ∷ codes "alamat" ∷ [];
}

abbrev two_routes : List RouteTable
two_routes = route_to rt_query (codes "/p") ∷ route_to rt_path (codes "/p/info") ∷ []

http_route_match-IsChoice_example :
    IsChoice (codes "/p/info/7") two_routes (http_route_match (some two_routes) (codes "/p/info/7"))
http_route_match-IsChoice_example = http_route_match-IsChoice two_routes (codes "/p/info/7")

longest_route :
    http_route_match (some two_routes) (codes "/p/info/7")
    ≡ some (route_to rt_path (codes "/p/info"))
unfolding http_route_match match_loop has_prefix
longest_route = refl

query_route :
    (http_route_apply_logic (route_to rt_query (codes "/p")) (codes "/p/1/malang")).out_query
    ≡ codes "id=1&alamat=malang"
unfolding http_route_apply_logic tokens_of query_of
query_route = refl
