-- ===== src/Route.antt =====
-- The routes of src/protocol/halmos_http_route.c: the choice of one, and what it makes of an address.
pub mod Longest
use halmos.Base.{
  ℕ, ◌+◌, ◌-◌, Bool, true, false, ◌&&◌, Option, some, none, List, [], ◌∷◌, ◌++◌, ltb, leb, ◌==◌,
  if◌then◌else◌, length, take, drop, codes,
}

pub data RouteType : Type 0 where
  rt_none : RouteType
  rt_query : RouteType
  rt_path : RouteType

pub data FcgiBackend : Type 0 where
  fcgi_php : FcgiBackend
  fcgi_py : FcgiBackend
  fcgi_rs : FcgiBackend

-- `var_names` has the `var_count` names that are set.
pub record RouteTable : Type 0 where
  pub type : RouteType
  pub source : List ℕ
  pub target : List ℕ
  pub fcgi_type : FcgiBackend
  pub var_names : List (List ℕ)

-- `strncmp (uri, source, strlen (source)) == 0`
unfoldable pub has_prefix : List ℕ → List ℕ → Bool
has_prefix uri [] = true
has_prefix [] (p ∷ ps) = false
has_prefix (c ∷ uri) (p ∷ ps) = (c == p) && has_prefix uri ps

-- The loop with `best_match` and `max_len`.
unfoldable pub match_loop : List ℕ → List RouteTable → Option RouteTable → ℕ → Option RouteTable
match_loop uri [] best max_len = best
match_loop uri (r ∷ routes) best max_len =
    let better = match_loop uri routes (some r) (length r.source) in
    let same = match_loop uri routes best max_len in
    if has_prefix uri r.source && ltb max_len (length r.source) then better else same

-- The routes of the virtual host; nothing for a host that is missing.
unfoldable pub http_route_match : Option (List RouteTable) → List ℕ → Option RouteTable
http_route_match none uri = none
http_route_match (some routes) uri = match_loop uri routes none 0

pub record Applied : Type 0 where
  pub out_target : List ℕ
  pub out_query : List ℕ
  pub out_path_info : List ℕ

abbrev keep : List ℕ → List (List ℕ) → List (List ℕ)
keep [] tokens = tokens
keep (c ∷ token) tokens = (c ∷ token) ∷ tokens

-- The tokens of `strtok (p, "/")`, of which `token` is the one begun.
unfoldable pub tokens_of : List ℕ → List ℕ → List (List ℕ)
tokens_of token [] = keep token []
tokens_of token (c ∷ s) =
    let cut = keep token (tokens_of [] s) in
    let longer = tokens_of (token ++ c ∷ []) s in if c == 47 then cut else longer

-- One `pair` of 127 characters at most.
abbrev pub pair_of : Bool → List ℕ → List ℕ → List ℕ
pair_of first name token =
    take 127 ((if first then [] else codes "&") ++ (name ++ (codes "=" ++ token)))

unfoldable pub query_of : Bool → List (List ℕ) → List (List ℕ) → List ℕ
query_of first [] tokens = []
query_of first (name ∷ names) [] = []
query_of first (name ∷ names) (token ∷ tokens) =
    pair_of first name token ++ query_of false names tokens

-- `temp` keeps 255 bytes of the remainder; the byte behind them, which is not written, is taken to be NUL.
unfoldable pub http_route_apply_logic : RouteTable → List ℕ → Applied
http_route_apply_logic r original_uri =
    let remainder = drop (length r.source) original_uri in
    elim r.type [
      | rt_none ↦ record { out_target = r.target; out_query = []; out_path_info = [] }
      | rt_path ↦ record { out_target = r.target; out_query = []; out_path_info = remainder }
      | rt_query ↦ record {
        out_target = r.target;
        out_query = query_of true r.var_names (tokens_of [] (take 255 remainder));
        out_path_info = [];
      }
    ]
