-- ===== src/Gateway/Route.antt =====
-- sdk/go/gateway/route.go: the static route table, compiled at start-up, and its lookup.
pub mod Sorting
pub mod Best
use stellarmesh_sdk.Base.{
  ℕ, suc, Bool, true, false, not, ◌&&◌, ◌||◌, List, [], ◌∷◌, ◌++◌, Option, none, some, ltb, eqb,
  length, is_negative, if◌then◌else◌, Result, ok, err, ◌>>=◌, ◌>>◌, refuse, find,
}
use stellarmesh_sdk.Text.{Text, ascii, ◌==◌, trim_space, to_upper, has_prefix, has_text, join}
use stellarmesh_sdk.Text.Order.{sort_texts, add_key}
use stellarmesh_sdk.Gateway.Token.{is_http_token}
use stellarmesh_sdk.Gateway.Types.{Route, access_protected, access_public, Request}

-- The errors of `compileRoute` and `normalizeResolvedRoute`.
pub data RouteError : Type 0 where
  name_required upstream_required exclusive_paths slash_required : RouteError
  access_invalid body_limit_negative method_invalid : RouteError

-- The errors of `newStaticRouteResolver`.
pub data TableError : Type 0 where
  routes_required : TableError
  invalid_route : ℕ → RouteError → TableError
  duplicate_route : Text → TableError

-- `methods` is the set of the compiled route; the route's own list holds the same, sorted.
pub record CompiledRoute : Type 0 where
  pub route : Route
  pub methods : List Text

pub record StaticRouteResolver : Type 0 where
  pub exact : List CompiledRoute
  pub prefixes : List CompiledRoute

abbrev pub is_empty : Text → Bool
is_empty [] = true
is_empty (c ∷ s) = false

abbrev pub same_bool : Bool → Bool → Bool
same_bool true b = b
same_bool false b = not b

abbrev pub is_access_mode : ℕ → Bool
is_access_mode a = eqb a access_protected || eqb a access_public

-- The loop over the methods; the accumulator is the set.
unfoldable pub compile_methods : List Text → List Text → Result RouteError (List Text)
compile_methods [] set = ok set
compile_methods (m ∷ ms) set =
    let method = to_upper (trim_space m) in
    let rest = compile_methods ms (add_key method set) in
    if is_http_token method then rest else err method_invalid

abbrev pub trimmed_route : Route → Route
trimmed_route r = record r {
  name = trim_space r.name;
  upstream = trim_space r.upstream;
  match = record (r.match) {
    exact_path = trim_space r.match.exact_path;
    path_prefix = trim_space r.match.path_prefix;
  };
}

-- The path that the route is found by.
abbrev pub route_path : Route → Text
route_path r = if is_empty r.match.exact_path then r.match.path_prefix else r.match.exact_path

unfoldable pub check_route : Route → Result RouteError (Unit {0})
check_route r = do
  refuse (is_empty r.name) name_required
  refuse (is_empty r.upstream) upstream_required
  refuse (same_bool (is_empty r.match.exact_path) (is_empty r.match.path_prefix)) exclusive_paths
  refuse (not (has_prefix (route_path r) (ascii "/"))) slash_required
  refuse (not (is_access_mode r.access)) access_invalid
  refuse (is_negative r.max_body_bytes) body_limit_negative

-- `compileRoute`.
unfoldable pub compile_route : Route → Result RouteError CompiledRoute
compile_route raw = do
  let r = trimmed_route raw
  check_route r
  methods ← compile_methods r.match.methods []
  ok (record {
    route = record r { match = record (r.match) { methods = sort_texts methods } };
    methods = methods;
  })

-- `routeMatchKey`.
unfoldable pub route_match_key : CompiledRoute → Text
route_match_key c =
    c.route.match.exact_path ++ 0 ∷ c.route.match.path_prefix ++ 0 ∷ join c.route.match.methods b','

-- One step of `sort.SliceStable` by decreasing length of the prefix: a route goes in front of the
-- first one that is not longer, and the routes are put in from the last to the first.
abbrev pub prefix_length : CompiledRoute → ℕ
prefix_length c = length c.route.match.path_prefix

unfoldable pub insert_route : CompiledRoute → List CompiledRoute → List CompiledRoute
insert_route c [] = c ∷ []
insert_route c (d ∷ ds) =
    if ltb (prefix_length c) (prefix_length d) then d ∷ insert_route c ds else c ∷ d ∷ ds

unfoldable pub sort_routes : List CompiledRoute → List CompiledRoute
sort_routes [] = []
sort_routes (c ∷ cs) = insert_route c (sort_routes cs)

abbrev pub index_error {ℓ} : {A : Type ℓ} → ℕ → Result RouteError A → Result TableError A
index_error index (ok a) = ok a
index_error index (err e) = err (invalid_route index e)

-- The loop of `newStaticRouteResolver`: the compiled routes in their order, with `seen` the keys
-- of those before.
unfoldable pub compile_table : ℕ → List Text → List Route → Result TableError (List CompiledRoute)
compile_table index seen [] = ok []
compile_table index seen (r ∷ rs) = index_error index (compile_route r) >>= λ c.
    elim (has_text seen (route_match_key c)) [
      | true ↦ err (duplicate_route r.name)
      | false ↦ compile_table (suc index) (route_match_key c ∷ seen) rs >>= λ cs. ok (c ∷ cs)
    ]

unfoldable pub is_exact : CompiledRoute → Bool
is_exact c = not (is_empty c.route.match.exact_path)

unfoldable pub exact_routes : List CompiledRoute → List CompiledRoute
exact_routes [] = []
exact_routes (c ∷ cs) = if is_exact c then c ∷ exact_routes cs else exact_routes cs

unfoldable pub prefix_routes : List CompiledRoute → List CompiledRoute
prefix_routes [] = []
prefix_routes (c ∷ cs) = if is_exact c then prefix_routes cs else c ∷ prefix_routes cs

abbrev pub sorted_table : List CompiledRoute → StaticRouteResolver
sorted_table cs = record { exact = exact_routes cs; prefixes = sort_routes (prefix_routes cs) }

-- `newStaticRouteResolver`.
unfoldable pub new_static_route_resolver : List Route → Result TableError StaticRouteResolver
new_static_route_resolver [] = err routes_required
new_static_route_resolver (r ∷ rs) = compile_table 0 [] (r ∷ rs) >>= λ cs. ok (sorted_table cs)

-- No method stands for every method.
unfoldable pub accepted_by : List Text → Text → Bool
accepted_by [] method = true
accepted_by (m ∷ ms) method = has_text (m ∷ ms) (to_upper method)

-- `compiledRoute.accepts`.
unfoldable pub accepts : CompiledRoute → Text → Bool
accepts c method = accepted_by c.methods method

unfoldable pub exact_matches : Request → CompiledRoute → Bool
exact_matches q c = c.route.match.exact_path == q.path && accepts c q.method

unfoldable pub prefix_matches : Request → CompiledRoute → Bool
prefix_matches q c = has_prefix q.path c.route.match.path_prefix && accepts c q.method

first_of_both : Option CompiledRoute → Option CompiledRoute → Option Route
first_of_both (some c) p = some c.route
first_of_both none (some c) = some c.route
first_of_both none none = none

-- `Resolve` of the static table.
unfoldable pub resolve_route : StaticRouteResolver → Request → Option Route
unfolding first_of_both
resolve_route t q =
    first_of_both (find (exact_matches q) t.exact) (find (prefix_matches q) t.prefixes)

-- `normalizeResolvedRoute`, for the routes of any resolver.
unfoldable pub normalize_resolved_route : Route → Result RouteError Route
normalize_resolved_route raw = do
  let r = record raw { name = trim_space raw.name; upstream = trim_space raw.upstream }
  refuse (is_empty r.name || is_empty r.upstream) name_required
  refuse (not (is_access_mode r.access)) access_invalid
  refuse (is_negative r.max_body_bytes) body_limit_negative
  ok r

-- `containsProtectedRoute`.
unfoldable pub contains_protected_route : List Route → Bool
contains_protected_route [] = false
contains_protected_route (r ∷ rs) = eqb r.access access_protected || contains_protected_route rs
