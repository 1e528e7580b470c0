-- ===== src/Mcp/Handlers/Bounds.antt =====
-- What the handlers let through to the service.
use veloria.Base.{
  ℕ, ◌≡◌, refl, Bool, true, ◌&&◌, not, none, [], ◌*◌, arith, leb, if◌then◌else◌, Bytes, bytes_eq,
  inl,
}
use veloria.Base.Int.{ℤ, pos, negsuc}
use veloria.Mcp.Tools.{clamp_int, is_valid_repo}
use veloria.Mcp.Pages.{max_limit}
use veloria.Mcp.Handlers.{
  max_context, SearchParams, ListParams, GrepFileParams, Service, SearchRequest, ListRequest,
  GrepRequest, limit_of, offset_of, context_of, search_params, list_params, grep_params,
  handle_search_code, handle_list_extensions, handle_grep_file,
}

abbrev pub is_page : ℕ → ℕ → Bool
is_page limit offset = leb 1 limit && (leb limit max_limit && leb offset (max_limit * 1000))

abbrev pub is_search : SearchParams → Bool
is_search p =
    (not (bytes_eq p.query []) && is_valid_repo p.repo)
    && (is_page p.limit p.offset && leb p.context_lines max_context)

abbrev pub is_list : ListParams → Bool
is_list p = is_valid_repo p.repo && is_page p.limit p.offset

abbrev pub is_grep : GrepFileParams → Bool
is_grep p =
    ((not (bytes_eq p.slug []) && not (bytes_eq p.query [])) && is_valid_repo p.repo)
    && leb p.context_lines max_context

-- A service that refuses what lies outside of the bounds that the tools state, and loads no search
-- without an id.
abbrev pub guarded : Service → Service
guarded svc = record {
  search = λ p. if is_search p then svc.search p else inl [];
  load_search = λ id. if bytes_eq id [] then inl [] else svc.load_search id;
  list_extensions = λ p. if is_list p then svc.list_extensions p else none;
  grep_file = λ p. if is_grep p then svc.grep_file p else inl [];
}

limit_bounds : (n : ℤ) → (leb 1 (limit_of n) ≡ true) × (leb (limit_of n) max_limit ≡ true)
unfolding limit_of clamp_int
limit_bounds (pos n) = (ground arith, ground arith)
limit_bounds (negsuc n) = (refl, refl)

offset_bound : (n : ℤ) → leb (offset_of n) (max_limit * 1000) ≡ true
unfolding offset_of clamp_int
offset_bound (pos n) = ground arith
offset_bound (negsuc n) = refl

context_bound : (n : ℤ) → leb (context_of n) max_context ≡ true
unfolding context_of clamp_int
context_bound (pos n) = ground arith
context_bound (negsuc n) = refl

search_guarded :
    (quote : Bytes → Bytes) (svc : Service) (r : SearchRequest)
    → handle_search_code quote svc r ≡ handle_search_code quote (guarded svc) r
unfolding handle_search_code search_params
search_guarded quote svc r =
    let l = limit_bounds r.limit in
    ground (arith, l.0, l.1, offset_bound r.offset, context_bound r.context_lines)

list_guarded :
    (svc : Service) (r : ListRequest)
    → handle_list_extensions svc r ≡ handle_list_extensions (guarded svc) r
unfolding handle_list_extensions list_params
list_guarded svc r = let l = limit_bounds r.limit in ground (arith, l.0, l.1, offset_bound r.offset)

grep_guarded :
    (quote : Bytes → Bytes) (svc : Service) (r : GrepRequest)
    → handle_grep_file quote svc r ≡ handle_grep_file quote (guarded svc) r
unfolding handle_grep_file grep_params
grep_guarded quote svc r = ground (arith, context_bound r.context_lines)

-- Whatever a client asks for, the handlers of searches, lists and greps answer as with a service that
-- refuses all calls but those with a known repository, with a query and a slug where they are required,
-- and with a limit from 1 to 100, an offset up to 100,000 and at most 5 lines of context: they make no
-- other calls, or their answer does not depend on them.
handlers_guarded :
    (quote : Bytes → Bytes) (svc : Service)
    → ((r : SearchRequest)
        → handle_search_code quote svc r ≡ handle_search_code quote (guarded svc) r)
      × ((r : ListRequest) → handle_list_extensions svc r ≡ handle_list_extensions (guarded svc) r)
      × ((r : GrepRequest) → handle_grep_file quote svc r ≡ handle_grep_file quote (guarded svc) r)
handlers_guarded quote svc = (search_guarded quote svc, list_guarded svc, grep_guarded quote svc)
