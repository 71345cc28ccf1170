-- ===== src/Web/Dispatch/Guard.antt =====
-- AppOptR/src/web.rs, `dispatch`: the state and the headers of a request.
use app_opt_r_plus.Prelude.{
  ◌≡◌, refl, ◌⊎◌, inl, inr, true, not, ◌&&◌, ◌||◌, Option, none, some, is_empty, arith, if_both,
  if_cases,
}
use app_opt_r_plus.Prelude.Text.{Text, codes, text_eq, starts_with}
use app_opt_r_plus.Web.Request.{Request}
use app_opt_r_plus.Web.Dispatch.{
  Api, Response, Route, dispatch, origin_ok, is_local, without_port, is_post, is_get, is_index,
  route_of, get_route, post_route, Answer, answer, responded,
}

-- A POST to a loopback name with a JSON content type, without an origin other than `null` or without a `Sec-Fetch-Site`
-- header that says anything but `none` or `same-origin`.
pub record IsTrusted (req : Request) : Type 0 where
  pub post : text_eq req.method (codes "POST") ≡ true
  pub local : is_local (without_port req.host) ≡ true
  pub json : starts_with req.content_type (codes "application/json") ≡ true
  pub same_origin :
      (is_empty req.origin
        || text_eq req.origin (codes "null")
        || is_empty req.fetch_site
        || text_eq req.fetch_site (codes "none")
        || text_eq req.fetch_site (codes "same-origin"))
      ≡ true

-- What an answer does to the state, and what the request then is.
abbrev pub Guarded : {S : Type 0} → Request → S → Option (Response × S) → Type 0
Guarded req s none = IsTrusted req
Guarded req s (some (r, s')) = (s' ≡ s) ⊎ IsTrusted req

module _ {S : Type 0} (api : Api S) where
  trusted : (req : Request) → origin_ok req ≡ true → is_post req ≡ true → IsTrusted req
  unfolding origin_ok
  trusted req o p = ground arith

  abbrev Routed : Request → S → Route → Type 0
  Routed req s r = Guarded req s (responded api req (answer api r req s))

  get_route-Routed : (req : Request) (s : S) (path : Text) → Routed req s (get_route path)
  unfolding get_route answer
  get_route-Routed req s path =
      if_both (Routed req s) (text_eq path (codes "/api/status")) (inl refl) (
        if_both (Routed req s) (text_eq path (codes "/api/rules")) (inl refl) (
          if_both (Routed req s) (text_eq path (codes "/api/config")) (inl refl)
            (if_both (Routed req s) (text_eq path (codes "/api/tuning")) (inl refl) (inl refl))))

  responded-Guarded :
      (req : Request) (s : S)
      → IsTrusted req
      → (o : Option (Answer × S)) → Guarded req s (responded api req o)
  responded-Guarded req s t none = t
  responded-Guarded req s t (some (a, s')) = inr t

  route_of-Routed : (req : Request) (s : S) → origin_ok req ≡ true → Routed req s (route_of req)
  unfolding route_of answer
  route_of-Routed req s o = if_both (Routed req s) (is_get req) (get_route-Routed req s req.path) (
      if_cases (Routed req s) (is_post req)
        (λ p. responded-Guarded req s (trusted req o p) (answer api (post_route req.path) req s))
        (λ p. inl refl))

  -- A request changes the state, or has no answer because a loop of the API ran out of fuel, only if it is a POST with a
  -- JSON content type, its host is a loopback name, and it has no origin, the origin `null`, no `Sec-Fetch-Site` header,
  -- or one that says `none` or `same-origin`. Any other request leaves the state as it is.
  pub dispatch-Guarded : (req : Request) (s : S) → Guarded req s (dispatch api req s)
  unfolding dispatch
  dispatch-Guarded req s =
      if_cases (Guarded req s) (not (origin_ok req)) (λ e. inl refl)
        (λ e.
          if_both (Guarded req s) (is_get req && is_index req.path) (inl refl)
            (route_of-Routed req s (ground (arith, e))))
