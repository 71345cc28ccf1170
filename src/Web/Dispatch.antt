-- ===== src/Web/Dispatch.antt =====
-- AppOptR/src/web.rs: `dispatch` and `conn_handle`. The functions of the API are an interface.
pub mod Guard
pub mod Connection
use app_opt_r_plus.Prelude.{
  ℕ, zero, suc, Bool, true, false, not, ◌&&◌, ◌||◌, Option, none, some, List, [], ◌∷◌, ◌++◌, ◌==◌,
  if◌then◌else◌, is_empty, length,
}
use app_opt_r_plus.Prelude.Text.{Text, codes, text_eq, starts_with}
use app_opt_r_plus.Json.{Value, bool, str, object, Fields, end, field}
use app_opt_r_plus.Web.Request.{Request, request_read}

pub data Body : Type 0 where
  html : Body
  json : Value → Body

pub record Response : Type 0 where
  pub status : ℕ
  pub content_type : Text
  pub body : Body
  pub close : Bool

abbrev pub Answer : Type 0
Answer = ℕ × Value

unfoldable pub err_json : ℕ → Text → Answer
err_json code msg =
    (code, object (field (codes "ok") (bool false) (field (codes "err") (str msg) end)))

abbrev pub ok_json : Answer
ok_json = (200, object (field (codes "ok") (bool true) end))

-- The functions that `dispatch` calls, on a state `S`; two of them run loops, and `none` means that the fuel of a
-- loop ran out.
pub record Api (S : Type 0) : Type 0 where
  pub status_json : S → Value
  pub rules_json : S → Value
  pub config_json : S → Value
  pub tuning_json : S → Value
  pub rule_api : Request → S → Answer × S
  pub rule_del_api : Request → S → Option (Answer × S)
  pub rule_rename_api : Request → S → Option (Answer × S)
  pub rule_clone_api : Request → S → Answer × S
  pub config_set_api : Request → S → Answer × S
  pub tuning_set_api : Request → S → Answer × S
  pub suggest_api : Request → S → Answer

-- `strip_suffix(":8889")`, or the whole.
abbrev pub without_port : Text → Text
without_port [] = []
without_port (c ∷ s) = if text_eq (c ∷ s) (codes ":8889") then [] else c ∷ without_port s

abbrev pub is_local : Text → Bool
is_local host = text_eq host (codes "127.0.0.1") || text_eq host (codes "localhost")

abbrev pub is_post : Request → Bool
is_post req = text_eq req.method (codes "POST")

unfoldable pub origin_ok : Request → Bool
origin_ok req =
    is_local (without_port req.host)
    && (is_empty req.origin
        || text_eq req.origin (codes "null")
        || (is_empty req.fetch_site
            || text_eq req.fetch_site (codes "none")
            || text_eq req.fetch_site (codes "same-origin")))
    && (not (is_post req) || starts_with req.content_type (codes "application/json"))

abbrev pub json_response : Request → Answer → Response
json_response req (status, v) = record {
  status = status;
  content_type = codes "application/json";
  body = json v;
  close = not req.keep_alive;
}

abbrev pub forbidden : Response
unfolding err_json
forbidden = record {
  status = 403;
  content_type = codes "application/json";
  body = json (err_json 403 (codes "forbidden")).1;
  close = true;
}

abbrev pub index_page : Request → Response
index_page req = record {
  status = 200;
  content_type = codes "text/html; charset=utf-8";
  body = html;
  close = not req.keep_alive;
}

-- The routes by method and path.
pub data Route : Type 0 where
  status rules config tuning : Route
  rule rule_del rule_rename rule_clone config_set tuning_set suggest : Route
  not_found : Route

unfoldable pub get_route : Text → Route
get_route path =
    if text_eq path (codes "/api/status")
    then status
    else if text_eq path (codes "/api/rules")
    then rules
    else if text_eq path (codes "/api/config")
    then config
    else if text_eq path (codes "/api/tuning")
    then tuning
    else not_found

unfoldable pub post_route : Text → Route
post_route path =
    if text_eq path (codes "/api/rule")
    then rule
    else if text_eq path (codes "/api/rule/del")
    then rule_del
    else if text_eq path (codes "/api/rule/rename")
    then rule_rename
    else if text_eq path (codes "/api/rule/clone")
    then rule_clone
    else if text_eq path (codes "/api/config")
    then config_set
    else if text_eq path (codes "/api/tuning")
    then tuning_set
    else if text_eq path (codes "/api/suggest")
    then suggest
    else not_found

abbrev pub is_get : Request → Bool
is_get req = text_eq req.method (codes "GET")

unfoldable pub route_of : Request → Route
unfolding get_route post_route
route_of req =
    if is_get req
    then get_route req.path
    else if is_post req
    then post_route req.path
    else not_found

abbrev pub is_index : Text → Bool
is_index path = text_eq path (codes "/") || text_eq path (codes "/index.html")

module _ {S : Type 0} (api : Api S) where
  abbrev pub answer : Route → Request → S → Option (Answer × S)
  unfolding err_json
  answer status req s = some ((200, api.status_json s), s)
  answer rules req s = some ((200, api.rules_json s), s)
  answer config req s = some ((200, api.config_json s), s)
  answer tuning req s = some ((200, api.tuning_json s), s)
  answer rule req s = some (api.rule_api req s)
  answer rule_del req s = api.rule_del_api req s
  answer rule_rename req s = api.rule_rename_api req s
  answer rule_clone req s = some (api.rule_clone_api req s)
  answer config_set req s = some (api.config_set_api req s)
  answer tuning_set req s = some (api.tuning_set_api req s)
  answer suggest req s = some (api.suggest_api req s, s)
  answer not_found req s = some (err_json 404 (codes "not found"), s)

  abbrev pub responded : Request → Option (Answer × S) → Option (Response × S)
  responded req none = none
  responded req (some (a, s)) = some (json_response req a, s)

  unfoldable pub dispatch : Request → S → Option (Response × S)
  unfolding origin_ok route_of answer forbidden
  dispatch req s =
      if not (origin_ok req)
      then some (forbidden, s)
      else if is_get req && is_index req.path
      then some (index_page req, s)
      else responded req (answer (route_of req) req s)

  abbrev pub and_more : Response → Option (List Response × S) → Option (List Response × S)
  and_more r none = none
  and_more r (some (rs, s)) = some (r ∷ rs, s)

  abbrev pub sent :
      (List ℕ → S → Option (List Response × S))
      → Request
      → List ℕ
      → Option (Response × S)
      → Option (List Response × S)
  sent next req rest none = none
  sent next req rest (some (r, s)) =
      if not req.keep_alive then some (r ∷ [], s) else and_more r (next rest s)

  abbrev pub served :
      (List ℕ → S → Option (List Response × S))
      → S
      → Option (Request × List ℕ)
      → Option (List Response × S)
  unfolding dispatch
  served next s none = some ([], s)
  served next s (some (req, rest)) = sent next req rest (dispatch req s)

  -- The requests of one connection, in order, and the responses that are sent; `fuel` bounds the requests.
  unfoldable pub conn_handle : (List ℕ → Text) → ℕ → List ℕ → S → Option (List Response × S)
  unfolding served request_read
  conn_handle lossy zero bytes s = none
  conn_handle lossy (suc fuel) bytes s =
      served (λ rest s'. conn_handle lossy fuel rest s') s (request_read lossy bytes)
