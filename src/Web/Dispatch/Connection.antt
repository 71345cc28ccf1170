-- ===== src/Web/Dispatch/Connection.antt =====
-- AppOptR/src/web.rs, `conn_handle`: what a connection is, as a relation that has no fuel.
use app_opt_r_plus.Prelude.{
  ℕ, zero, suc, ◌<◌, ◌≤◌, ◌≡◌, refl, sym, ap, true, false, not, Option, none, some, List, [], ◌∷◌,
  ◌++◌, length, arith, if_cases, length-append,
}
use app_opt_r_plus.Prelude.Text.{Text}
use app_opt_r_plus.Web.Request.{Request, request_read}
use app_opt_r_plus.Web.Request.Limits.{Given, IsRead, request_read-IsRead}
use app_opt_r_plus.Web.Dispatch.{Api, Response, dispatch, and_more, sent, served, conn_handle}

module _ {S : Type 0} (api : Api S) (lossy : List ℕ → Text) where
  -- The requests in the bytes are answered one by one, each in the state that the one before it left, up to the
  -- first that does not keep the connection or to the bytes that are no request.
  pub data Serves : List ℕ → S → List Response → S → Type 0 where
    ended : (bytes : List ℕ) (s : S) → request_read lossy bytes ≡ none → Serves bytes s [] s
    closed :
        (bytes : List ℕ) (s : S) (req : Request) (rest : List ℕ) (r : Response) (s₁ : S)
        → request_read lossy bytes ≡ some (req, rest)
        → dispatch api req s ≡ some (r, s₁)
        → req.keep_alive ≡ false
        → Serves bytes s (r ∷ []) s₁
    kept :
        (bytes : List ℕ) (s : S) (req : Request) (rest : List ℕ) (r : Response) (s₁ : S)
        (rs : List Response) (s₂ : S)
        → request_read lossy bytes ≡ some (req, rest)
        → dispatch api req s ≡ some (r, s₁)
        → req.keep_alive ≡ true
        → Serves rest s₁ rs s₂
        → Serves bytes s (r ∷ rs) s₂

  -- A request that is reached in this way has no answer: its handler runs out of its own fuel.
  pub data Stuck : List ℕ → S → Type 0 where
    at_once :
        (bytes : List ℕ) (s : S) (req : Request) (rest : List ℕ)
        → request_read lossy bytes ≡ some (req, rest)
        → dispatch api req s ≡ none
        → Stuck bytes s
    later :
        (bytes : List ℕ) (s : S) (req : Request) (rest : List ℕ) (r : Response) (s₁ : S)
        → request_read lossy bytes ≡ some (req, rest)
        → dispatch api req s ≡ some (r, s₁)
        → req.keep_alive ≡ true
        → Stuck rest s₁
        → Stuck bytes s

  abbrev pub Handled : List ℕ → S → Option (List Response × S) → Type 0
  Handled bytes s none = Stuck bytes s
  Handled bytes s (some (rs, s')) = Serves bytes s rs s' × (length rs ≤ length bytes)

read_less :
    (bytes : List ℕ) (req : Request) (rest : List ℕ)
    → IsRead bytes (req, rest)
    → length rest < length bytes
read_less bytes req rest (l, (p, e, n)) = omega (
  arith,
  ap (λ (x : List ℕ). length x) (sym e),
  length-append p (req.body ++ rest),
  length-append req.body rest,
)

module _ {S : Type 0} (api : Api S) (lossy : List ℕ → Text) (bytes : List ℕ) (s : S) (req : Request)
    (rest : List ℕ) (e : request_read lossy bytes ≡ some (req, rest))
    (l : length rest < length bytes) where
  and_more-Handled :
      (r : Response) (s₁ : S) (o : Option (List Response × S))
      → dispatch api req s ≡ some (r, s₁)
      → req.keep_alive ≡ true
      → Handled api lossy rest s₁ o
      → Handled api lossy bytes s (and_more api r o)
  and_more-Handled r s₁ none d k h = later bytes s req rest r s₁ e d k h
  and_more-Handled r s₁ (some (rs, s₂)) d k h =
      (kept bytes s req rest r s₁ rs s₂ e d k h.0, omega (arith, l, h.1))

  sent-Handled :
      (next : List ℕ → S → Option (List Response × S)) (o : Option (Response × S))
      → dispatch api req s ≡ o
      → ((s₁ : S) → Handled api lossy rest s₁ (next rest s₁))
      → Handled api lossy bytes s (sent api next req rest o)
  sent-Handled next none d h = at_once bytes s req rest e d
  sent-Handled next (some (r, s₁)) d h =
      if_cases (Handled api lossy bytes s) (not req.keep_alive)
        (λ k. (closed bytes s req rest r s₁ e d (ground (arith, k)), omega (arith, l)))
        (λ k. and_more-Handled r s₁ (next rest s₁) d (ground (arith, k)) (h s₁))

module _ {S : Type 0} (api : Api S) (lossy : List ℕ → Text) where
  served-Handled :
      (next : List ℕ → S → Option (List Response × S)) (bytes : List ℕ) (s : S)
      (o : Option (Request × List ℕ))
      → request_read lossy bytes ≡ o
      → Given (IsRead bytes) o
      → ((rest : List ℕ) (s' : S)
          → length rest < length bytes
          → Handled api lossy rest s' (next rest s'))
      → Handled api lossy bytes s (served api next s o)
  unfolding served
  served-Handled next bytes s none e g h = (ended bytes s e, omega arith)
  served-Handled next bytes s (some (req, rest)) e g h =
      let l = read_less bytes req rest g in
      sent-Handled api lossy bytes s req rest e l next (dispatch api req s) refl (λ s'. h rest s' l)

-- Fuel above the number of bytes is enough for a connection. If `conn_handle` returns responses and a state, they are
-- those of the requests in the bytes, answered in order, each in the state that the one before it left, up to the first
-- that does not keep the connection or to bytes that are no request, and there are no more responses than bytes. If
-- it returns none, a request is reached in this way for which `dispatch` has no answer.
pub conn_handle-Handled :
    {S : Type 0} (api : Api S) (lossy : List ℕ → Text) (fuel : ℕ) (bytes : List ℕ) (s : S)
    → length bytes < fuel
    → Handled api lossy bytes s (conn_handle api lossy fuel bytes s)
unfolding conn_handle
conn_handle-Handled api lossy zero bytes s h = absurd (omega (arith, h))
conn_handle-Handled api lossy (suc fuel) bytes s h =
    served-Handled api lossy (λ rest s'. conn_handle api lossy fuel rest s') bytes s
      (request_read lossy bytes) refl (request_read-IsRead lossy bytes (suc fuel) h).1
      (λ rest s' l. conn_handle-Handled api lossy fuel rest s' (omega (arith, l, h)))
