-- ===== src/Web/Request/Limits.antt =====
-- AppOptR/src/web.rs, `request_read`: the fuel of its loop, the body and the bytes that are left.
use app_opt_r_plus.Prelude.{
  ℕ, zero, suc, ◌+◌, ◌≤◌, ◌<◌, ◌≡◌, refl, ◌∙◌, sym, ap, false, Option, none, some, List, [], ◌∷◌,
  ◌++◌, ltb, if◌then◌else◌, is_empty, length, take, drop, arith, Bool-cases, inl, inr, append_assoc,
  length-append, if_cases,
}
use app_opt_r_plus.Prelude.Text.{Text, split, split_whitespace, lines}
use app_opt_r_plus.Web.Request.{
  Request, request_read, read_head, read_line, with_lines, with_words, with_body, with_fields,
  of_head_lines, Heads, blank, head_fields, no_heads, before_query, version_of,
}

ltb_lem : (a b : ℕ) → ltb a b ≡ false → b ≤ a
ltb_lem a b h = ground arith

-- A line and the bytes behind it are the bytes.
read_line-append : (bs : List ℕ) → (read_line bs).0 ++ (read_line bs).1 ≡ bs
unfolding read_line
read_line-append [] = refl
read_line-append (b ∷ bs) = ground (arith, read_line-append bs)

-- What holds of an answer, if there is one.
abbrev pub Given : {A : Type 0} → (A → Type 0) → Option A → Type 0
Given P none = Unit
Given P (some a) = P a

take-drop : (n : ℕ) (bs : List ℕ) → take n bs ++ drop n bs ≡ bs
take-drop zero bs = refl
take-drop (suc n) [] = refl
take-drop (suc n) (b ∷ bs) = ap (λ x. b ∷ x) (take-drop n bs)

length-take : (n : ℕ) (bs : List ℕ) → length (take n bs) ≤ n
length-take zero bs = omega arith
length-take (suc n) [] = omega arith
length-take (suc n) (b ∷ bs) = omega (arith, length-take n bs)

read_line-length : (bs : List ℕ) → length (read_line bs).0 + length (read_line bs).1 ≡ length bs
read_line-length bs =
    sym (length-append (read_line bs).0 (read_line bs).1)
    ∙ ap (λ (x : List ℕ). length x) (read_line-append bs)

line_ne : (line : List ℕ) → is_empty line ≡ false → 0 < length line
line_ne [] h = absurd (cc h)
line_ne (b ∷ line) h = omega arith

-- All fuels above the number of bytes give the same.
read_head-fuel :
    (f f' : ℕ) (head bytes : List ℕ)
    → length bytes < f
    → length bytes < f'
    → read_head f head bytes ≡ read_head f' head bytes
unfolding read_head
read_head-fuel zero f' head bytes h h' = absurd (omega (arith, h))
read_head-fuel (suc f) zero head bytes h h' = absurd (omega (arith, h'))
read_head-fuel (suc f) (suc f') head bytes h h' = elim (Bool-cases (is_empty (read_line bytes).0)) [
  | inl e ↦ rw (e, if◌then◌else◌) refl
  | inr e ↦
      let (line, rest) = read_line bytes in
      let n : length rest + 1 ≤ length bytes =
        omega (arith, read_line-length bytes, line_ne line e) in
      rw (read_head-fuel f f' (head ++ line) rest (omega (arith, n, h)) (omega (arith, n, h'))) refl
]

-- The head and the bytes behind it, of bytes that hold both.
abbrev IsHead : List ℕ → List ℕ × List ℕ → Type 0
IsHead bytes (head, rest) =
    (length head ≤ 8192) × ((p : List ℕ) × (p ++ rest ≡ bytes) × (0 < length p))

-- A line in front of what has a head.
more-IsHead :
    (bytes line rest : List ℕ) (o : Option (List ℕ × List ℕ))
    → line ++ rest ≡ bytes
    → Given (IsHead rest) o
    → Given (IsHead bytes) o
more-IsHead bytes line rest none e h = tt
more-IsHead bytes line rest (some (head, left)) e (n, (p, q, l)) = (
  n,
  (
    line ++ p,
    append_assoc line p left ∙ (ap (λ x. line ++ x) q ∙ e),
    omega (arith, l, length-append line p),
  ),
)

read_head-IsHead :
    (fuel : ℕ) (head bytes : List ℕ)
    → length head ≤ 8192
    → Given (IsHead bytes) (read_head fuel head bytes)
unfolding read_head
read_head-IsHead zero head bytes h = tt
read_head-IsHead (suc fuel) head bytes h =
    let (line, rest) = read_line bytes in
    if_cases (Given (IsHead bytes)) (is_empty line) (λ e. tt)
      (λ e.
        if_cases (Given (IsHead bytes)) (blank line)
          (λ b. (h, (line, read_line-append bytes, line_ne line e)))
          (λ b.
            if_cases (Given (IsHead bytes)) (ltb 8192 (length (head ++ line))) (λ l. tt)
              (λ l.
                more-IsHead bytes line rest (read_head fuel (head ++ line) rest)
                  (read_line-append bytes)
                  (read_head-IsHead fuel (head ++ line) rest (ground (arith, l))))))

-- A request, whose body is limited, and the bytes that it leaves.
abbrev pub IsRead : List ℕ → Request × List ℕ → Type 0
IsRead bytes (req, left) =
    (length req.body ≤ 16384) × ((p : List ℕ) × (p ++ (req.body ++ left) ≡ bytes) × (0 < length p))

with_body-IsRead :
    (bytes p rest : List ℕ) (method path version : Text) (h : Heads)
    → p ++ rest ≡ bytes
    → 0 < length p
    → Given (IsRead bytes) (with_body method path version rest h)
with_body-IsRead bytes p rest method path version h e l =
    if_cases (Given (IsRead bytes)) (ltb 16384 h.len) (λ b. tt)
      (λ b.
        if_cases (Given (IsRead bytes)) (ltb (length rest) h.len) (λ c. tt)
          (λ c. (
            omega (arith, length-take h.len rest, ltb_lem 16384 h.len b),
            (p, ap (λ x. p ++ x) (take-drop h.len rest) ∙ e, l),
          )))

with_words-IsRead :
    (bytes p rest : List ℕ) (ws ls : List Text)
    → p ++ rest ≡ bytes
    → 0 < length p
    → Given (IsRead bytes) (with_words ws ls rest)
unfolding with_words
with_words-IsRead bytes p rest [] ls e l = tt
with_words-IsRead bytes p rest (m ∷ []) ls e l = tt
with_words-IsRead bytes p rest (m ∷ w ∷ ws) ls e l = fields (head_fields ls no_heads)
  where
    fields : (o : Option Heads) → Given (IsRead bytes) (with_fields m w ws rest o)
    fields none = tt
    fields (some h) =
        with_body-IsRead bytes p rest m (before_query (split b'?' w)) (version_of ws) h e l

with_lines-IsRead :
    (bytes p rest : List ℕ) (ls : List Text)
    → p ++ rest ≡ bytes
    → 0 < length p
    → Given (IsRead bytes) (with_lines ls rest)
unfolding with_lines
with_lines-IsRead bytes p rest [] e l = tt
with_lines-IsRead bytes p rest (l ∷ ls) e n =
    with_words-IsRead bytes p rest (split_whitespace l) ls e n

-- The number of bytes is fuel enough for the loop over the header lines: any fuel above it gives the same. A
-- request that is read has a body of at most 16384 bytes, and the bytes that are left for the next one are those
-- behind the body, with at least one byte in front of it.
pub request_read-IsRead :
    (lossy : List ℕ → Text) (bytes : List ℕ) (fuel : ℕ)
    → length bytes < fuel
    → (read_head fuel [] bytes ≡ read_head (suc (length bytes)) [] bytes)
      × Given (IsRead bytes) (request_read lossy bytes)
unfolding request_read
request_read-IsRead lossy bytes fuel h = (
  read_head-fuel fuel (suc (length bytes)) [] bytes h (omega arith),
  of_head (read_head (suc (length bytes)) [] bytes)
      (read_head-IsHead (suc (length bytes)) [] bytes (omega arith)),
)
  where
    of_head :
        (o : Option (List ℕ × List ℕ))
        → Given (IsHead bytes) o
        → Given (IsRead bytes) (of_head_lines lossy o)
    of_head none h = tt
    of_head (some (head, rest)) (n, (p, e, l)) =
        with_lines-IsRead bytes p rest (lines (lossy head)) e l
