-- ===== src/Admin/Http/Stable.antt =====
-- The parser's answer and the bytes that come later.
use affini_x.Base.{
  ℕ, zero, suc, ◌+◌, ◌-◌, ◌≤◌, ◌<◌, ◌≡◌, refl, sym, ap, ◌∙◌, Bool, true, false, Option, none, some,
  List, [], ◌∷◌, ◌++◌, ◌&&◌, arith, ltb, leb, ◌==◌, length, inl, inr, ◌⊎◌, if◌then◌else◌, take,
  drop, slice, length-append, length-take, take-append_left, drop-append_left, length-drop, dec_lt,
  dec_le,
}
use mathlib.Core.List.{append-nil}
use affini_x.Net.Protocol.{ParseResult, message, need_more, error, Result, ok, fail}
use affini_x.Admin.Http.{
  HttpRequest, HttpProto, crlf, starts_with, plus_one, find, parse, parse_at, parse_head, with_body,
}

starts_with-append :
    (p s t : List ℕ) → length p ≤ length s → starts_with p (s ++ t) ≡ starts_with p s
starts_with-append [] s t h = refl
starts_with-append (c ∷ p) [] t h = absurd (omega arith)
starts_with-append (c ∷ p) (x ∷ s) t h =
    ap (λ b. (x == c) && b) (starts_with-append p s t (omega arith))

and_second : (a b : Bool) → a && b ≡ true → b ≡ true
and_second true b e = e
and_second false b e = cc

zero_found : (i : ℕ) → Path (Option ℕ) (some 0) (some i) → i ≡ 0
zero_found i e = cc

suc_found : (i j : ℕ) → Path (Option ℕ) (some (suc j)) (some i) → i ≡ suc j
suc_found i j e = cc

starts_with-length : (p s : List ℕ) → starts_with p s ≡ true → length p ≤ length s
starts_with-length [] s e = omega arith
starts_with-length (c ∷ p) [] e = cc
starts_with-length (c ∷ p) (x ∷ s) e =
    omega (arith, starts_with-length p s (and_second (x == c) (starts_with p s) e))

-- What a search that succeeds has found: the pattern here, or in the rest.
abbrev Found : Bool → Option ℕ → ℕ → Type 0
Found b r i = ((b ≡ true) × (i ≡ 0)) ⊎ ((b ≡ false) × ((j : ℕ) × (r ≡ some j) × (i ≡ suc j)))

found :
    (b : Bool) (r : Option ℕ) (i : ℕ) → (if b then some 0 else plus_one r) ≡ some i → Found b r i
found true r i e = inl (refl, zero_found i e)
found false none i e = cc
found false (some j) i e = inr (refl, (j, refl, suc_found i j e))

find-length : (p s : List ℕ) (i : ℕ) → find p s ≡ some i → i + length p ≤ length s
unfolding find
find-length p [] i e = cc
find-length p (x ∷ s) i e = elim (found (starts_with p (x ∷ s)) (find p s) i e) [
  | inl q ↦ omega (arith, q.1, starts_with-length p (x ∷ s) q.0)
  | inr q ↦ omega (arith, q.1.2, find-length p s q.1.0 q.1.1)
]

find-append : (p s t : List ℕ) (i : ℕ) → find p s ≡ some i → find p (s ++ t) ≡ some i
unfolding find
find-append p [] t i e = cc
find-append p (x ∷ s) t i e = elim (found (starts_with p (x ∷ s)) (find p s) i e) [
  | inl q ↦
      rw (starts_with-append p (x ∷ s) t (starts_with-length p (x ∷ s) q.0))
        (rw q.0 (ap some (sym q.1)))
  | inr q ↦
      let fits : length p ≤ length (x ∷ s) = omega (arith, find-length p s q.1.0 q.1.1) in
      rw (starts_with-append p (x ∷ s) t fits)
        (rw q.0 (ap plus_one (find-append p s t q.1.0 q.1.1) ∙ ap some (sym q.1.2)))
]

take-append : (n : ℕ) (xs ys : List ℕ) → (t : List ℕ) × (take n (xs ++ ys) ≡ take n xs ++ t)
take-append zero xs ys = ([], refl)
take-append (suc n) [] ys = (take (suc n) ys, refl)
take-append (suc n) (x ∷ xs) ys = let r = take-append n xs ys in (r.0, ap (λ k. x ∷ k) r.1)

length-take-le : (n : ℕ) (xs : List ℕ) → length (take n xs) ≤ length xs
length-take-le zero xs = omega arith
length-take-le (suc n) [] = omega arith
length-take-le (suc n) (x ∷ xs) = omega (arith, length-take-le n xs)

-- What the answer to `inp` says of the answer to more bytes.
abbrev pub Foretells : HttpProto → List ℕ → List ℕ → ParseResult HttpRequest → Type 0
Foretells p inp more (message req k) =
    (parse p (inp ++ more) ≡ message req k)
    × (k ≤ length inp)
    × (length req.body ≡ req.content_length)
Foretells p inp more (error e) = parse p (inp ++ more) ≡ error e
Foretells p inp more (need_more n) =
    (0 < n) × (length more < n → parse p (inp ++ more) ≡ need_more (n - length more))

body-Foretells :
    (p : HttpProto) (inp more : List ℕ) (at : ℕ) (r : Result HttpRequest)
    → parse p (inp ++ more) ≡ with_body at r (inp ++ more)
    → at ≤ length inp
    → Foretells p inp more (with_body at r inp)
body-Foretells p inp more at (fail e) long le = long
body-Foretells p inp more at (ok req) long le =
    elim (dec_lt (length inp) (at + req.content_length)) [
      | yes lt ↦
          let e : ltb (length inp) (at + req.content_length) ≡ true = ground arith in
          rw e (
            omega (arith, lt),
            λ few.
                let f : ltb (length (inp ++ more)) (at + req.content_length) ≡ true =
                  ground (arith, few, length-append inp more) in
                long ∙ rw f (ap need_more (omega (arith, length-append inp more))),
          )
      | no ge ↦
          let e : ltb (length inp) (at + req.content_length) ≡ false = ground arith in
          let f : ltb (length (inp ++ more)) (at + req.content_length) ≡ false =
            ground (arith, length-append inp more) in
          let room : req.content_length ≤ length (drop at inp) =
            omega (arith, ge, length-drop at inp) in
          let b : slice (inp ++ more) at req.content_length ≡ slice inp at req.content_length =
            ap (take req.content_length) (drop-append_left at inp more le)
            ∙ take-append_left req.content_length (drop at inp) more room in
          rw e (
            long ∙ rw f (ap (λ k. message (record req { body = k }) (at + req.content_length)) b),
            omega (arith, ge),
            length-take req.content_length (drop at inp) room,
          )
    ]

empty_lem : (xs : List ℕ) → length xs < 1 → xs ≡ []
empty_lem [] h = refl
empty_lem (x ∷ xs) h = absurd (omega arith)

at-Foretells :
    (p : HttpProto) (inp more : List ℕ) (o : Option ℕ)
    → find (crlf ++ crlf) (take p.max_head inp) ≡ o
    → Foretells p inp more (parse_at p inp o)
unfolding parse
at-Foretells p inp more (some i) e =
    let t = take-append p.max_head inp more in
    let found' : find (crlf ++ crlf) (take p.max_head (inp ++ more)) ≡ some i =
      ap (find (crlf ++ crlf)) t.1 ∙ find-append (crlf ++ crlf) (take p.max_head inp) t.0 i e in
    let le : i + 4 ≤ length inp = omega (
      arith,
      find-length (crlf ++ crlf) (take p.max_head inp) i e,
      length-take-le p.max_head inp,
    ) in
    body-Foretells p inp more (i + 4) (parse_head p (take (i + 4) inp))
      (ap (parse_at p (inp ++ more)) found'
        ∙ ap (λ h. with_body (i + 4) (parse_head p h) (inp ++ more))
            (take-append_left (i + 4) inp more le))
      le
at-Foretells p inp more none e = elim (dec_le p.max_head (length inp)) [
  | yes le ↦
      let over : leb p.max_head (length inp) ≡ true = ground arith in
      let over' : leb p.max_head (length (inp ++ more)) ≡ true =
        ground (arith, length-append inp more) in
      let missed : find (crlf ++ crlf) (take p.max_head (inp ++ more)) ≡ none =
        ap (find (crlf ++ crlf)) (take-append_left p.max_head inp more le) ∙ e in
      rw over (ap (parse_at p (inp ++ more)) missed ∙ rw over' refl)
  | no gt ↦
      let under : leb p.max_head (length inp) ≡ false = ground arith in
      rw under (
        omega arith,
        λ few.
            let same : inp ++ more ≡ inp = ap (◌++◌ inp) (empty_lem more few) ∙ append-nil inp in
            ap (parse p) same
            ∙ ap (parse_at p inp) e
            ∙ rw under (ap need_more (omega (arith, few))),
      )
]

-- The parser's answer stands whatever bytes follow: a request that it found is found again, the same, lies
-- within the input and has a body of the length that its head names; an error stays that error; where it
-- names a number of bytes that it needs, the number is not 0, and while fewer have come the answer is the
-- rest of it.
pub parse-Foretells : (p : HttpProto) (inp more : List ℕ) → Foretells p inp more (parse p inp)
unfolding parse
parse-Foretells p inp more =
    at-Foretells p inp more (find (crlf ++ crlf) (take p.max_head inp)) refl
