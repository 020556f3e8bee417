-- ===== src/Admin/Http.antt =====
-- src/admin/http.cpp and HttpProto of include/afx/admin/http.hpp: the parser of a request's head. Characters
-- are their codes.
pub mod Stable
mod Tests
use affini_x.Base.{
  ℕ, zero, suc, ◌+◌, ◌-◌, ◌*◌, ◌/◌, ◌%◌, Bool, true, false, not, Option, none, some, List, [], ◌∷◌,
  ◌++◌, ◌&&◌, ◌||◌, ltb, leb, ◌==◌, if◌then◌else◌, length, take, drop, slice, reverse,
}
use affini_x.Net.Protocol.{ParseResult, message, need_more, error, Result, ok, fail}

pub record HttpRequest : Type 0 where
  pub method : List ℕ
  pub path : List ℕ
  pub query : List ℕ
  pub version : List ℕ
  pub body : List ℕ
  pub content_length : ℕ

pub record HttpProto : Type 0 where
  pub max_head : ℕ
  pub max_body : ℕ

-- `Err::Invalid` and `Err::FrameTooLarge`.
abbrev pub bad_request : ℕ
bad_request = 6

abbrev pub frame_too_large : ℕ
frame_too_large = 11

abbrev pub crlf : List ℕ
crlf = 13 ∷ 10 ∷ []

abbrev pub space : ℕ
space = 32

abbrev pub colon : ℕ
colon = 58

abbrev pub question_mark : ℕ
question_mark = 63

abbrev pub starts_with : List ℕ → List ℕ → Bool
starts_with [] s = true
starts_with (c ∷ p) [] = false
starts_with (c ∷ p) (x ∷ s) = (x == c) && starts_with p s

abbrev pub plus_one : Option ℕ → Option ℕ
plus_one none = none
plus_one (some i) = some (suc i)

-- The place of the first occurrence of `p`, which is not empty.
pub find : List ℕ → List ℕ → Option ℕ
find p [] = none
find p (x ∷ s) = let rest = find p s in if starts_with p (x ∷ s) then some 0 else plus_one rest

-- The place of the last occurrence of a character.
abbrev pub or_here : Bool → Option ℕ → Option ℕ
or_here b (some i) = some (suc i)
or_here true none = some 0
or_here false none = none

pub rfind : ℕ → List ℕ → Option ℕ
rfind c [] = none
rfind c (x ∷ s) = or_here (x == c) (rfind c s)

-- `c | 0x20`.
abbrev pub lower : ℕ → ℕ
lower c = if (c / 32) % 2 == 0 then c + 32 else c

pub iequals : List ℕ → List ℕ → Bool
iequals [] [] = true
iequals (x ∷ a) (y ∷ b) = (lower x == lower y) && iequals a b
iequals a b = false

abbrev pub is_blank : ℕ → Bool
is_blank c = (c == 32) || (c == 9)

abbrev pub trim_front : List ℕ → List ℕ
trim_front [] = []
trim_front (x ∷ s) = let rest = trim_front s in if is_blank x then rest else x ∷ s

abbrev pub trim : List ℕ → List ℕ
trim s = reverse (trim_front (reverse (trim_front s)))

abbrev pub digits : List ℕ → ℕ → Option ℕ
digits [] n = some n
digits (c ∷ s) n =
    let rest = digits s (n * 10 + (c - 48)) in if ltb c 48 || ltb 57 c then none else rest

abbrev pub trimmed_length : List ℕ → Option ℕ
trimmed_length [] = none
trimmed_length (c ∷ s) = if ltb 10 (length (c ∷ s)) then none else digits (c ∷ s) 0

pub parse_content_length : List ℕ → Option ℕ
parse_content_length v = trimmed_length (trim v)

-- "content-length".
abbrev pub content_length_name : List ℕ
content_length_name =
    99 ∷ 111 ∷ 110 ∷ 116 ∷ 101 ∷ 110 ∷ 116 ∷ 45 ∷ 108 ∷ 101 ∷ 110 ∷ 103 ∷ 116 ∷ 104 ∷ []

abbrev pub length_or : Option ℕ → Result ℕ
length_or none = fail bad_request
length_or (some m) = ok m

-- What one line of the head makes of the length so far.
abbrev pub header_at : List ℕ → Option ℕ → ℕ → Result ℕ
header_at h none n = ok n
header_at h (some i) n =
    if iequals (take i h) content_length_name
    then length_or (parse_content_length (drop (i + 1) h))
    else ok n

pub header_line : List ℕ → ℕ → Result ℕ
unfolding find iequals parse_content_length
header_line h n = header_at h (find (colon ∷ []) h) n

abbrev pub and_then : Result ℕ → (ℕ → Result ℕ) → Result ℕ
and_then (fail e) f = fail e
and_then (ok n) f = f n

-- The lines of the head from a place on, whose rest is `s`; every line takes at least the two characters
-- of its end, so a round for each character is enough.
pub header_lines : ℕ → List ℕ → ℕ → Result ℕ
unfolding header_line
header_lines zero s n = ok n
header_lines (suc fuel) s n = if leb (length s) 2 then ok n else elim (find crlf s) [
  | none ↦ ok n
  | some i ↦ and_then (header_line (take i s) n) (λ m. header_lines fuel (drop (i + 2) s) m)
]

abbrev pub split_query : List ℕ → Option ℕ → List ℕ × List ℕ
split_query target none = (target, [])
split_query target (some q) = (take q target, drop (q + 1) target)

-- The request of a head but for its body; `max_body` bounds the length of that.
abbrev pub with_length : HttpProto → HttpRequest → Result ℕ → Result HttpRequest
with_length p req (fail e) = fail e
with_length p req (ok n) =
    if ltb p.max_body n then fail frame_too_large else ok (record req { content_length = n })

abbrev pub request_line : List ℕ → ℕ → ℕ → HttpRequest
request_line line sp1 sp2 =
    let target = slice line (sp1 + 1) (sp2 - sp1 - 1) in
    let parts = split_query target (find (question_mark ∷ []) target) in
    record {
      method = take sp1 line;
      path = parts.0;
      query = parts.1;
      version = drop (sp2 + 1) line;
      body = [];
      content_length = 0;
    }

abbrev pub parse_line : HttpProto → List ℕ → List ℕ → Option ℕ → Option ℕ → Result HttpRequest
parse_line p line rest (some sp1) (some sp2) =
    if sp2 == sp1
    then fail bad_request
    else with_length p (request_line line sp1 sp2) (header_lines (length rest) rest 0)
parse_line p line rest sp1 sp2 = fail bad_request

abbrev pub parse_eol : HttpProto → List ℕ → Option ℕ → Result HttpRequest
parse_eol p head none = fail bad_request
parse_eol p head (some eol) =
    let line = take eol head in
    parse_line p line (drop (eol + 2) head) (find (space ∷ []) line) (rfind space line)

pub parse_head : HttpProto → List ℕ → Result HttpRequest
unfolding find rfind header_lines
parse_head p head = parse_eol p head (find crlf head)

abbrev pub with_body : ℕ → Result HttpRequest → List ℕ → ParseResult HttpRequest
with_body head_end (fail e) inp = error e
with_body head_end (ok req) inp =
    let total = head_end + req.content_length in
    if ltb (length inp) total
    then need_more (total - length inp)
    else message (record req { body = slice inp head_end req.content_length }) total

-- `at` is where the empty line that ends the head was found, less the four characters of it.
abbrev pub parse_at : HttpProto → List ℕ → Option ℕ → ParseResult HttpRequest
parse_at p inp none = if leb p.max_head (length inp) then error frame_too_large else need_more 1
parse_at p inp (some i) = with_body (i + 4) (parse_head p (take (i + 4) inp)) inp

pub parse : HttpProto → List ℕ → ParseResult HttpRequest
unfolding parse_head
parse p inp = parse_at p inp (find (crlf ++ crlf) (take p.max_head inp))
