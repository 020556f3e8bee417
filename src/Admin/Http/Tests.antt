-- ===== src/Admin/Http/Tests.antt =====
-- A request with a query and a body, whole and in two parts.
use affini_x.Base.{ℕ, ◌+◌, ◌≡◌, refl, List, [], ◌∷◌, ◌++◌, take, length}
use affini_x.Net.Protocol.{message, need_more, error}
use affini_x.Admin.Http.{
  HttpProto, HttpRequest, parse, parse_head, find, rfind, header_lines, header_line, iequals,
  parse_content_length, bad_request,
}
use affini_x.Admin.Http.Stable.{Foretells, parse-Foretells}

abbrev proto : HttpProto
proto = record { max_head = 64; max_body = 100 }

abbrev head : List ℕ
head =
    71 ∷ 69 ∷ 84 ∷ 32 ∷ 47 ∷ 97 ∷ 63 ∷ 98 ∷ 32 ∷ 72 ∷ 84 ∷ 84 ∷ 80 ∷ 47 ∷ 49 ∷ 46 ∷ 49 ∷ 13 ∷ 10
    ∷ 67 ∷ 111 ∷ 110 ∷ 116 ∷ 101 ∷ 110 ∷ 116 ∷ 45 ∷ 108 ∷ 101 ∷ 110 ∷ 103 ∷ 116 ∷ 104 ∷ 58 ∷ 32 ∷ 50
    ∷ 13 ∷ 10 ∷ 13 ∷ 10 ∷ []

abbrev hi : List ℕ
hi = 104 ∷ 105 ∷ []

abbrev request : HttpRequest
request = record {
  method = 71 ∷ 69 ∷ 84 ∷ [];
  path = 47 ∷ 97 ∷ [];
  query = 98 ∷ [];
  version = 72 ∷ 84 ∷ 84 ∷ 80 ∷ 47 ∷ 49 ∷ 46 ∷ 49 ∷ [];
  body = hi;
  content_length = 2;
}

whole_request : parse proto (head ++ hi) ≡ message request (length head + 2)
unfolding parse parse_head find rfind header_lines header_line iequals parse_content_length
whole_request = refl

half_body : parse proto (head ++ take 1 hi) ≡ need_more 1
unfolding parse parse_head find rfind header_lines header_line iequals parse_content_length
half_body = refl

-- "GET /\r\n\r\n".
no_version : parse proto (71 ∷ 69 ∷ 84 ∷ 32 ∷ 47 ∷ 13 ∷ 10 ∷ 13 ∷ 10 ∷ []) ≡ error bad_request
unfolding parse parse_head find rfind header_lines header_line iequals parse_content_length
no_version = refl

parse-Foretells_example : Foretells proto (head ++ hi) (take 1 hi) (parse proto (head ++ hi))
parse-Foretells_example = parse-Foretells proto (head ++ hi) (take 1 hi)
