-- ===== src/Http/Runs.antt =====
-- The theorems on HTTP messages at concrete inputs, and what the names of the tables look like.
use fatdog.Base.{ℕ, ◌+◌, ◌%◌, ◌≡◌, refl, [], ◌∷◌, ◌++◌, true}
use fatdog.Http.Strings.{Text, codes, case_insensitive_less}
use fatdog.Http.Fields.{assign}
use fatdog.Http.Method.{
  msearch, invalid_method, string_to_http_method, chars_to_http_method, http_method_to_string,
  http_status_to_string,
}
use fatdog.Http.Names.{methods_round_trip}
use fatdog.Http.Lookup.{IsSorted}
use fatdog.Http.Dump.{headers_lem, connection_unseen}
use fatdog.Http.{
  HttpRequest, new_request, new_response, get_header, set_header, del_header, set_response_header,
  dump_request, dump_response,
}

methods_round_trip_example :
    (string_to_http_method (http_method_to_string msearch) ≡ msearch)
    × (chars_to_http_method (http_method_to_string msearch ++ codes " /") ≡ msearch)
methods_round_trip_example = methods_round_trip msearch (codes " /") refl

abbrev request : HttpRequest
request = record (new_request 17 true) {
  headers = (codes "Accept", codes "*/*") ∷ (codes "Host", codes "a") ∷ [];
}

headers_lem_example :
    IsSorted (set_header (codes "HOST") (codes "b") request).headers
    × (get_header (codes "host") [] (set_header (codes "HOST") (codes "b") request) ≡ codes "b")
    × IsSorted (del_header (codes "HOST") request).headers
    × (get_header (codes "host") [] (del_header (codes "HOST") request) ≡ [])
unfolding case_insensitive_less
headers_lem_example =
    headers_lem request (codes "HOST") (codes "b") (codes "host") [] ((refl, tt), (tt, tt))

-- A writer of numbers that has one digit.
abbrev digit : ℕ → Text
digit n = (48 + n % 10) ∷ []

connection_unseen_example :
    (dump_request digit (set_header (codes "Connection") (codes "x") request)
      ≡ dump_request digit request)
    × (dump_response digit
          (set_response_header (codes "Connection") (codes "x") (new_response 17 true))
        ≡ dump_response digit (new_response 17 true))
connection_unseen_example =
    connection_unseen digit request (new_response 17 true) (codes "Connection") (codes "x") refl

-- The stringized arguments keep the blanks around their dashes: M-SEARCH is not known.
m_search : string_to_http_method (codes "M-SEARCH") ≡ invalid_method
unfolding string_to_http_method
m_search = refl

multi_status : http_status_to_string 207 ≡ codes "Multi - Status"
unfolding http_status_to_string
multi_status = refl

-- A header content-length is written beside the one of the body.
two_lengths :
    dump_request digit (
      set_header
        (codes "content-length")
        (codes "9")
        (record (new_request 17 true) { body = 1 ∷ [] }))
    ≡ codes "GET / HTTP/1.1"
      ++ 13 ∷ 10 ∷ codes "connection: close"
      ++ 13 ∷ 10 ∷ codes "content-length:9"
      ++ 13 ∷ 10 ∷ codes "content-length: 1"
      ++ 13 ∷ 10 ∷ 13 ∷ 10 ∷ 1 ∷ []
unfolding dump_request set_header assign http_method_to_string
two_lengths = refl
