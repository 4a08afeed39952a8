-- ===== src/Http/Dump.antt =====
-- The headers of a message, as they are asked for and as they are written.
use fatdog.Base.{
  ℕ, ◌≡◌, refl, ap, ◌∙◌, List, [], ◌∷◌, ◌++◌, Option, none, some, Bool, true, false, if◌then◌else◌,
  inl, inr, Bool-cases,
}
use fatdog.Http.Strings.{Text, codes, c_str, folded, same_text, case_insensitive_less}
use fatdog.Http.Fields.{Entry, find, assign}
use fatdog.Http.Order.{same_key, same_but_case, same_key-same_but_case, same_key-folded}
use fatdog.Http.Lookup.{IsSorted, find-assign, find-erase, assign-IsSorted, erase-IsSorted}
use fatdog.Http.{
  HttpRequest, HttpResponse, value_or, get_header, set_header, del_header, crlf, is_connection,
  header_lines, dump_request, dump_response, set_response_header,
}

value_or-if :
    (b : Bool) (def : Text) (o p : Option Text)
    → value_or def (if b then o else p) ≡ (if b then value_or def o else value_or def p)
value_or-if true def o p = refl
value_or-if false def o p = refl

-- On a request whose headers are in the order of CaseInsensitiveLess, setHeader and delHeader keep
-- that order. Behind setHeader, getHeader of a key that is the same up to its first NUL, byte by
-- byte but for the case of the letters A to Z, returns the value, and of any other key what it
-- returned before; behind delHeader it returns the default for such a key, and for any other what
-- it returned before.
pub headers_lem :
    (r : HttpRequest) (key val other def : Text)
    → IsSorted r.headers
    → IsSorted (set_header key val r).headers
      × (get_header other def (set_header key val r)
          ≡ (if same_but_case (c_str key) (c_str other) then val else get_header other def r))
      × IsSorted (del_header key r).headers
      × (get_header other def (del_header key r)
          ≡ (if same_but_case (c_str key) (c_str other) then def else get_header other def r))
unfolding get_header set_header del_header
headers_lem r key val other def sorted = (
  assign-IsSorted key val r.headers sorted,
  ap (value_or def) (find-assign key val other r.headers)
      ∙ value_or-if (same_key key other) def (some val) (find other r.headers)
      ∙ ap (λ b. if b then val else get_header other def r) (same_key-same_but_case key other),
  erase-IsSorted key r.headers sorted,
  ap (value_or def) (find-erase key other r.headers sorted)
      ∙ value_or-if (same_key key other) def none (find other r.headers)
      ∙ ap (λ b. if b then def else get_header other def r) (same_key-same_but_case key other),
)

header_lines-assign :
    (colon key val : Text) (es : List Entry)
    → is_connection key ≡ true
    → header_lines colon (assign key val es) ≡ header_lines colon es
unfolding assign
header_lines-assign colon key val [] h = rw h refl
header_lines-assign colon key val (e ∷ es) h = elim (Bool-cases (case_insensitive_less e.0 key)) [
  | inl before ↦ rw before (
      ap (λ t. (if is_connection e.0 then [] else e.0 ++ colon ++ e.1 ++ crlf) ++ t)
        (header_lines-assign colon key val es h))
  | inr o ↦ elim (Bool-cases (case_insensitive_less key e.0)) [
    | inl beyond ↦ rw (o, beyond) (rw h refl)
    | inr same ↦
        let e_too : is_connection e.0 ≡ true =
          ap (λ f. same_text f (folded (codes "connection"))) (same_key-folded e.0 key o same)
          ∙ h in
        rw (o, same) (rw e_too refl)
  ]
]

-- dump of a request, and of a response, is the same behind setHeader of a key that is `connection`
-- but for its case, whatever the value and the other headers are: only isClose is written.
pub connection_unseen :
    (decimal : ℕ → Text) (r : HttpRequest) (s : HttpResponse) (key val : Text)
    → is_connection key ≡ true
    → (dump_request decimal (set_header key val r) ≡ dump_request decimal r)
      × (dump_response decimal (set_response_header key val s) ≡ dump_response decimal s)
unfolding dump_request set_header dump_response set_response_header
connection_unseen decimal r s key val h = (
  rw (header_lines-assign (codes ":") key val r.headers h) refl,
  rw (header_lines-assign (codes ": ") key val s.headers h) refl,
)
