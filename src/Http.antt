-- ===== src/Http.antt =====
-- fatdog/http/http.cpp and http.h: HTTP requests and responses. What operator<< writes of a number
-- is a parameter.
pub mod Strings
pub mod Method
pub mod Names
pub mod Fields
pub mod Order
pub mod Lookup
pub mod Dump
pub mod Access
mod Runs
use fatdog.Base.{
  ℕ, ◌/◌, ◌%◌, List, [], ◌∷◌, ◌++◌, Option, none, some, Bool, true, false, if◌then◌else◌, length,
}
use fatdog.Http.Strings.{Text, codes, folded, same_text}
use fatdog.Http.Method.{HttpMethod, get, http_method_to_string, http_status_to_string}
use fatdog.Http.Fields.{Entry, find, assign, erase}

pub record HttpRequest : Type 0 where
  pub method : HttpMethod
  pub version : ℕ
  pub close : Bool
  pub path : Text
  pub query : Text
  pub fragment : Text
  pub body : Text
  pub headers : List Entry
  pub params : List Entry
  pub cookies : List Entry

-- HttpRequest(version, close)
abbrev pub new_request : ℕ → Bool → HttpRequest
new_request version close = record {
  method = get;
  version = version;
  close = close;
  path = codes "/";
  query = [];
  fragment = [];
  body = [];
  headers = [];
  params = [];
  cookies = [];
}

abbrev pub value_or : Text → Option Text → Text
value_or def none = def
value_or def (some val) = val

-- getHeader(key, def), getParam and getCookie
unfoldable pub get_header : Text → Text → HttpRequest → Text
get_header key def r = value_or def (find key r.headers)

unfoldable pub get_param : Text → Text → HttpRequest → Text
get_param key def r = value_or def (find key r.params)

unfoldable pub get_cookie : Text → Text → HttpRequest → Text
get_cookie key def r = value_or def (find key r.cookies)

-- setHeader(key, val), setParam and setCookie
unfoldable pub set_header : Text → Text → HttpRequest → HttpRequest
set_header key val r = record r { headers = assign key val r.headers }

unfoldable pub set_param : Text → Text → HttpRequest → HttpRequest
set_param key val r = record r { params = assign key val r.params }

unfoldable pub set_cookie : Text → Text → HttpRequest → HttpRequest
set_cookie key val r = record r { cookies = assign key val r.cookies }

-- delHeader(key), delParam and delCookie
unfoldable pub del_header : Text → HttpRequest → HttpRequest
del_header key r = record r { headers = erase key r.headers }

unfoldable pub del_param : Text → HttpRequest → HttpRequest
del_param key r = record r { params = erase key r.params }

unfoldable pub del_cookie : Text → HttpRequest → HttpRequest
del_cookie key r = record r { cookies = erase key r.cookies }

-- hasHeader(key, val), with *val behind it; hasParam and hasCookie
abbrev pub has_value : Text → Option Text → Bool × Text
has_value val none = (false, val)
has_value val (some found) = (true, found)

unfoldable pub has_header : Text → Text → HttpRequest → Bool × Text
has_header key val r = has_value val (find key r.headers)

unfoldable pub has_param : Text → Text → HttpRequest → Bool × Text
has_param key val r = has_value val (find key r.params)

unfoldable pub has_cookie : Text → Text → HttpRequest → Bool × Text
has_cookie key val r = has_value val (find key r.cookies)

pub record HttpResponse : Type 0 where
  pub status : ℕ
  pub version : ℕ
  pub close : Bool
  pub body : Text
  pub reason : Text
  pub headers : List Entry

-- HttpResponse(version, close)
abbrev pub new_response : ℕ → Bool → HttpResponse
new_response version close = record {
  status = 200;
  version = version;
  close = close;
  body = [];
  reason = [];
  headers = [];
}

-- getHeader, setHeader and delHeader of a response
unfoldable pub get_response_header : Text → Text → HttpResponse → Text
get_response_header key def r = value_or def (find key r.headers)

unfoldable pub set_response_header : Text → Text → HttpResponse → HttpResponse
set_response_header key val r = record r { headers = assign key val r.headers }

unfoldable pub del_response_header : Text → HttpResponse → HttpResponse
del_response_header key r = record r { headers = erase key r.headers }

abbrev pub crlf : Text
crlf = 13 ∷ 10 ∷ []

abbrev pub is_empty : Text → Bool
is_empty [] = true
is_empty (c ∷ s) = false

-- strcasecmp(key, "connection") == 0
abbrev pub is_connection : Text → Bool
is_connection key = same_text (folded key) (folded (codes "connection"))

-- The lines of the headers, but for the connection.
abbrev pub header_lines : Text → List Entry → Text
header_lines colon [] = []
header_lines colon (e ∷ es) =
    (if is_connection e.0 then [] else e.0 ++ colon ++ e.1 ++ crlf) ++ header_lines colon es

abbrev pub connection_line : Bool → Text
connection_line close =
    codes "connection: " ++ (if close then codes "close" else codes "keep-alive") ++ crlf

module _ (decimal : ℕ → Text) where
  abbrev pub version_text : ℕ → Text
  version_text version = decimal (version / 16) ++ codes "." ++ decimal (version % 16)

  -- The end of dump: the length and the body.
  abbrev pub body_part : Text → Text
  body_part body =
      if is_empty body
      then crlf
      else codes "content-length: " ++ decimal (length body) ++ crlf ++ crlf ++ body

  -- HttpRequest::dump(os)
  unfoldable pub dump_request : HttpRequest → Text
  dump_request r =
      http_method_to_string r.method
      ++ codes " "
      ++ r.path
      ++ (if is_empty r.query then [] else codes "?")
      ++ r.query
      ++ (if is_empty r.fragment then [] else codes "#")
      ++ r.fragment
      ++ codes " HTTP/"
      ++ version_text r.version
      ++ crlf
      ++ connection_line r.close
      ++ header_lines (codes ":") r.headers
      ++ body_part r.body

  -- HttpResponse::dump(os)
  unfoldable pub dump_response : HttpResponse → Text
  dump_response r =
      codes "HTTP/"
      ++ version_text r.version
      ++ codes " "
      ++ decimal r.status
      ++ codes " "
      ++ (if is_empty r.reason then http_status_to_string r.status else r.reason)
      ++ crlf
      ++ header_lines (codes ": ") r.headers
      ++ connection_line r.close
      ++ body_part r.body
