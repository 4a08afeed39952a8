-- ===== src/Http/Access.antt =====
-- The setters of single fields of a message, and the typed getters of fatdog/http/http.h, over
-- boost::lexical_cast, which is a parameter: none where it throws.
use fatdog.Base.{ℕ, ◌≡◌, refl, List, Option, none, some, Bool, true, false}
use fatdog.Http.Strings.{Text}
use fatdog.Http.Method.{HttpMethod}
use fatdog.Http.Fields.{Entry, find}
use fatdog.Http.{HttpRequest, HttpResponse, set_param, set_cookie}

abbrev pub set_method : HttpMethod → HttpRequest → HttpRequest
set_method v r = record r { method = v }

abbrev pub set_version : ℕ → HttpRequest → HttpRequest
set_version v r = record r { version = v }

abbrev pub set_path : Text → HttpRequest → HttpRequest
set_path v r = record r { path = v }

abbrev pub set_query : Text → HttpRequest → HttpRequest
set_query v r = record r { query = v }

abbrev pub set_fragment : Text → HttpRequest → HttpRequest
set_fragment v r = record r { fragment = v }

abbrev pub set_body : Text → HttpRequest → HttpRequest
set_body v r = record r { body = v }

abbrev pub set_close : Bool → HttpRequest → HttpRequest
set_close v r = record r { close = v }

abbrev pub set_headers : List Entry → HttpRequest → HttpRequest
set_headers v r = record r { headers = v }

abbrev pub set_params : List Entry → HttpRequest → HttpRequest
set_params v r = record r { params = v }

abbrev pub set_cookies : List Entry → HttpRequest → HttpRequest
set_cookies v r = record r { cookies = v }

-- The same of a response.
abbrev pub set_status : ℕ → HttpResponse → HttpResponse
set_status v r = record r { status = v }

abbrev pub set_response_version : ℕ → HttpResponse → HttpResponse
set_response_version v r = record r { version = v }

abbrev pub set_response_body : Text → HttpResponse → HttpResponse
set_response_body v r = record r { body = v }

abbrev pub set_reason : Text → HttpResponse → HttpResponse
set_reason v r = record r { reason = v }

abbrev pub set_response_headers : List Entry → HttpResponse → HttpResponse
set_response_headers v r = record r { headers = v }

abbrev pub set_response_close : Bool → HttpResponse → HttpResponse
set_response_close v r = record r { close = v }

module _ {ℓ} {A : Type ℓ} (lexical_cast : Text → Option A) where
  abbrev pub cast_or : A → Option A → Bool × A
  cast_or def none = (false, def)
  cast_or def (some a) = (true, a)

  abbrev pub found_as : A → Option Text → Bool × A
  found_as def none = (false, def)
  found_as def (some val) = cast_or def (lexical_cast val)

  -- checkGetAs(m, key, val, def), with val behind it
  unfoldable pub check_get_as : List Entry → Text → A → Bool × A
  check_get_as m key def = found_as def (find key m)

  -- getAs(m, key, def)
  unfoldable pub get_as : List Entry → Text → A → A
  get_as m key def = (found_as def (find key m)).1

  -- checkGetHeaderAs and getHeaderAs, and those of parameters and cookies, which read the headers.
  unfoldable pub check_get_header_as : Text → A → HttpRequest → Bool × A
  unfolding check_get_as
  check_get_header_as key def r = check_get_as r.headers key def

  unfoldable pub get_header_as : Text → A → HttpRequest → A
  unfolding get_as
  get_header_as key def r = get_as r.headers key def

  unfoldable pub check_get_param_as : Text → A → HttpRequest → Bool × A
  unfolding check_get_as
  check_get_param_as key def r = check_get_as r.headers key def

  unfoldable pub get_param_as : Text → A → HttpRequest → A
  unfolding get_as
  get_param_as key def r = get_as r.headers key def

  unfoldable pub check_get_cookie_as : Text → A → HttpRequest → Bool × A
  unfolding check_get_as
  check_get_cookie_as key def r = check_get_as r.headers key def

  unfoldable pub get_cookie_as : Text → A → HttpRequest → A
  unfolding get_as
  get_cookie_as key def r = get_as r.headers key def

  -- Those of a response's headers.
  unfoldable pub check_get_response_header_as : Text → A → HttpResponse → Bool × A
  unfolding check_get_as
  check_get_response_header_as key def r = check_get_as r.headers key def

  unfoldable pub get_response_header_as : Text → A → HttpResponse → A
  unfolding get_as
  get_response_header_as key def r = get_as r.headers key def

  -- A parameter that is set is not seen by its typed getter, and neither is a cookie.
  pub get_param_as-set_param :
      (key other val : Text) (def : A) (r : HttpRequest)
      → (get_param_as key def (set_param other val r) ≡ get_param_as key def r)
        × (get_cookie_as key def (set_cookie other val r) ≡ get_cookie_as key def r)
  unfolding get_param_as set_param get_cookie_as set_cookie
  get_param_as-set_param key other val def r = (refl, refl)
