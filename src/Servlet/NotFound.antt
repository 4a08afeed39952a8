-- ===== src/Servlet/NotFound.antt =====
-- NotFoundServlet of fatdog/http/servlet.cpp: the answer to a path that has no servlet.
use fatdog.Base.{◌≡◌, refl, ap, ◌∙◌}
use fatdog.Http.Strings.{Text, codes, case_insensitive_less}
use fatdog.Http.Fields.{assign}
use fatdog.Http.Lookup.{find-assign}
use fatdog.Http.{HttpResponse, set_response_header, get_response_header, value_or}
use fatdog.Http.Access.{set_status, set_response_body}

abbrev pub not_found_body : Text
not_found_body =
    codes
      "<html><head><title>404 Not Found</title></head><body><center><h1>404 Not Found</h1></center><hr><center>fatdog/1.0.0</center></body></html>"

-- handle(request, response, session), of what it is given only the response is used.
unfoldable pub not_found_handle : HttpResponse → HttpResponse
not_found_handle response = set_response_body not_found_body (
    set_response_header (codes "Content-Type") (codes "text/html")
      (set_response_header (codes "Server") (codes "fatdog/1.0.0") (set_status 404 response)))

-- Whatever the response was, it has status 404 and the two headers.
pub not_found_handle_lem :
    (response : HttpResponse) (def : Text)
    → ((not_found_handle response).status ≡ 404)
      × (get_response_header (codes "content-type") def (not_found_handle response)
          ≡ codes "text/html")
      × (get_response_header (codes "server") def (not_found_handle response)
          ≡ codes "fatdog/1.0.0")
unfolding not_found_handle set_response_header get_response_header case_insensitive_less
not_found_handle_lem response def =
    let first = assign (codes "Server") (codes "fatdog/1.0.0") response.headers in
    (
      refl,
      ap (value_or def)
          (find-assign (codes "Content-Type") (codes "text/html") (codes "content-type") first),
      ap (value_or def) (
          find-assign (codes "Content-Type") (codes "text/html") (codes "server") first
          ∙ find-assign (codes "Server") (codes "fatdog/1.0.0") (codes "server") response.headers),
    )
