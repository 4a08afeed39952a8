-- ===== src/Http/Names.antt =====
-- The names of the methods are read back.
use fatdog.Base.{
  ◌≡◌, refl, ap, ◌∙◌, List, [], ◌∷◌, ◌++◌, Bool, true, false, ◌==◌, inl, inr, ==_iff, Bool-cases,
  All,
}
use fatdog.Http.Strings.{Text, c_str, same_text}
use mathlib.Core.Bool.{false≢true}
use fatdog.Http.Method.{
  HttpMethod, delete, get, head, post, put, connect, options, trace, copy, lock, mkcol, move,
  propfind, proppatch, search, unlock, bind, rebind, unbind, acl, report, mkactivity, checkout,
  merge, msearch, notify, subscribe, unsubscribe, patch, purge, mkcalendar, link, unlink, source,
  invalid_method, methods, find_equal, string_to_http_method, chars_to_http_method,
  http_method_to_string,
}

abbrev pub is_valid : HttpMethod → Bool
is_valid delete = true
is_valid get = true
is_valid head = true
is_valid post = true
is_valid put = true
is_valid connect = true
is_valid options = true
is_valid trace = true
is_valid copy = true
is_valid lock = true
is_valid mkcol = true
is_valid move = true
is_valid propfind = true
is_valid proppatch = true
is_valid search = true
is_valid unlock = true
is_valid bind = true
is_valid rebind = true
is_valid unbind = true
is_valid acl = true
is_valid report = true
is_valid mkactivity = true
is_valid checkout = true
is_valid merge = true
is_valid msearch = true
is_valid notify = true
is_valid subscribe = true
is_valid unsubscribe = true
is_valid patch = true
is_valid purge = true
is_valid mkcalendar = true
is_valid link = true
is_valid unlink = true
is_valid source = true
is_valid invalid_method = false

chars_lem :
    (m : HttpMethod) (rest : Text)
    → is_valid m ≡ true
    → chars_to_http_method (http_method_to_string m ++ rest) ≡ m
unfolding chars_to_http_method http_method_to_string
chars_lem delete rest h = refl
chars_lem get rest h = refl
chars_lem head rest h = refl
chars_lem post rest h = refl
chars_lem put rest h = refl
chars_lem connect rest h = refl
chars_lem options rest h = refl
chars_lem trace rest h = refl
chars_lem copy rest h = refl
chars_lem lock rest h = refl
chars_lem mkcol rest h = refl
chars_lem move rest h = refl
chars_lem propfind rest h = refl
chars_lem proppatch rest h = refl
chars_lem search rest h = refl
chars_lem unlock rest h = refl
chars_lem bind rest h = refl
chars_lem rebind rest h = refl
chars_lem unbind rest h = refl
chars_lem acl rest h = refl
chars_lem report rest h = refl
chars_lem mkactivity rest h = refl
chars_lem checkout rest h = refl
chars_lem merge rest h = refl
chars_lem msearch rest h = refl
chars_lem notify rest h = refl
chars_lem subscribe rest h = refl
chars_lem unsubscribe rest h = refl
chars_lem patch rest h = refl
chars_lem purge rest h = refl
chars_lem mkcalendar rest h = refl
chars_lem link rest h = refl
chars_lem unlink rest h = refl
chars_lem source rest h = refl
chars_lem invalid_method rest h = absurd (false≢true h)

string_lem :
    (m : HttpMethod) → is_valid m ≡ true → string_to_http_method (http_method_to_string m) ≡ m
unfolding string_to_http_method http_method_to_string
string_lem delete h = refl
string_lem get h = refl
string_lem head h = refl
string_lem post h = refl
string_lem put h = refl
string_lem connect h = refl
string_lem options h = refl
string_lem trace h = refl
string_lem copy h = refl
string_lem lock h = refl
string_lem mkcol h = refl
string_lem move h = refl
string_lem propfind h = refl
string_lem proppatch h = refl
string_lem search h = refl
string_lem unlock h = refl
string_lem bind h = refl
string_lem rebind h = refl
string_lem unbind h = refl
string_lem acl h = refl
string_lem report h = refl
string_lem mkactivity h = refl
string_lem checkout h = refl
string_lem merge h = refl
string_lem msearch h = refl
string_lem notify h = refl
string_lem subscribe h = refl
string_lem unsubscribe h = refl
string_lem patch h = refl
string_lem purge h = refl
string_lem mkcalendar h = refl
string_lem link h = refl
string_lem unlink h = refl
string_lem source h = refl
string_lem invalid_method h = absurd (false≢true h)

same_text_eq : (s t : Text) → same_text s t ≡ true → s ≡ t
same_text_eq [] [] h = refl
same_text_eq [] (d ∷ t) h = absurd (false≢true h)
same_text_eq (c ∷ s) [] h = absurd (false≢true h)
same_text_eq (c ∷ s) (d ∷ t) h = elim (Bool-cases (c == d)) [
  | inl e ↦ ap (λ x. x ∷ s) ((==_iff c d).0 e) ∙ ap (λ s. d ∷ s) (same_text_eq s t (rw e at h))
  | inr o ↦ absurd (false≢true (rw o at h))
]

IsNamed : HttpMethod × Text → Type 0
IsNamed e = http_method_to_string e.0 ≡ e.1

find_equal_lem :
    (s : Text) (ms : List (HttpMethod × Text))
    → All IsNamed ms
    → is_valid (find_equal s ms) ≡ true
    → http_method_to_string (find_equal s ms) ≡ s
unfolding IsNamed
find_equal_lem s [] named h = absurd (false≢true h)
find_equal_lem s ((m, name) ∷ ms) (n, named) h = elim (Bool-cases (same_text name s)) [
  | inl e ↦ rw e (n ∙ same_text_eq name s e)
  | inr o ↦ rw o (find_equal_lem s ms named (rw o at h))
]

methods-IsNamed : All IsNamed methods
unfolding IsNamed http_method_to_string
methods-IsNamed = (
  refl,
  (
    refl,
    (
      refl,
      (
        refl,
        (
          refl,
          (
            refl,
            (
              refl,
              (
                refl,
                (
                  refl,
                  (
                    refl,
                    (
                      refl,
                      (
                        refl,
                        (
                          refl,
                          (
                            refl,
                            (
                              refl,
                              (
                                refl,
                                (
                                  refl,
                                  (
                                    refl,
                                    (
                                      refl,
                                      (
                                        refl,
                                        (
                                          refl,
                                          (
                                            refl,
                                            (
                                              refl,
                                              (
                                                refl,
                                                (
                                                  refl,
                                                  (
                                                    refl,
                                                    (
                                                      refl,
                                                      (
                                                        refl,
                                                        (
                                                          refl,
                                                          (
                                                            refl,
                                                            (refl, (refl, (refl, (refl, tt)))),
                                                          ),
                                                        ),
                                                      ),
                                                    ),
                                                  ),
                                                ),
                                              ),
                                            ),
                                          ),
                                        ),
                                      ),
                                    ),
                                  ),
                                ),
                              ),
                            ),
                          ),
                        ),
                      ),
                    ),
                  ),
                ),
              ),
            ),
          ),
        ),
      ),
    ),
  ),
)

-- A text that stands for a method is its name.
pub string_to_http_method_lem :
    (s : Text)
    → is_valid (string_to_http_method s) ≡ true
    → http_method_to_string (string_to_http_method s) ≡ c_str s
unfolding string_to_http_method
string_to_http_method_lem s h = find_equal_lem (c_str s) methods methods-IsNamed h

-- For each of the 34 methods, StringToHttpMethod of the name that HttpMethodToString gives is the
-- method, and so is CharsToHttpMethod of the name with any text behind it.
pub methods_round_trip :
    (m : HttpMethod) (rest : Text)
    → is_valid m ≡ true
    → (string_to_http_method (http_method_to_string m) ≡ m)
      × (chars_to_http_method (http_method_to_string m ++ rest) ≡ m)
methods_round_trip m rest h = (string_lem m h, chars_lem m rest h)
