-- ===== src/Servlet/Runs.antt =====
-- The theorems on ServletDispatch at concrete inputs. The pattern 42 matches every path.
use fatdog.Base.{ℕ, ◌≡◌, refl, [], ◌∷◌, none, some, Bool, false, ◌==◌}
use fatdog.Servlet.{
  Uri, ServletDispatch, user_servlet, init, add_glob_servlet, del_servlet, get_servlet,
  get_glob_servlet, get_matched_servlet, handle,
}
use fatdog.Servlet.Dispatch.{IsValid, del_servlet_lem, add_glob_servlet_lem}

abbrev star : Uri → Uri → Bool
star [] path = false
star (x ∷ pattern) path = x == 42

abbrev a : Uri
a = 97 ∷ []

abbrev b : Uri
b = 98 ∷ []

abbrev all : Uri
all = 42 ∷ []

-- The path a, and the pattern that matches every path.
abbrev site : ServletDispatch
site = record init {
  datas = (a, some (user_servlet 1)) ∷ [];
  globs = (all, some (user_servlet 2)) ∷ [];
}

site-IsValid : IsValid site
site-IsValid = record { paths = (refl, tt); patterns = (refl, tt) }

del_servlet_lem_example :
    IsValid (del_servlet a site)
    × (get_servlet a (del_servlet a site) ≡ none)
    × (get_matched_servlet star a (del_servlet a site) ≡ some (user_servlet 2))
    × (get_servlet b (del_servlet a site) ≡ get_servlet b site)
    × (get_matched_servlet star b (del_servlet a site) ≡ get_matched_servlet star b site)
del_servlet_lem_example = del_servlet_lem star site a site-IsValid b refl

add_glob_servlet_lem_example :
    IsValid (add_glob_servlet all none site)
    × (get_glob_servlet all (add_glob_servlet all none site) ≡ none)
    × (get_glob_servlet b (add_glob_servlet all none site) ≡ get_glob_servlet b site)
    × (get_matched_servlet star b (add_glob_servlet all none site) ≡ none)
add_glob_servlet_lem_example = add_glob_servlet_lem star site all site-IsValid none b b refl

-- An exact path goes before a pattern, and a new dispatch handles any path by its default.
exact_run : get_matched_servlet star a site ≡ some (user_servlet 1)
unfolding get_matched_servlet
exact_run = refl

pattern_run : get_matched_servlet star b site ≡ some (user_servlet 2)
unfolding get_matched_servlet
pattern_run = refl

default_run : handle star (λ slt (n : ℕ). 404) b 0 init ≡ 404
unfolding handle
default_run = refl
