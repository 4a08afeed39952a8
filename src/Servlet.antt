-- ===== src/Servlet.antt =====
-- fatdog/http/servlet.cpp and servlet.h: which servlet handles a path. A URI is the list of its bytes,
-- a null pointer to a servlet is `none`. fnmatch is a parameter, `matches pattern path`.
pub mod Table
pub mod Dispatch
pub mod NotFound
mod Runs
use fatdog.Base.{ℕ, List, [], ◌∷◌, ◌++◌, Option, none, some, Bool, true, false, ◌==◌, if◌then◌else◌}

pub data Servlet : Type 0 where
  not_found_servlet : Servlet
  function_servlet : ℕ → Servlet
  user_servlet : ℕ → Servlet

abbrev pub Uri : Type 0
Uri = List ℕ

abbrev pub Entries : Type 0
Entries = List (Uri × Option Servlet)

-- The exact paths (m_datas), the patterns (m_globs), and the servlet for the others.
pub record ServletDispatch : Type 0 where
  pub datas : Entries
  pub globs : Entries
  pub default : Option Servlet

-- std::string::operator==
abbrev pub same_uri : Uri → Uri → Bool
same_uri [] [] = true
same_uri [] (y ∷ ys) = false
same_uri (x ∷ xs) [] = false
same_uri (x ∷ xs) (y ∷ ys) = if x == y then same_uri xs ys else false

abbrev pub find : Uri → Entries → Option (Option Servlet)
find uri [] = none
find uri (e ∷ es) = if same_uri e.0 uri then some e.1 else find uri es

-- m_datas[uri] = slt
abbrev pub assign : Uri → Option Servlet → Entries → Entries
assign uri slt [] = (uri, slt) ∷ []
assign uri slt (e ∷ es) = if same_uri e.0 uri then (e.0, slt) ∷ es else e ∷ assign uri slt es

-- m_datas.erase(uri), and the loop over m_globs that erases the first entry of a pattern.
abbrev pub erase : Uri → Entries → Entries
erase uri [] = []
erase uri (e ∷ es) = if same_uri e.0 uri then es else e ∷ erase uri es

-- ServletDispatch()
abbrev pub init : ServletDispatch
init = record { datas = []; globs = []; default = some not_found_servlet }

unfoldable pub add_servlet : Uri → Option Servlet → ServletDispatch → ServletDispatch
add_servlet uri slt d = record d { datas = assign uri slt d.datas }

unfoldable pub add_function : Uri → ℕ → ServletDispatch → ServletDispatch
add_function uri cb d = record d { datas = assign uri (some (function_servlet cb)) d.datas }

unfoldable pub add_glob_servlet : Uri → Option Servlet → ServletDispatch → ServletDispatch
add_glob_servlet uri slt d = record d { globs = erase uri d.globs ++ (uri, slt) ∷ [] }

unfoldable pub add_glob_function : Uri → ℕ → ServletDispatch → ServletDispatch
unfolding add_glob_servlet
add_glob_function uri cb = add_glob_servlet uri (some (function_servlet cb))

unfoldable pub del_servlet : Uri → ServletDispatch → ServletDispatch
del_servlet uri d = record d { datas = erase uri d.datas }

unfoldable pub del_glob_servlet : Uri → ServletDispatch → ServletDispatch
del_glob_servlet uri d = record d { globs = erase uri d.globs }

-- What a search has found, or another pointer.
abbrev pub found_or : Option Servlet → Option (Option Servlet) → Option Servlet
found_or other none = other
found_or other (some slt) = slt

unfoldable pub get_servlet : Uri → ServletDispatch → Option Servlet
get_servlet uri d = found_or none (find uri d.datas)

unfoldable pub get_glob_servlet : Uri → ServletDispatch → Option Servlet
get_glob_servlet uri d = found_or none (find uri d.globs)

module _ (matches : Uri → Uri → Bool) where
  -- The loop of getMatchedServlet over m_globs.
  abbrev pub first_match : Uri → Entries → Option (Option Servlet)
  first_match uri [] = none
  first_match uri (e ∷ es) = if matches e.0 uri then some e.1 else first_match uri es

  unfoldable pub get_matched_servlet : Uri → ServletDispatch → Option Servlet
  get_matched_servlet uri d =
      found_or (found_or d.default (first_match uri d.globs)) (find uri d.datas)

  -- ServletDispatch::handle, where `run` is the handle of a servlet on request, response and session.
  unfoldable pub handle {ℓ} : {A : Type ℓ} → (Servlet → A → A) → Uri → A → ServletDispatch → A
  unfolding get_matched_servlet
  handle run path exchange d = elim (get_matched_servlet path d) [
    | none ↦ exchange
    | some slt ↦ run slt exchange
  ]
