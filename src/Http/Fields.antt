-- ===== src/Http/Fields.antt =====
-- HttpRequest::MapType of fatdog/http/http.h: std::map with CaseInsensitiveLess, as the list of its
-- entries in their order.
use fatdog.Base.{List, [], ◌∷◌, Option, none, some, if◌then◌else◌}
use fatdog.Http.Strings.{Text, case_insensitive_less}

abbrev pub Entry : Type 0
Entry = Text × Text

-- find(key): lower_bound, and the test of the entry that it finds.
unfoldable pub find : Text → List Entry → Option Text
find key [] = none
find key (e ∷ es) =
    let rest = find key es in
    if case_insensitive_less e.0 key
    then rest
    else if case_insensitive_less key e.0
    then none
    else some e.1

-- m[key] = val
unfoldable pub assign : Text → Text → List Entry → List Entry
assign key val [] = (key, val) ∷ []
assign key val (e ∷ es) =
    let rest = assign key val es in
    if case_insensitive_less e.0 key
    then e ∷ rest
    else if case_insensitive_less key e.0
    then (key, val) ∷ e ∷ es
    else (e.0, val) ∷ es

-- erase(key)
unfoldable pub erase : Text → List Entry → List Entry
erase key [] = []
erase key (e ∷ es) =
    let rest = erase key es in
    if case_insensitive_less e.0 key
    then e ∷ rest
    else if case_insensitive_less key e.0
    then e ∷ es
    else es
