-- ===== src/Servlet/Dispatch.antt =====
-- ServletDispatch: what its changes mean for the servlet that a path is given.
use fatdog.Base.{
  ◌≡◌, refl, ap, ◌∙◌, [], ◌∷◌, ◌++◌, Option, none, some, Bool, false, if◌then◌else◌, Bool-cases,
  inl, inr,
}
use fatdog.Servlet.{
  Servlet, Uri, Entries, ServletDispatch, same_uri, find, erase, found_or, first_match, add_servlet,
  add_glob_servlet, del_servlet, del_glob_servlet, get_servlet, get_glob_servlet,
  get_matched_servlet,
}
use fatdog.Servlet.Table.{
  IsUnique, same_uri_self, find-assign, find-assign_other, find-erase, find-erase_other,
  erase-IsUnique, find-append, append-IsUnique, assign-IsUnique,
}

-- No path and no pattern has two entries.
pub record IsValid (d : ServletDispatch) : Type 0 where
  pub paths : IsUnique d.datas
  pub patterns : IsUnique d.globs

first_match-append :
    (matches : Uri → Uri → Bool) (path u : Uri) (s t : Option Servlet) (es : Entries)
    → found_or t (first_match matches path (es ++ (u, s) ∷ []))
      ≡ found_or (if matches u path then s else t) (first_match matches path es)
first_match-append matches path u s t [] = elim (Bool-cases (matches u path)) [
  | inl h ↦ rw h refl
  | inr h ↦ rw h refl
]
first_match-append matches path u s t (e ∷ es) = elim (Bool-cases (matches e.0 path)) [
  | inl h ↦ rw h refl
  | inr h ↦ rw h (first_match-append matches path u s t es)
]

module _ (matches : Uri → Uri → Bool) (d : ServletDispatch) (uri : Uri) (v : IsValid d) where
  -- On a dispatch in which no path and no pattern has two entries, addServlet of a path keeps
  -- that so, getServlet and getMatchedServlet then give its servlet for the path, whatever the
  -- patterns are, and for another path what they gave before.
  pub add_servlet_lem :
      (slt : Option Servlet) (other : Uri)
      → same_uri uri other ≡ false
      → IsValid (add_servlet uri slt d)
        × (get_servlet uri (add_servlet uri slt d) ≡ slt)
        × (get_matched_servlet matches uri (add_servlet uri slt d) ≡ slt)
        × (get_servlet other (add_servlet uri slt d) ≡ get_servlet other d)
        × (get_matched_servlet matches other (add_servlet uri slt d)
            ≡ get_matched_servlet matches other d)
  unfolding add_servlet get_servlet get_matched_servlet
  add_servlet_lem slt other o = (
    record { paths = assign-IsUnique uri slt d.datas v.paths; patterns = v.patterns },
    ap (found_or none) (find-assign uri slt d.datas),
    ap (found_or (found_or d.default (first_match matches uri d.globs)))
        (find-assign uri slt d.datas),
    ap (found_or none) (find-assign_other uri other slt d.datas o),
    ap (found_or (found_or d.default (first_match matches other d.globs)))
        (find-assign_other uri other slt d.datas o),
  )

  -- On a dispatch in which no path and no pattern has two entries, delServlet of a path keeps
  -- that so, getServlet then finds null for the path, getMatchedServlet the first pattern that
  -- matches it or the default, and both give another path what they gave before.
  pub del_servlet_lem :
      (other : Uri)
      → same_uri uri other ≡ false
      → IsValid (del_servlet uri d)
        × (get_servlet uri (del_servlet uri d) ≡ none)
        × (get_matched_servlet matches uri (del_servlet uri d)
            ≡ found_or d.default (first_match matches uri d.globs))
        × (get_servlet other (del_servlet uri d) ≡ get_servlet other d)
        × (get_matched_servlet matches other (del_servlet uri d)
            ≡ get_matched_servlet matches other d)
  unfolding del_servlet get_servlet get_matched_servlet
  del_servlet_lem other o = (
    record { paths = erase-IsUnique uri d.datas v.paths; patterns = v.patterns },
    ap (found_or none) (find-erase uri d.datas v.paths),
    ap (found_or (found_or d.default (first_match matches uri d.globs)))
        (find-erase uri d.datas v.paths),
    ap (found_or none) (find-erase_other uri other d.datas o),
    ap (found_or (found_or d.default (first_match matches other d.globs)))
        (find-erase_other uri other d.datas o),
  )

  -- On a dispatch in which no path and no pattern has two entries, addGlobServlet of a pattern
  -- keeps that so, getGlobServlet then finds its servlet for the pattern and what it found before
  -- for another; and a path that is not an exact one is given the first of the other patterns
  -- that matches it, then the new pattern where that matches, and then the default.
  pub add_glob_servlet_lem :
      (slt : Option Servlet) (other path : Uri)
      → same_uri uri other ≡ false
      → IsValid (add_glob_servlet uri slt d)
        × (get_glob_servlet uri (add_glob_servlet uri slt d) ≡ slt)
        × (get_glob_servlet other (add_glob_servlet uri slt d) ≡ get_glob_servlet other d)
        × (get_matched_servlet matches path (add_glob_servlet uri slt d)
            ≡ found_or
                (found_or
                  (if matches uri path then slt else d.default)
                  (first_match matches path (erase uri d.globs)))
                (find path d.datas))
  unfolding add_glob_servlet get_glob_servlet get_matched_servlet
  add_glob_servlet_lem slt other path o =
      let globs = erase uri d.globs in
      let fresh = find-erase uri d.globs v.patterns in
      let last : (elim (find uri globs) [
        | none ↦ if same_uri uri uri then some slt else none
        | some t ↦ some t
      ])
          ≡ some slt =
        rw (fresh, same_uri_self uri) refl in
      (
        record {
          paths = v.paths;
          patterns = append-IsUnique uri slt globs fresh (erase-IsUnique uri d.globs v.patterns);
        },
        ap (found_or none) (find-append uri uri slt globs ∙ last),
        ap (found_or none) (find-append other uri slt globs)
            ∙ no_other (find other globs)
            ∙ ap (found_or none) (find-erase_other uri other d.globs o),
        ap (λ t. found_or t (find path d.datas))
            (first_match-append matches path uri slt d.default globs),
      )
    where
      no_other :
          (f : Option (Option Servlet))
          → found_or none
              (elim f [ none ↦ if same_uri uri other then some slt else none | some t ↦ some t ])
            ≡ found_or none f
      no_other none = rw o refl
      no_other (some t) = refl

  -- On a dispatch in which no path and no pattern has two entries, delGlobServlet of a pattern
  -- keeps that so, and getGlobServlet then finds null for the pattern and for another what it
  -- found before.
  pub del_glob_servlet_lem :
      (other : Uri)
      → same_uri uri other ≡ false
      → IsValid (del_glob_servlet uri d)
        × (get_glob_servlet uri (del_glob_servlet uri d) ≡ none)
        × (get_glob_servlet other (del_glob_servlet uri d) ≡ get_glob_servlet other d)
  unfolding del_glob_servlet get_glob_servlet
  del_glob_servlet_lem other o = (
    record { paths = v.paths; patterns = erase-IsUnique uri d.globs v.patterns },
    ap (found_or none) (find-erase uri d.globs v.patterns),
    ap (found_or none) (find-erase_other uri other d.globs o),
  )
