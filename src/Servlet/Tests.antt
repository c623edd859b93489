-- ===== src/Servlet/Tests.antt =====
-- The theorems about myhttp/http/servlet.cpp at concrete tables, and runs of the code.
use http_practice.Prelude.{◌==◌, ◌≡◌, refl, Bool, true, false, [], ◌∷◌, none, some, if◌then◌else◌}
use http_practice.Servlet.Dispatch.{
  Uri, ServletDispatch, find, add_glob_servlet, del_glob_servlet, first_match, get_matched_servlet,
}
use http_practice.Servlet.Matching.{
  others, get_matched_servlet-add_glob_servlet, get_matched_servlet-del_glob_servlet,
}

-- A pattern that ends in `*` matches what starts as it does.
abbrev starts : Uri → Uri → Bool
starts [] [] = true
starts [] (y ∷ ys) = false
starts (x ∷ xs) [] = x == 42
starts (x ∷ xs) (y ∷ ys) =
    let rest = starts xs ys in if x == 42 then true else if x == y then rest else false

-- "/a" is exact, and "/*" a pattern.
abbrev site : ServletDispatch
site = record {
  datas = (47 ∷ 97 ∷ [], some 1) ∷ [];
  globs = (47 ∷ 42 ∷ [], some 2) ∷ [];
  default_servlet = some 0;
}

exact_first : get_matched_servlet starts (47 ∷ 97 ∷ []) site ≡ some 1
unfolding get_matched_servlet
exact_first = refl

then_globs : get_matched_servlet starts (47 ∷ 98 ∷ []) site ≡ some 2
unfolding get_matched_servlet
then_globs = refl

default_last : get_matched_servlet starts (98 ∷ []) site ≡ some 0
unfolding get_matched_servlet
default_last = refl

get_matched_servlet-add_glob_servlet_example :
    get_matched_servlet starts (47 ∷ 98 ∷ []) (add_glob_servlet (47 ∷ 42 ∷ []) (some 6) site)
    ≡ elim (find (47 ∷ 98 ∷ []) site.datas) [
      | some exact ↦ exact
      | none ↦
          first_match starts
            (47 ∷ 98 ∷ [])
            (others (47 ∷ 42 ∷ []) site.globs)
            (if starts (47 ∷ 42 ∷ []) (47 ∷ 98 ∷ []) then some 6 else site.default_servlet)
    ]
get_matched_servlet-add_glob_servlet_example =
    get_matched_servlet-add_glob_servlet starts (47 ∷ 42 ∷ []) (47 ∷ 98 ∷ []) site (some 6) (tt, tt)

get_matched_servlet-del_glob_servlet_example :
    get_matched_servlet starts (47 ∷ 98 ∷ []) (del_glob_servlet (47 ∷ 42 ∷ []) site)
    ≡ elim (find (47 ∷ 98 ∷ []) site.datas) [
      | some exact ↦ exact
      | none ↦
          first_match starts (47 ∷ 98 ∷ []) (others (47 ∷ 42 ∷ []) site.globs) site.default_servlet
    ]
get_matched_servlet-del_glob_servlet_example =
    get_matched_servlet-del_glob_servlet starts (47 ∷ 42 ∷ []) (47 ∷ 98 ∷ []) site (tt, tt)
