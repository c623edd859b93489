-- ===== src/Servlet/Dispatch.antt =====
-- `ServletDispatch` of myhttp/http/servlet.cpp. A URI is its bytes, and a `Servlet::ptr` is a
-- number or null. `m_datas`, an unordered map, is a list of pairs that the operations read by the
-- key alone; `m_globs` is the vector.
use http_practice.Prelude.{
  ℕ, Bool, true, false, List, [], ◌∷◌, ◌++◌, Option, none, some, ◌==◌, ◌&&◌, if◌then◌else◌,
}

abbrev pub Uri : Type 0
Uri = List ℕ

-- `==` on `std::string`s.
abbrev pub eq_uri : Uri → Uri → Bool
eq_uri [] [] = true
eq_uri [] (y ∷ ys) = false
eq_uri (x ∷ xs) [] = false
eq_uri (x ∷ xs) (y ∷ ys) = (x == y) && eq_uri xs ys

abbrev pub ServletPtr : Type 0
ServletPtr = Option ℕ

abbrev pub Table : Type 0
Table = List (Uri × ServletPtr)

pub record ServletDispatch : Type 0 where
  pub datas : Table
  pub globs : Table
  pub default_servlet : ServletPtr

-- `find`, or null for `end()`; the outer `Option` is the iterator.
abbrev pub find : Uri → Table → Option ServletPtr
find uri [] = none
find uri (e ∷ es) = if eq_uri e.0 uri then some e.1 else find uri es

-- `m_datas[uri] = slt`.
abbrev pub assign : Uri → ServletPtr → Table → Table
assign uri slt [] = (uri, slt) ∷ []
assign uri slt (e ∷ es) = if eq_uri e.0 uri then (e.0, slt) ∷ es else e ∷ assign uri slt es

-- The loop that erases the first entry of `uri`, and `erase` of a key.
abbrev pub erase_first : Uri → Table → Table
erase_first uri [] = []
erase_first uri (e ∷ es) = if eq_uri e.0 uri then es else e ∷ erase_first uri es

unfoldable pub add_servlet : Uri → ServletPtr → ServletDispatch → ServletDispatch
add_servlet uri slt d = record d { datas = assign uri slt d.datas }

unfoldable pub add_glob_servlet : Uri → ServletPtr → ServletDispatch → ServletDispatch
add_glob_servlet uri slt d = record d { globs = erase_first uri d.globs ++ ((uri, slt) ∷ []) }

unfoldable pub del_servlet : Uri → ServletDispatch → ServletDispatch
del_servlet uri d = record d { datas = erase_first uri d.datas }

unfoldable pub del_glob_servlet : Uri → ServletDispatch → ServletDispatch
del_glob_servlet uri d = record d { globs = erase_first uri d.globs }

abbrev pub or_null : Option ServletPtr → ServletPtr
or_null none = none
or_null (some slt) = slt

unfoldable pub get_servlet : Uri → ServletDispatch → ServletPtr
get_servlet uri d = or_null (find uri d.datas)

unfoldable pub get_glob_servlet : Uri → ServletDispatch → ServletPtr
get_glob_servlet uri d = or_null (find uri d.globs)

-- `fnmatch(pattern, uri, 0)` is the C library's; true is its 0.
module _ (fnmatch : Uri → Uri → Bool) where
  abbrev pub first_match : Uri → Table → ServletPtr → ServletPtr
  first_match uri [] otherwise = otherwise
  first_match uri (e ∷ es) otherwise = if fnmatch e.0 uri then e.1 else first_match uri es otherwise

  unfoldable pub get_matched_servlet : Uri → ServletDispatch → ServletPtr
  get_matched_servlet uri d = elim (find uri d.datas) [
    | some slt ↦ slt
    | none ↦ first_match uri d.globs d.default_servlet
  ]
