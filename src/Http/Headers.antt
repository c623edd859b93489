-- ===== src/Http/Headers.antt =====
-- What the header map of myhttp/http/http.cpp gives after the headers were edited.
use http_practice.Prelude.{◌≡◌, refl, ap, ◌∙◌, List, [], ◌∷◌, Option, none, some, if◌then◌else◌}
use http_practice.Prelude.Text.{Bytes, folded, eq_nocase, less_nocase}
use http_practice.Prelude.SortedMap.{
  find, IsSorted, find-assign, find-erase, assign-IsSorted, erase-IsSorted,
}
use http_practice.Prelude.Keys.{by_nocase, same-eq_bytes}
use http_practice.Http.Message.{
  HttpRequest, value_or, set_header, del_header, get_header, has_header, has_key,
}

-- A call that changes the headers of a request.
pub data Edit : Type 0 where
  sets : Bytes → Bytes → Edit
  dels : Bytes → Edit

abbrev pub edit : Edit → HttpRequest → HttpRequest
edit (sets k v) r = set_header k v r
edit (dels k) r = del_header k r

abbrev pub edits : List Edit → HttpRequest → HttpRequest
edits [] r = r
edits (e ∷ es) r = edits es (edit e r)

-- What the edits make of the value of a key: the last one of the key, in any case, decides.
abbrev pub value_after : List Edit → Bytes → Option Bytes → Option Bytes
value_after [] key v = v
value_after (sets k w ∷ es) key v = value_after es key (if eq_nocase key k then some w else v)
value_after (dels k ∷ es) key v = value_after es key (if eq_nocase key k then none else v)

edit-IsSorted :
    (e : Edit) (r : HttpRequest)
    → IsSorted less_nocase r.headers
    → IsSorted less_nocase (edit e r).headers
unfolding set_header del_header
edit-IsSorted (sets k v) r h = assign-IsSorted by_nocase k v r.headers h
edit-IsSorted (dels k) r h = erase-IsSorted by_nocase k r.headers h

-- The edits keep the map in order, without two keys that differ in case alone.
pub edits-IsSorted :
    (es : List Edit) (r : HttpRequest)
    → IsSorted less_nocase r.headers
    → IsSorted less_nocase (edits es r).headers
edits-IsSorted [] r h = h
edits-IsSorted (e ∷ es) r h = edits-IsSorted es (edit e r) (edit-IsSorted e r h)

find-edits :
    (es : List Edit) (key : Bytes) (r : HttpRequest)
    → IsSorted less_nocase r.headers
    → find less_nocase key (edits es r).headers
      ≡ value_after es key (find less_nocase key r.headers)
unfolding set_header del_header
find-edits [] key r h = refl
find-edits (sets k v ∷ es) key r h =
    find-edits es key (set_header k v r) (edit-IsSorted (sets k v) r h)
    ∙ ap (value_after es key) (
        find-assign by_nocase key k v r.headers
        ∙ ap (λ t. if t then some v else find less_nocase key r.headers)
            (same-eq_bytes (folded key) (folded k)))
find-edits (dels k ∷ es) key r h =
    find-edits es key (del_header k r) (edit-IsSorted (dels k) r h)
    ∙ ap (value_after es key) (
        find-erase by_nocase key k r.headers h
        ∙ ap (λ t. if t then none else find less_nocase key r.headers)
            (same-eq_bytes (folded key) (folded k)))

-- whatever setHeader and delHeader calls change a request with headers in order, getHeader and
-- hasHeader give of a key what the last call for that key in any case of letters left: its
-- value, nothing, or the value before where there was no such call.
pub edits-get_header :
    (es : List Edit) (key default_value : Bytes) (r : HttpRequest)
    → IsSorted less_nocase r.headers
    → (get_header key default_value (edits es r)
        ≡ value_or (value_after es key (find less_nocase key r.headers)) default_value)
      × (has_header key (some default_value) (edits es r)
          ≡ has_key (value_after es key (find less_nocase key r.headers)) (some default_value))
unfolding get_header has_header
edits-get_header es key default_value r h =
    let e = find-edits es key r h in
    (ap (λ t. value_or t default_value) e, ap (λ t. has_key t (some default_value)) e)
