-- ===== src/Servlet/Matching.antt =====
-- What `getMatchedServlet` of myhttp/http/servlet.cpp gives after the tables were changed.
use http_practice.Prelude.{
  ◌≡◌, refl, ap, sym, Bool, true, false, [], ◌∷◌, ◌++◌, none, some, arith, Bool-cases, Option-cases,
  inl, inr, if◌then◌else◌,
}
use http_practice.Prelude.Splice.{All}
use http_practice.Servlet.Dispatch.{
  Uri, eq_uri, ServletPtr, Table, ServletDispatch, find, assign, erase_first, add_servlet,
  add_glob_servlet, del_servlet, del_glob_servlet, first_match, get_matched_servlet,
}

pub eq_uri_refl : (u : Uri) → eq_uri u u ≡ true
eq_uri_refl [] = refl
eq_uri_refl (x ∷ xs) = ground (arith, eq_uri_refl xs)

pub eq_uri-same : (u v : Uri) → eq_uri u v ≡ true → u ≡ v
eq_uri-same [] [] h = refl
eq_uri-same [] (y ∷ ys) h = absurd (ground (arith, h))
eq_uri-same (x ∷ xs) [] h = absurd (ground (arith, h))
eq_uri-same (x ∷ xs) (y ∷ ys) h =
    let e : x ≡ y = ground arith in let f = eq_uri-same xs ys (ground arith) in λ i. e i ∷ f i

-- No two entries are of one URI.
abbrev pub Distinct : Table → Type 0
Distinct [] = Unit {0}
Distinct (e ∷ es) = All (λ (f : Uri × ServletPtr). eq_uri f.0 e.0 ≡ false) es × Distinct es

-- The entries of other URIs.
abbrev pub others : Uri → Table → Table
others uri [] = []
others uri (e ∷ es) = if eq_uri e.0 uri then others uri es else e ∷ others uri es

others_whole :
    (uri : Uri) (es : Table)
    → All (λ (f : Uri × ServletPtr). eq_uri f.0 uri ≡ false) es
    → others uri es ≡ es
others_whole uri [] h = refl
others_whole uri (e ∷ es) (h, hs) = rw h (ap (◌∷◌ e) (others_whole uri es hs))

pub erase_first-others : (uri : Uri) (es : Table) → Distinct es → erase_first uri es ≡ others uri es
erase_first-others uri [] h = refl
erase_first-others uri (e ∷ es) (h, hs) = elim (Bool-cases (eq_uri e.0 uri)) [
  | inl same ↦ let q = eq_uri-same e.0 uri same in rw same (sym (others_whole uri es (rw (← q) h)))
  | inr other ↦ rw other (ap (◌∷◌ e) (erase_first-others uri es hs))
]

find-assign :
    (u v : Uri) (slt : ServletPtr) (es : Table)
    → find v (assign u slt es) ≡ (if eq_uri u v then some slt else find v es)
find-assign u v slt [] = refl
find-assign u v slt (e ∷ es) = elim (Bool-cases (eq_uri e.0 u)) [
  | inl same ↦
      let q = eq_uri-same e.0 u same in
      rw (same, q)
        (elim (Bool-cases (eq_uri u v)) [ inl hit ↦ rw hit refl | inr miss ↦ rw miss refl ])
  | inr other ↦ elim (Bool-cases (eq_uri u v)) [
    | inl hit ↦
        let q = eq_uri-same u v hit in
        let passed : eq_uri e.0 v ≡ false = rw (← q) other in
        rw (other, find-assign u v slt es, hit, passed) refl
    | inr miss ↦ rw (other, find-assign u v slt es, miss) refl
  ]
]

find-others :
    (u v : Uri) (es : Table) → find v (others u es) ≡ (if eq_uri u v then none else find v es)
find-others u v [] = elim (Bool-cases (eq_uri u v)) [
  | inl hit ↦ rw hit refl
  | inr miss ↦ rw miss refl
]
find-others u v (e ∷ es) = elim (Bool-cases (eq_uri e.0 u)) [
  | inl same ↦
      let q = eq_uri-same e.0 u same in
      rw (same, q, find-others u v es)
        (elim (Bool-cases (eq_uri u v)) [ inl hit ↦ rw hit refl | inr miss ↦ rw miss refl ])
  | inr other ↦ elim (Bool-cases (eq_uri u v)) [
    | inl hit ↦
        let q = eq_uri-same u v hit in
        let passed : eq_uri e.0 v ≡ false = rw (← q) other in
        rw (other, find-others u v es, hit, passed) refl
    | inr miss ↦ rw (other, find-others u v es, miss) refl
  ]
]

first_match-append :
    (fnmatch : Uri → Uri → Bool) (v : Uri) (es fs : Table) (otherwise : ServletPtr)
    → first_match fnmatch v (es ++ fs) otherwise
      ≡ first_match fnmatch v es (first_match fnmatch v fs otherwise)
first_match-append fnmatch v [] fs otherwise = refl
first_match-append fnmatch v (e ∷ es) fs otherwise =
    rw (first_match-append fnmatch v es fs otherwise) refl

module _ (fnmatch : Uri → Uri → Bool) (u v : Uri) (d : ServletDispatch) where
  -- after addServlet, getMatchedServlet gives the new servlet for its URI, and what it gave
  -- before for any other.
  pub get_matched_servlet-add_servlet :
      (slt : ServletPtr)
      → get_matched_servlet fnmatch v (add_servlet u slt d)
        ≡ (if eq_uri u v then slt else get_matched_servlet fnmatch v d)
  unfolding get_matched_servlet add_servlet
  get_matched_servlet-add_servlet slt = elim (Bool-cases (eq_uri u v)) [
    | inl hit ↦ rw (get_matched_servlet, add_servlet, find-assign u v slt d.datas, hit) refl
    | inr miss ↦ rw (get_matched_servlet, add_servlet, find-assign u v slt d.datas, miss) refl
  ]

  -- after delServlet, where the exact table holds each URI once, getMatchedServlet gives the
  -- first glob that matches or the default for that URI, and what it gave before for any other.
  pub get_matched_servlet-del_servlet :
      Distinct d.datas
      → get_matched_servlet fnmatch v (del_servlet u d) ≡ (
          if eq_uri u v
          then first_match fnmatch v d.globs d.default_servlet
          else get_matched_servlet fnmatch v d)
  unfolding get_matched_servlet del_servlet
  get_matched_servlet-del_servlet h = elim (Bool-cases (eq_uri u v)) [
    | inl hit ↦
        rw
          (
            get_matched_servlet,
            del_servlet,
            erase_first-others u d.datas h,
            find-others u v d.datas,
            hit,
          )
          refl
    | inr miss ↦
        rw
          (
            get_matched_servlet,
            del_servlet,
            erase_first-others u d.datas h,
            find-others u v d.datas,
            miss,
          )
          refl
  ]

  -- after addGlobServlet of a URI, where the globs hold each URI once, getMatchedServlet gives
  -- the exact servlet if there is one, else that of the first glob of another URI that matches,
  -- else the new servlet if its pattern matches, else the default.
  pub get_matched_servlet-add_glob_servlet :
      (slt : ServletPtr)
      → Distinct d.globs
      → get_matched_servlet fnmatch v (add_glob_servlet u slt d) ≡ elim (find v d.datas) [
        | some exact ↦ exact
        | none ↦
            first_match fnmatch v
              (others u d.globs)
              (if fnmatch u v then slt else d.default_servlet)
      ]
  unfolding get_matched_servlet add_glob_servlet
  get_matched_servlet-add_glob_servlet slt h = elim (Option-cases (find v d.datas)) [
    | inl out ↦
        rw (get_matched_servlet, add_glob_servlet, out, erase_first-others u d.globs h)
          (first_match-append fnmatch v (others u d.globs) ((u, slt) ∷ []) d.default_servlet)
    | inr (exact, at) ↦ rw (get_matched_servlet, add_glob_servlet, at) refl
  ]

  pub get_matched_servlet-del_glob_servlet :
      Distinct d.globs
      → get_matched_servlet fnmatch v (del_glob_servlet u d) ≡ elim (find v d.datas) [
        | some exact ↦ exact
        | none ↦ first_match fnmatch v (others u d.globs) d.default_servlet
      ]
  unfolding get_matched_servlet del_glob_servlet
  get_matched_servlet-del_glob_servlet h = elim (Option-cases (find v d.datas)) [
    | inl out ↦ rw (get_matched_servlet, del_glob_servlet, out, erase_first-others u d.globs h) refl
    | inr (exact, at) ↦ rw (get_matched_servlet, del_glob_servlet, at) refl
  ]
