-- ===== src/Servlet/Unique.antt =====
-- The tables of myhttp/http/servlet.cpp hold each URI at most once, after any changes.
use http_practice.Prelude.{◌≡◌, false, List, [], ◌∷◌, ◌++◌, arith, Bool-cases, inl, inr}
use http_practice.Prelude.Splice.{All}
use http_practice.Servlet.Dispatch.{
  Uri, eq_uri, ServletPtr, Table, ServletDispatch, assign, add_servlet, add_glob_servlet,
  del_servlet, del_glob_servlet,
}
use http_practice.Servlet.Matching.{Distinct, others, erase_first-others, eq_uri-same, eq_uri_refl}

abbrev Apart : Uri → Table → Type 0
Apart u = All (λ (f : Uri × ServletPtr). eq_uri f.0 u ≡ false)

eq_uri_sym : (u v : Uri) → eq_uri u v ≡ false → eq_uri v u ≡ false
eq_uri_sym u v h = elim (Bool-cases (eq_uri v u)) [
  | inl same ↦
      let q = eq_uri-same v u same in
      let k : eq_uri v v ≡ false = rw (← q) at h in absurd (ground (arith, k, eq_uri_refl v))
  | inr other ↦ other
]

others-Apart : (u w : Uri) (es : Table) → Apart w es → Apart w (others u es)
others-Apart u w [] h = tt
others-Apart u w (e ∷ es) (h, hs) = elim (Bool-cases (eq_uri e.0 u)) [
  | inl same ↦ rw same (others-Apart u w es hs)
  | inr other ↦ rw other (h, others-Apart u w es hs)
]

others-gone : (u : Uri) (es : Table) → Apart u (others u es)
others-gone u [] = tt
others-gone u (e ∷ es) = elim (Bool-cases (eq_uri e.0 u)) [
  | inl same ↦ rw same (others-gone u es)
  | inr other ↦ rw other (other, others-gone u es)
]

others-Distinct : (u : Uri) (es : Table) → Distinct es → Distinct (others u es)
others-Distinct u [] h = tt
others-Distinct u (e ∷ es) (h, hs) = elim (Bool-cases (eq_uri e.0 u)) [
  | inl same ↦ rw same (others-Distinct u es hs)
  | inr other ↦ rw other (others-Apart u e.0 es h, others-Distinct u es hs)
]

append-Apart :
    (w u : Uri) (slt : ServletPtr) (es : Table)
    → Apart w es
    → eq_uri u w ≡ false
    → Apart w (es ++ ((u, slt) ∷ []))
append-Apart w u slt [] h k = (k, tt)
append-Apart w u slt (e ∷ es) (h, hs) k = (h, append-Apart w u slt es hs k)

append-Distinct :
    (u : Uri) (slt : ServletPtr) (es : Table)
    → Distinct es
    → Apart u es
    → Distinct (es ++ ((u, slt) ∷ []))
append-Distinct u slt [] h k = (tt, tt)
append-Distinct u slt (e ∷ es) (h, hs) (k, ks) =
    (append-Apart e.0 u slt es h (eq_uri_sym e.0 u k), append-Distinct u slt es hs ks)

assign-Apart :
    (w u : Uri) (slt : ServletPtr) (es : Table)
    → Apart w es
    → eq_uri u w ≡ false
    → Apart w (assign u slt es)
assign-Apart w u slt [] h k = (k, tt)
assign-Apart w u slt (e ∷ es) (h, hs) k = elim (Bool-cases (eq_uri e.0 u)) [
  | inl same ↦ rw same (h, hs)
  | inr other ↦ rw other (h, assign-Apart w u slt es hs k)
]

assign-Distinct :
    (u : Uri) (slt : ServletPtr) (es : Table) → Distinct es → Distinct (assign u slt es)
assign-Distinct u slt [] h = (tt, tt)
assign-Distinct u slt (e ∷ es) (h, hs) = elim (Bool-cases (eq_uri e.0 u)) [
  | inl same ↦ rw same (h, hs)
  | inr other ↦
      rw other (assign-Apart e.0 u slt es h (eq_uri_sym e.0 u other), assign-Distinct u slt es hs)
]

pub data Change : Type 0 where
  adds adds_glob : Uri → ServletPtr → Change
  dels dels_glob : Uri → Change

abbrev pub change : Change → ServletDispatch → ServletDispatch
change (adds u slt) d = add_servlet u slt d
change (adds_glob u slt) d = add_glob_servlet u slt d
change (dels u) d = del_servlet u d
change (dels_glob u) d = del_glob_servlet u d

abbrev pub change_all : List Change → ServletDispatch → ServletDispatch
change_all [] d = d
change_all (c ∷ cs) d = change_all cs (change c d)

abbrev pub BothDistinct : ServletDispatch → Type 0
BothDistinct d = Distinct d.datas × Distinct d.globs

change-BothDistinct :
    (c : Change) (d : ServletDispatch) → BothDistinct d → BothDistinct (change c d)
unfolding add_servlet add_glob_servlet del_servlet del_glob_servlet
change-BothDistinct (adds u slt) d (h, k) = (assign-Distinct u slt d.datas h, k)
change-BothDistinct (adds_glob u slt) d (h, k) = (
  h,
  rw (erase_first-others u d.globs k) (
      append-Distinct u slt (others u d.globs) (others-Distinct u d.globs k)
        (others-gone u d.globs)),
)
change-BothDistinct (dels u) d (h, k) =
    (rw (erase_first-others u d.datas h) (others-Distinct u d.datas h), k)
change-BothDistinct (dels_glob u) d (h, k) =
    (h, rw (erase_first-others u d.globs k) (others-Distinct u d.globs k))

-- Any sequence of addServlet, addGlobServlet, delServlet and delGolbServlet calls keeps both
-- tables free of two entries of one URI.
pub change_all-BothDistinct :
    (cs : List Change) (d : ServletDispatch) → BothDistinct d → BothDistinct (change_all cs d)
change_all-BothDistinct [] d h = h
change_all-BothDistinct (c ∷ cs) d h =
    change_all-BothDistinct cs (change c d) (change-BothDistinct c d h)
