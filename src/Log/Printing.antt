-- ===== src/Log/Printing.antt =====
-- Patterns written from their parts, and `LogFormatter::init` of myhttp/log.cpp on them.
use mathlib.Core.List.{append-nil, append_assoc}
use http_practice.Prelude.{
  ℕ, zero, suc, ◌+◌, ◌-◌, ◌≤◌, ◌≡◌, refl, sym, ap, ◌∙◌, Bool, true, false, not, ◌&&◌, ◌||◌, List,
  [], ◌∷◌, ◌++◌, arith, ◌==◌, if◌then◌else◌, length, length-append,
}
use http_practice.Prelude.Text.{Bytes, is_empty}
use http_practice.Log.Pattern.{
  Part, text, directive, is_alpha, scanned, in_name, in_format, flushed, Parsed, behind, parse,
  items_of, any_unknown, new_formatter, formatter_of,
}

-- A format that is not empty stands in braces.
abbrev braced : Bytes → Bytes
braced fmt = if is_empty fmt then [] else b'{' ∷ (fmt ++ b'}' ∷ [])

abbrev written_part : Part → Bytes
written_part (text s) = s
written_part (directive str fmt) = b'%' ∷ (str ++ braced fmt)

abbrev pub written : List Part → Bytes
written [] = []
written (p ∷ ps) = written_part p ++ written ps

-- What stands before a part.
pub data Place : Type 0 where
  anywhere behind_text behind_name : Place

abbrev in_word : ℕ → Bool
in_word c = is_alpha c || (c == b'{') || (c == b'}')

abbrev pub is_literal : Bytes → Bool
is_literal [] = true
is_literal (c ∷ s) = not (c == b'%') && is_literal s

abbrev is_word : Bytes → Bool
is_word [] = true
is_word (c ∷ s) = is_alpha c && is_word s

abbrev is_format : Bytes → Bool
is_format [] = true
is_format (c ∷ s) = not (c == b'}') && is_format s

-- A text that can stand there without being read as part of what is before it.
abbrev fits : Place → Bytes → Bool
fits place [] = false
fits behind_text (c ∷ s) = false
fits anywhere (c ∷ s) = true
fits behind_name (c ∷ s) = not (in_word c)

abbrev place_behind : Bytes → Place
place_behind fmt = if is_empty fmt then behind_name else anywhere

-- Texts with no percent sign that can stand where they do, directives with a name of letters.
abbrev pub IsPattern : Place → List Part → Type 0
IsPattern place [] = Unit
IsPattern place (text s ∷ ps) =
    (fits place s ≡ true) × (is_literal s ≡ true) × IsPattern behind_text ps
IsPattern place (directive str fmt ∷ ps) =
    ((is_word str && not (is_empty str)) ≡ true)
    × (is_format fmt ≡ true)
    × IsPattern (place_behind fmt) ps

in_format-append :
    (str fmt s t : Bytes)
    → is_format s ≡ true
    → in_format str fmt (s ++ b'}' ∷ t) ≡ scanned str (fmt ++ s) t
in_format-append str fmt [] t h = rw append-nil refl
in_format-append str fmt (c ∷ s) t h =
    ground (arith, h, in_format-append str (fmt ++ c ∷ []) s t, append_assoc fmt (c ∷ []) s)

in_name-append : (str s t : Bytes) → is_word s ≡ true → in_name str (s ++ t) ≡ in_name (str ++ s) t
in_name-append str [] t h = rw append-nil refl
in_name-append str (c ∷ s) t h =
    ground (arith, h, in_name-append (str ++ c ∷ []) s t, append_assoc str (c ∷ []) s)

in_name-written :
    (str : Bytes) (ps : List Part)
    → IsPattern behind_name ps
    → in_name str (written ps) ≡ scanned str [] (written ps)
in_name-written str [] h = refl
in_name-written str (text [] ∷ ps) (h, hl, hs) = absurd (ground (arith, h))
in_name-written str (text (c ∷ s) ∷ ps) (h, hl, hs) = ground (arith, h)
in_name-written str (directive n fmt ∷ ps) h = refl

-- The inner loop finds a directive's name and format.
in_name-directive :
    (str fmt : Bytes) (ps : List Part)
    → is_format fmt ≡ true
    → IsPattern (place_behind fmt) ps
    → in_name str (braced fmt ++ written ps) ≡ scanned str fmt (written ps)
in_name-directive str [] ps h k = in_name-written str ps k
in_name-directive str (c ∷ fmt) ps h k =
    ap (in_format str []) (append_assoc (c ∷ fmt) (b'}' ∷ []) (written ps))
    ∙ in_format-append str [] (c ∷ fmt) (written ps) h

-- The outer loop collects a text.
pub parse-literal :
    (m n : ℕ) (nstr s t : Bytes)
    → m ≡ length s + n
    → is_literal s ≡ true
    → parse m nstr (s ++ t) ≡ parse n (nstr ++ s) t
unfolding parse
parse-literal m n nstr [] t e h =
    ap (λ k. parse k nstr t) (omega (arith, e)) ∙ ap (λ u. parse n u t) (sym (append-nil nstr))
parse-literal zero n nstr (c ∷ s) t e h = absurd (omega (arith, e))
parse-literal (suc m) n nstr (c ∷ s) t e h = ground (
  arith,
  h,
  parse-literal m n (nstr ++ c ∷ []) s t (omega (arith, e)),
  append_assoc nstr (c ∷ []) s,
)

-- A text is pending only behind it.
abbrev Pending : Place → Bytes → Type 0
Pending behind_text nstr = is_empty nstr ≡ false
Pending _ nstr = nstr ≡ []

Pending-text :
    (place : Place) (nstr s : Bytes) → Pending place nstr → fits place s ≡ true → nstr ≡ []
Pending-text anywhere nstr s h k = h
Pending-text behind_name nstr s h k = h
Pending-text behind_text nstr [] h k = absurd (ground (arith, k))
Pending-text behind_text nstr (c ∷ s) h k = absurd (ground (arith, k))

text-Pending : (place : Place) (s : Bytes) → fits place s ≡ true → Pending behind_text s
text-Pending place [] h = absurd (ground (arith, h))
text-Pending place (c ∷ s) h = refl

flush_pending : (s : Bytes) → is_empty s ≡ false → flushed s ≡ text s ∷ []
flush_pending [] h = absurd (ground (arith, h))
flush_pending (c ∷ s) h = refl

behind-Pending : (fmt : Bytes) → Pending (place_behind fmt) []
behind-Pending [] = refl
behind-Pending (c ∷ fmt) = refl

abbrev all_right : List Part → Parsed
all_right ps = record { parts = ps; has_error = false }

-- A round of the outer loop at a directive.
parse-directive :
    (n : ℕ) (nstr str fmt : Bytes) (ps : List Part)
    → (is_word str && not (is_empty str)) ≡ true
    → is_format fmt ≡ true
    → IsPattern (place_behind fmt) ps
    → parse (suc n) nstr (b'%' ∷ (str ++ (braced fmt ++ written ps)))
      ≡ behind (flushed nstr ++ directive str fmt ∷ []) (parse n [] (written ps))
unfolding parse
parse-directive n nstr [] fmt ps h k l = absurd (ground (arith, h))
parse-directive n nstr (c ∷ str) fmt ps h k l = ground (
  arith,
  h,
  in_name-append [] (c ∷ str) (braced fmt ++ written ps) (ground (arith, h)),
  in_name-directive (c ∷ str) fmt ps k l,
)

length-directive :
    (str fmt : Bytes) (ps : List Part)
    → length (written (directive str fmt ∷ ps))
      ≡ suc (length str + length (braced fmt) + length (written ps))
length-directive str fmt ps =
    omega (
      arith,
      length-append (b'%' ∷ (str ++ braced fmt)) (written ps),
      length-append str (braced fmt),
    )

-- What is still collected is put out before the parts that follow.
parse-written :
    (n : ℕ) (place : Place) (nstr : Bytes) (ps : List Part)
    → length (written ps) ≤ n
    → Pending place nstr
    → IsPattern place ps
    → parse n nstr (written ps) ≡ all_right (flushed nstr ++ ps)
unfolding parse
parse-written zero place nstr [] h k l = ap all_right (sym (append-nil (flushed nstr)))
parse-written (suc n) place nstr [] h k l = ap all_right (sym (append-nil (flushed nstr)))
parse-written n place nstr (text s ∷ ps) h k (f, g, l) =
    let e = length-append s (written ps) in
    ap (λ u. parse n u (s ++ written ps)) (Pending-text place nstr s k f)
    ∙ parse-literal n (n - length s) [] s (written ps) (omega (arith, e, h)) g
    ∙ parse-written (n - length s) behind_text s ps (omega (arith, e, h)) (text-Pending place s f) l
    ∙ ap (λ u. all_right (u ++ ps)) (flush_pending s (text-Pending place s f))
    ∙ ap (λ u. all_right (flushed u ++ text s ∷ ps)) (sym (Pending-text place nstr s k f))
parse-written zero place nstr (directive str fmt ∷ ps) h k l =
    absurd (omega (arith, h, length-directive str fmt ps))
parse-written (suc n) place nstr (directive str fmt ∷ ps) h k (f, g, l) =
    ap (λ u. parse (suc n) nstr (b'%' ∷ u)) (append_assoc str (braced fmt) (written ps))
    ∙ parse-directive n nstr str fmt ps f g l
    ∙ ap (behind (flushed nstr ++ directive str fmt ∷ [])) (
        parse-written n (place_behind fmt) [] ps (omega (arith, h, length-directive str fmt ps))
          (behind-Pending fmt) l)
    ∙ ap all_right (append_assoc (flushed nstr) (directive str fmt ∷ []) ps)

-- A pattern written from parts, texts with no percent sign that can stand where they do and
-- directives with a name of letters and a format, is taken apart by init into the items of
-- just these parts, with an error exactly if one of the directives is unknown.
pub new_formatter-written :
    (ps : List Part)
    → IsPattern anywhere ps
    → new_formatter (written ps)
      ≡ record { pattern = written ps; items = items_of ps; is_error = any_unknown ps }
unfolding new_formatter
new_formatter-written ps h =
    ap (formatter_of (written ps))
      (parse-written (length (written ps)) anywhere [] ps (omega arith) refl h)
