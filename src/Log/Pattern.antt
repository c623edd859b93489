-- ===== src/Log/Pattern.antt =====
-- `LogFormatter::init` of myhttp/log.cpp: a pattern taken apart, and the items that its parts name.
use http_practice.Prelude.{
  ℕ, zero, suc, Bool, true, false, not, ◌&&◌, ◌||◌, List, [], ◌∷◌, ◌++◌, leb, ◌==◌, if◌then◌else◌,
  length,
}
use http_practice.Prelude.Text.{Bytes, bytes, is_empty}

-- `vec`: its third field is the constructor.
pub data Part : Type 0 where
  text : Bytes → Part
  directive : Bytes → Bytes → Part

-- `isalpha` in the C locale.
abbrev pub is_alpha : ℕ → Bool
is_alpha c = (leb b'A' c && leb c b'Z') || (leb b'a' c && leb c b'z')

-- Where the inner loop ends: with `fmt_status` 0 at what follows, or with 1 at the end.
pub data Found : Type 0 where
  scanned : Bytes → Bytes → Bytes → Found
  unclosed : Found

abbrev pub in_format : Bytes → Bytes → Bytes → Found
in_format str fmt [] = unclosed
in_format str fmt (c ∷ s) =
    let rest = in_format str (fmt ++ c ∷ []) s in if c == b'}' then scanned str fmt s else rest

abbrev pub in_name : Bytes → Bytes → Found
in_name str [] = scanned str [] []
in_name str (c ∷ s) =
    let rest = in_name (str ++ c ∷ []) s in
    if not (is_alpha c || (c == b'{') || (c == b'}'))
    then scanned str [] (c ∷ s)
    else if c == b'{'
    then in_format str [] s
    else rest

abbrev pub flushed : Bytes → List Part
flushed nstr = if is_empty nstr then [] else text nstr ∷ []

-- `vec` and `m_error`.
pub record Parsed : Type 0 where
  pub parts : List Part
  pub has_error : Bool

abbrev pub behind : List Part → Parsed → Parsed
behind ps r = record r { parts = ps ++ r.parts }

abbrev pub with_error : List Part → Parsed → Parsed
with_error ps r = record { parts = ps ++ r.parts; has_error = true }

abbrev pub starts_percent : Bytes → Bool
starts_percent [] = false
starts_percent (c ∷ s) = c == b'%'

-- After a directive the loop goes on with no `nstr`; an unclosed format leaves `nstr` and `i`.
abbrev pub at_directive : (Bytes → Bytes → Parsed) → Bytes → Bytes → Found → Parsed
at_directive next nstr s (scanned str fmt rest) =
    behind (flushed nstr ++ directive str fmt ∷ []) (next [] rest)
at_directive next nstr s unclosed = with_error (text (bytes "<<pattern_error>>") ∷ []) (next nstr s)

-- The loop over the pattern, on fuel: its bytes.
unfoldable pub parse : ℕ → Bytes → Bytes → Parsed
parse zero nstr s = record { parts = flushed nstr; has_error = false }
parse (suc n) nstr [] = record { parts = flushed nstr; has_error = false }
parse (suc n) nstr (c ∷ s) =
    let literal = parse n (nstr ++ c ∷ []) s in
    let found = at_directive (parse n) nstr s (in_name [] s) in
    if not (c == b'%')
    then literal
    else if starts_percent s
    then parse n (nstr ++ b'%' ∷ []) s
    else found

-- The classes of items; the date's has its format, a string's its text.
pub data Item : Type 0 where
  message_item level_item elapse_item name_item thread_id_item new_line_item : Item
  filename_item line_item tab_item fiber_id_item thread_name_item : Item
  date_time_item string_item : Bytes → Item

abbrev default_date : Bytes
default_date = bytes "%Y-%m-%d %H:%M:%S"

abbrev pub date_time : Bytes → Item
date_time format = date_time_item (if is_empty format then default_date else format)

-- What the lookup in `s_format_items` gives: an item, and whether it had to be made up.
abbrev pub unknown : Bytes → Item × Bool
unknown str = (string_item (bytes "<<error_format %" ++ str ++ bytes ">>"), true)

abbrev pub item_of_char : ℕ → Bytes → Bytes → Item × Bool
item_of_char c str fmt =
    if c == b'm'
    then (message_item, false)
    else if c == b'p'
    then (level_item, false)
    else if c == b'r'
    then (elapse_item, false)
    else if c == b'c'
    then (name_item, false)
    else if c == b't'
    then (thread_id_item, false)
    else if c == b'n'
    then (new_line_item, false)
    else if c == b'f'
    then (filename_item, false)
    else if c == b'l'
    then (line_item, false)
    else if c == b'd'
    then (date_time fmt, false)
    else if c == b'T'
    then (tab_item, false)
    else if c == b'F'
    then (fiber_id_item, false)
    else if c == b'N'
    then (thread_name_item, false)
    else unknown str

abbrev pub named_item : Bytes → Bytes → Item × Bool
named_item [] fmt = unknown []
named_item (c ∷ []) fmt = item_of_char c (c ∷ []) fmt
named_item (c ∷ d ∷ s) fmt = unknown (c ∷ d ∷ s)

abbrev pub item_of : Part → Item × Bool
item_of (text s) = (string_item s, false)
item_of (directive str fmt) = named_item str fmt

-- The second loop: `m_items`, and whether one had no class.
abbrev pub items_of : List Part → List Item
items_of [] = []
items_of (p ∷ ps) = (item_of p).0 ∷ items_of ps

abbrev pub any_unknown : List Part → Bool
any_unknown [] = false
any_unknown (p ∷ ps) = (item_of p).1 || any_unknown ps

pub record LogFormatter : Type 0 where
  pub pattern : Bytes
  pub items : List Item
  pub is_error : Bool

abbrev pub formatter_of : Bytes → Parsed → LogFormatter
formatter_of pattern r = record {
  pattern = pattern;
  items = items_of r.parts;
  is_error = r.has_error || any_unknown r.parts;
}

unfoldable pub new_formatter : Bytes → LogFormatter
unfolding parse
new_formatter pattern = formatter_of pattern (parse (length pattern) [] pattern)
