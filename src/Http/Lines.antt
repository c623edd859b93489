-- ===== src/Http/Lines.antt =====
-- How a peer reads a message of myhttp/http/http.cpp: by lines, up to the empty one.
use http_practice.Prelude.{
  ℕ, zero, suc, ◌≡◌, refl, ap, ◌∙◌, true, false, List, [], ◌∷◌, ◌++◌, Option, none, some, arith,
  ◌==◌, if◌then◌else◌, length,
}
use http_practice.Prelude.Text.{Bytes, is_line, is_empty, IsHeadLine}
use http_practice.Prelude.Splice.{All}
use http_practice.Http.Message.{crlf}

-- The reader that a peer is: a line ends at CR LF, and a bare CR is an error.
abbrev pub after_cr : Bytes → Option (Bytes × Bytes)
after_cr [] = none
after_cr (y ∷ s) = if y == b'\n' then some ([], s) else none

abbrev pub longer : ℕ → Option (Bytes × Bytes) → Option (Bytes × Bytes)
longer x none = none
longer x (some (l, s)) = some (x ∷ l, s)

abbrev pub read_line : Bytes → Option (Bytes × Bytes)
read_line [] = none
read_line (x ∷ s) = let rest = read_line s in if x == b'\r' then after_cr s else longer x rest

abbrev pub with_line : Bytes → Option (List Bytes × Bytes) → Option (List Bytes × Bytes)
with_line l none = none
with_line l (some (ls, s)) = some (l ∷ ls, s)

-- The lines before the empty one, and what follows it, on fuel: one more than the lines.
abbrev headed :
    (Bytes → Option (List Bytes × Bytes)) → Option (Bytes × Bytes) → Option (List Bytes × Bytes)
headed next none = none
headed next (some ([], s)) = some ([], s)
headed next (some (x ∷ l, s)) = with_line (x ∷ l) (next s)

abbrev pub read_head : ℕ → Bytes → Option (List Bytes × Bytes)
read_head zero s = none
read_head (suc n) s = headed (read_head n) (read_line s)

-- Lines, an empty line and a body.
abbrev pub message : List Bytes → Bytes → Bytes
message [] body = crlf ++ body
message (l ∷ ls) body = l ++ (crlf ++ message ls body)

pub read_line-line : (l s : Bytes) → is_line l ≡ true → read_line (l ++ (crlf ++ s)) ≡ some (l, s)
read_line-line [] s h = refl
read_line-line (x ∷ l) s h = ground (arith, h, read_line-line l s)

pub headed-line :
    (next : Bytes → Option (List Bytes × Bytes)) (l s : Bytes)
    → is_empty l ≡ false
    → headed next (some (l, s)) ≡ with_line l (next s)
headed-line next [] s h = absurd (ground (arith, h))
headed-line next (x ∷ l) s h = refl

pub read_head-message :
    (ls : List Bytes) (body : Bytes)
    → All IsHeadLine ls
    → read_head (suc (length ls)) (message ls body) ≡ some (ls, body)
read_head-message [] body h = refl
read_head-message (l ∷ ls) body ((h, k), hs) =
    ap (headed (read_head (suc (length ls)))) (read_line-line l (message ls body) h)
    ∙ headed-line (read_head (suc (length ls))) l (message ls body) k
    ∙ ap (with_line l) (read_head-message ls body hs)
