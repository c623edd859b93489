-- ===== src/Address/Unix.antt =====
-- `UnixAddress` of myhttp/address.cpp: the 108 bytes of `sun_path`, behind the 2 of the family.
use mathlib.Core.List.{append_assoc}
use http_practice.Prelude.{
  ℕ, suc, ◌+◌, ◌-◌, ◌%◌, ◌^◌, ◌≤◌, ◌<◌, ◌≡◌, refl, ap, Bool, true, false, not, ◌&&◌, [], ◌∷◌, ◌++◌,
  arith, ltb, ◌==◌, if◌then◌else◌, length, take, drop, replicate, length-append, length-take,
  length-replicate, inl, inr, Bool-cases,
}
use http_practice.Prelude.Text.{Bytes, bytes, c_str}

-- `UnixAddress` ends in `std::logic_error` for a path that is too long.
pub data Constructed {ℓ} (A : Type ℓ) : Type ℓ where
  made : A → Constructed A
  logic_error : Constructed A

pub record UnixAddress : Type 0 where
  pub sun_path : Bytes
  pub m_length : ℕ

abbrev path_offset : ℕ
path_offset = 2

-- The address without a path has the length of the longest one.
abbrev pub new_unix : UnixAddress
new_unix = record { sun_path = replicate 108 0; m_length = path_offset + 107 }

abbrev starts_zero : Bytes → Bool
starts_zero [] = false
starts_zero (x ∷ s) = x == 0

-- What `memcpy` takes of `path.c_str()`, whose last byte is the zero behind the path.
abbrev copied : Bytes → ℕ → Bytes
copied path n = take n (path ++ 0 ∷ [])

-- `m_length` behind the `--`, a `socklen_t` of 32 bits.
abbrev pub sun_length : Bytes → ℕ
sun_length path =
    let n = (length path + 1) % 2 ^ 32 in
    if starts_zero path then (n + (2 ^ 32 - 1)) % 2 ^ 32 else n

unfoldable pub unix_of_path : Bytes → Constructed UnixAddress
unix_of_path path =
    let n = sun_length path in
    if ltb 108 n
    then logic_error
    else made
        (record { sun_path = copied path n ++ replicate (108 - n) 0; m_length = path_offset + n })

abbrev pub set_addr_len : ℕ → UnixAddress → UnixAddress
set_addr_len v a = record a { m_length = v }

-- `insert`: an abstract path by its length, any other up to its zero byte.
unfoldable pub unix_text : UnixAddress → Bytes
unix_text a =
    if ltb path_offset a.m_length && starts_zero a.sun_path
    then bytes "\\0" ++ take (a.m_length - path_offset - 1) (drop 1 a.sun_path)
    else c_str a.sun_path

-- No byte of the path is zero.
abbrev pub is_text : Bytes → Bool
is_text [] = true
is_text (x ∷ s) = not (x == 0) && is_text s

c_str-append : (s t : Bytes) → is_text s ≡ true → c_str (s ++ 0 ∷ t) ≡ s
c_str-append [] t h = refl
c_str-append (x ∷ s) t h = ground (arith, h, c_str-append s t)

take-whole : (s t : Bytes) → take (length s) (s ++ t) ≡ s
take-whole [] t = refl
take-whole (x ∷ s) t = ap (◌∷◌ x) (take-whole s t)

take-whole_zero : (s : Bytes) → take (suc (length s)) (s ++ 0 ∷ []) ≡ s ++ 0 ∷ []
take-whole_zero [] = refl
take-whole_zero (x ∷ s) = ap (◌∷◌ x) (take-whole_zero s)

-- An address made of a path, and what is printed of it.
abbrev pub Prints : Constructed UnixAddress → Bytes → Type 0
Prints (made a) s = unix_text a ≡ s
Prints logic_error s = ⊥

sun_length-path :
    (x : ℕ) (s : Bytes)
    → (x == 0) ≡ false
    → length s < 2 ^ 32 - 2
    → sun_length (x ∷ s) ≡ suc (suc (length s))
sun_length-path x s h k = rw h (omega (arith, k))

sun_length-abstract : (s : Bytes) → length s < 2 ^ 32 - 1 → sun_length (0 ∷ s) ≡ suc (length s)
sun_length-abstract s k = omega (arith, k)

unix_of_path-path :
    (x : ℕ) (s : Bytes)
    → is_text (x ∷ s) ≡ true
    → length s < 107
    → Prints (unix_of_path (x ∷ s)) (x ∷ s)
unfolding unix_of_path unix_text
unix_of_path-path x s h k =
    let named : (x == 0) ≡ false = ground (arith, h) in
    let fits : ltb 108 (suc (suc (length s))) ≡ false = ground (arith, k) in
    let long : ltb path_offset (path_offset + suc (suc (length s))) ≡ true = ground arith in
    rw (sun_length-path x s named (omega (arith, k)), fits)
      (rw
        (
          long,
          named,
          take-whole_zero s,
          append_assoc s (0 ∷ []) (replicate (108 - suc (suc (length s))) 0),
        )
        (ap (◌∷◌ x)
          (c_str-append s (replicate (108 - suc (suc (length s))) 0) (ground (arith, h)))))

unix_of_path-abstract :
    (s : Bytes) → length s < 108 → Prints (unix_of_path (0 ∷ s)) (bytes "\\0" ++ s)
unfolding unix_of_path unix_text
unix_of_path-abstract s k =
    let fits : ltb 108 (suc (length s)) ≡ false = ground (arith, k) in
    rw (sun_length-abstract s (omega (arith, k)), fits)
      (let n : path_offset + suc (length s) - path_offset - 1 ≡ length s = omega arith in
        let long : ltb path_offset (path_offset + suc (length s)) ≡ true = ground arith in
        rw (take-whole s (0 ∷ []), long, n, take-whole s (replicate (108 - suc (length s)) 0)) refl)

unix_of_path_long :
    (x : ℕ) (s : Bytes)
    → (x == 0) ≡ false
    → 107 ≤ length s
    → length s < 2 ^ 32 - 2
    → unix_of_path (x ∷ s) ≡ logic_error
unfolding unix_of_path
unix_of_path_long x s h k l =
    let long : ltb 108 (suc (suc (length s))) ≡ true = ground (arith, k) in
    rw (sun_length-path x s h l, long) refl

-- The length of a path of 2 ^ 32 - 1 bytes wraps, and none of them is copied.
unix_of_path_wrapped :
    (x : ℕ) (s : Bytes)
    → (x == 0) ≡ false
    → length s ≡ 2 ^ 32 - 2
    → Prints (unix_of_path (x ∷ s)) []
unfolding unix_of_path unix_text
unix_of_path_wrapped x s h k =
    let none : sun_length (x ∷ s) ≡ 0 = rw h (omega (arith, k)) in rw none refl

-- The bytes of the field are all set, and the length is within the structure.
abbrev pub InField : Constructed UnixAddress → Type 0
InField (made a) =
    (length a.sun_path ≡ 108) × (path_offset ≤ a.m_length) × (a.m_length ≤ path_offset + 108)
InField logic_error = Unit

sun_length_le : (path : Bytes) → sun_length path ≤ length path + 1
sun_length_le path = ground arith

field-InField :
    (path : Bytes) (n : ℕ)
    → n ≤ length path + 1
    → InField (
        if ltb 108 n
        then logic_error
        else made (record {
          sun_path = copied path n ++ replicate (108 - n) 0;
          m_length = path_offset + n;
        }))
field-InField path n h = elim (Bool-cases (ltb 108 n)) [
  | inl x ↦ rw x tt
  | inr x ↦
      let small : n ≤ 108 = ground (arith, x) in
      rw x (
        (
          omega (
            arith,
            small,
            h,
            length-append (take n (path ++ 0 ∷ [])) (replicate (108 - n) 0),
            length-take n (path ++ 0 ∷ []),
            length-append path (0 ∷ []),
            length-replicate {A = ℕ} (108 - n) 0,
          ),
          omega arith,
          omega (arith, small),
        ))
]

unix_of_path-InField : (path : Bytes) → InField (unix_of_path path)
unfolding unix_of_path
unix_of_path-InField path = field-InField path (sun_length path) (sun_length_le path)

-- A UnixAddress made of a path of 1 to 107 bytes, none of them zero, prints that path; one
-- made of a zero byte and up to 107 bytes behind it prints these bytes behind a backslash and
-- a 0; a path of 108 to 2^32 - 2 bytes whose first one is not zero ends in logic_error; and an
-- address made of a path of any length at all has just the 108 bytes of the field in it and a
-- length of 2 to 110.
pub unix_of_path-Prints :
    (x y : ℕ) (s t u v : Bytes)
    → is_text (x ∷ s) ≡ true
    → length s < 107
    → length t < 108
    → (y == 0) ≡ false
    → 107 ≤ length u
    → length u < 2 ^ 32 - 2
    → Prints (unix_of_path (x ∷ s)) (x ∷ s)
      × Prints (unix_of_path (0 ∷ t)) (bytes "\\0" ++ t)
      × (unix_of_path (y ∷ u) ≡ logic_error)
      × InField (unix_of_path v)
unix_of_path-Prints x y s t u v h k l m lo hi = (
  unix_of_path-path x s h k,
  unix_of_path-abstract t l,
  unix_of_path_long y u m lo hi,
  unix_of_path-InField v,
)
