-- ===== src/Address/Lookup/Hosts.antt =====
-- How `Lookup` of myhttp/address.cpp takes host texts apart.
use http_practice.Prelude.{
  ℕ, ◌≡◌, refl, ap, ◌∙◌, Bool, true, false, not, ◌&&◌, [], ◌∷◌, ◌++◌, none, some, arith, ◌==◌,
}
use http_practice.Prelude.Text.{Bytes, c_str}
use http_practice.Address.Lookup.{
  memchr, bracketed, plain, at_colon, at_second, in_brackets, split_host,
}

-- A text without a byte, and without a zero byte.
abbrev pub lacks : ℕ → Bytes → Bool
lacks c [] = true
lacks c (x ∷ s) = not (x == c) && lacks c s

memchr-lacks : (c : ℕ) (s : Bytes) → lacks c s ≡ true → memchr c s ≡ none
memchr-lacks c [] h = refl
memchr-lacks c (x ∷ s) h = ground (arith, h, memchr-lacks c s (ground (arith, h)))

memchr-append : (c : ℕ) (s t : Bytes) → lacks c s ≡ true → memchr c (s ++ c ∷ t) ≡ some (s, t)
memchr-append c [] t h = ground arith
memchr-append c (x ∷ s) t h = ground (arith, h, memchr-append c s t (ground (arith, h)))

c_str-lacks : (s : Bytes) → lacks 0 s ≡ true → c_str s ≡ s
c_str-lacks [] h = refl
c_str-lacks (x ∷ s) h = ground (arith, h, c_str-lacks s (ground (arith, h)))

-- A host that does not start with a bracket.
no_bracket : (x : ℕ) (s : Bytes) → (x == b'[') ≡ false → bracketed (x ∷ s) ≡ ([], none)
no_bracket x s h = rw h refl

split_host-plain :
    (x : ℕ) (node port : Bytes)
    → (x == b'[') ≡ false
    → lacks b':' (x ∷ node) ≡ true
    → lacks b':' port ≡ true
    → lacks 0 port ≡ true
    → (split_host (x ∷ node) ≡ (x ∷ node, none))
      × (split_host (x ∷ node ++ b':' ∷ port) ≡ (x ∷ node, some port))
unfolding split_host
split_host-plain x node port h k l m =
    let whole = x ∷ node ++ b':' ∷ port in
    (
      ap (plain (x ∷ node)) (no_bracket x node h)
          ∙ ap (at_colon (x ∷ node)) (memchr-lacks b':' (x ∷ node) k),
      ap (plain whole) (no_bracket x (node ++ b':' ∷ port) h)
          ∙ ap (at_colon whole) (memchr-append b':' (x ∷ node) port k)
          ∙ ap (at_second whole (x ∷ node) port) (memchr-lacks b':' port l)
          ∙ ap (λ s. (x ∷ node, some s)) (c_str-lacks port m),
    )

split_host-brackets :
    (x : ℕ) (node port : Bytes)
    → lacks b']' (x ∷ node) ≡ true
    → lacks 0 port ≡ true
    → (split_host (b'[' ∷ x ∷ node ++ b']' ∷ []) ≡ (x ∷ node, none))
      × (split_host (b'[' ∷ x ∷ node ++ b']' ∷ b':' ∷ port) ≡ (x ∷ node, some port))
unfolding split_host
split_host-brackets x node port h k = (
  ap (λ o. plain (b'[' ∷ x ∷ node ++ b']' ∷ []) (in_brackets o))
      (memchr-append b']' (x ∷ node) [] h),
  ap (λ o. plain (b'[' ∷ x ∷ node ++ b']' ∷ b':' ∷ port) (in_brackets o))
        (memchr-append b']' (x ∷ node) (b':' ∷ port) h)
      ∙ rw (c_str-lacks port k) refl,
)

-- Lookup of a host with two colons that does not start with a bracket, as of a bare IPv6
-- address, takes the whole as the node and passes getaddrinfo the text from the first colon on
-- as the service.
pub split_host-two_colons :
    (x : ℕ) (u v w : Bytes)
    → (x == b'[') ≡ false
    → lacks b':' (x ∷ u) ≡ true
    → lacks b':' v ≡ true
    → (let host = x ∷ u ++ b':' ∷ (v ++ b':' ∷ w) in
        split_host host ≡ (host, some (c_str (b':' ∷ (v ++ b':' ∷ w)))))
unfolding split_host
split_host-two_colons x u v w h k l =
    let rest = v ++ b':' ∷ w in
    let host = x ∷ u ++ b':' ∷ rest in
    ap (plain host) (no_bracket x (u ++ b':' ∷ rest) h)
    ∙ ap (at_colon host) (memchr-append b':' (x ∷ u) rest k)
    ∙ ap (at_second host (x ∷ u) rest) (memchr-append b':' v w l)

-- Lookup takes a host, a host and a port behind a colon, an address in brackets, and one with
-- a port behind the brackets apart into the node and the service, where the host is not empty,
-- has no colon and does not start with a bracket, the address is not empty and has no closing
-- bracket, and the port has no colon and no zero byte.
pub split_host-forms :
    (x y : ℕ) (node inner port : Bytes)
    → (x == b'[') ≡ false
    → lacks b':' (x ∷ node) ≡ true
    → lacks b']' (y ∷ inner) ≡ true
    → lacks b':' port ≡ true
    → lacks 0 port ≡ true
    → (split_host (x ∷ node) ≡ (x ∷ node, none))
      × (split_host (x ∷ node ++ b':' ∷ port) ≡ (x ∷ node, some port))
      × (split_host (b'[' ∷ y ∷ inner ++ b']' ∷ []) ≡ (y ∷ inner, none))
      × (split_host (b'[' ∷ y ∷ inner ++ b']' ∷ b':' ∷ port) ≡ (y ∷ inner, some port))
split_host-forms x y node inner port h k l m n =
    let (a, b) = split_host-plain x node port h k m n in
    let (c, d) = split_host-brackets y inner port l n in (a, b, c, d)
