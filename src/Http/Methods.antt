-- ===== src/Http/Methods.antt =====
-- Methods printed and read back.
use http_practice.Prelude.{◌⊎◌, ◌≡◌, ◌≢◌, refl, true, List, [], ◌∷◌, ◌++◌, inl, inr, Bool-cases}
use http_practice.Prelude.Text.{Bytes, c_str, is_prefix, IsHeadLine}
use http_practice.Prelude.Results.{ok, err, out_of_bounds, Returns}
use http_practice.Prelude.Splice.{All}
use http_practice.Http.Codes.{
  HttpMethod, method_map, first_method, string_to_http_method, http_method_to_string,
}

-- The text of a method: it can stand on a line, and it is read back from the start of a string.
pub named :
    (m : HttpMethod)
    → m ≢ HttpMethod.invalid_method
    → Returns
        (http_method_to_string m)
        (λ s. IsHeadLine s × ((rest : Bytes) → string_to_http_method (s ++ rest) ≡ m))
unfolding http_method_to_string string_to_http_method
named HttpMethod.delete h = (_, refl, ((refl, refl), λ rest. refl))
named HttpMethod.get h = (_, refl, ((refl, refl), λ rest. refl))
named HttpMethod.head h = (_, refl, ((refl, refl), λ rest. refl))
named HttpMethod.post h = (_, refl, ((refl, refl), λ rest. refl))
named HttpMethod.put h = (_, refl, ((refl, refl), λ rest. refl))
named HttpMethod.connect h = (_, refl, ((refl, refl), λ rest. refl))
named HttpMethod.options h = (_, refl, ((refl, refl), λ rest. refl))
named HttpMethod.trace h = (_, refl, ((refl, refl), λ rest. refl))
named HttpMethod.copy h = (_, refl, ((refl, refl), λ rest. refl))
named HttpMethod.lock h = (_, refl, ((refl, refl), λ rest. refl))
named HttpMethod.mkcol h = (_, refl, ((refl, refl), λ rest. refl))
named HttpMethod.move h = (_, refl, ((refl, refl), λ rest. refl))
named HttpMethod.propfind h = (_, refl, ((refl, refl), λ rest. refl))
named HttpMethod.proppatch h = (_, refl, ((refl, refl), λ rest. refl))
named HttpMethod.search h = (_, refl, ((refl, refl), λ rest. refl))
named HttpMethod.unlock h = (_, refl, ((refl, refl), λ rest. refl))
named HttpMethod.bind h = (_, refl, ((refl, refl), λ rest. refl))
named HttpMethod.rebind h = (_, refl, ((refl, refl), λ rest. refl))
named HttpMethod.unbind h = (_, refl, ((refl, refl), λ rest. refl))
named HttpMethod.acl h = (_, refl, ((refl, refl), λ rest. refl))
named HttpMethod.report h = (_, refl, ((refl, refl), λ rest. refl))
named HttpMethod.mkactivity h = (_, refl, ((refl, refl), λ rest. refl))
named HttpMethod.checkout h = (_, refl, ((refl, refl), λ rest. refl))
named HttpMethod.merge h = (_, refl, ((refl, refl), λ rest. refl))
named HttpMethod.msearch h = (_, refl, ((refl, refl), λ rest. refl))
named HttpMethod.notify h = (_, refl, ((refl, refl), λ rest. refl))
named HttpMethod.subscribe h = (_, refl, ((refl, refl), λ rest. refl))
named HttpMethod.unsubscribe h = (_, refl, ((refl, refl), λ rest. refl))
named HttpMethod.patch h = (_, refl, ((refl, refl), λ rest. refl))
named HttpMethod.purge h = (_, refl, ((refl, refl), λ rest. refl))
named HttpMethod.mkcalendar h = (_, refl, ((refl, refl), λ rest. refl))
named HttpMethod.link h = (_, refl, ((refl, refl), λ rest. refl))
named HttpMethod.unlink h = (_, refl, ((refl, refl), λ rest. refl))
named HttpMethod.source h = (_, refl, ((refl, refl), λ rest. refl))
named HttpMethod.invalid_method h = absurd (h refl)

-- The text of each method but the invalid one is read back as that method, whatever follows it
-- in the string.
pub http_method_to_string-string_to_http_method :
    (m : HttpMethod) (rest : Bytes)
    → m ≢ HttpMethod.invalid_method
    → Returns (http_method_to_string m) (λ s. string_to_http_method (s ++ rest) ≡ m)
http_method_to_string-string_to_http_method m rest h =
    let (s, e, both) = named m h in (s, e, both.1 rest)

first_method_sound :
    (es : List (HttpMethod × Bytes)) (m : Bytes)
    → All (λ (e : HttpMethod × Bytes). http_method_to_string e.0 ≡ ok e.1) es
    → (first_method es m ≡ HttpMethod.invalid_method)
      ⊎ Returns (http_method_to_string (first_method es m)) (λ s. is_prefix s m ≡ true)
first_method_sound [] m h = inl refl
first_method_sound (e ∷ es) m (h, hs) = elim (Bool-cases (is_prefix e.1 m)) [
  | inl x ↦ rw x (inr (e.1, h, x))
  | inr x ↦ rw x (first_method_sound es m hs)
]

pub string_to_http_method-http_method_to_string :
    (m : Bytes)
    → (string_to_http_method m ≡ HttpMethod.invalid_method)
      ⊎ Returns
          (http_method_to_string (string_to_http_method m))
          (λ s. is_prefix s (c_str m) ≡ true)
unfolding string_to_http_method http_method_to_string
string_to_http_method-http_method_to_string m = first_method_sound method_map (c_str m) (
  refl,
  (
    refl,
    (
      refl,
      (
        refl,
        (
          refl,
          (
            refl,
            (
              refl,
              (
                refl,
                (
                  refl,
                  (
                    refl,
                    (
                      refl,
                      (
                        refl,
                        (
                          refl,
                          (
                            refl,
                            (
                              refl,
                              (
                                refl,
                                (
                                  refl,
                                  (
                                    refl,
                                    (
                                      refl,
                                      (
                                        refl,
                                        (
                                          refl,
                                          (
                                            refl,
                                            (
                                              refl,
                                              (
                                                refl,
                                                (
                                                  refl,
                                                  (
                                                    refl,
                                                    (
                                                      refl,
                                                      (
                                                        refl,
                                                        (
                                                          refl,
                                                          (
                                                            refl,
                                                            (refl, (refl, (refl, (refl, tt)))),
                                                          ),
                                                        ),
                                                      ),
                                                    ),
                                                  ),
                                                ),
                                              ),
                                            ),
                                          ),
                                        ),
                                      ),
                                    ),
                                  ),
                                ),
                              ),
                            ),
                          ),
                        ),
                      ),
                    ),
                  ),
                ),
              ),
            ),
          ),
        ),
      ),
    ),
  ),
)

pub invalid_method-out_of_bounds :
    http_method_to_string HttpMethod.invalid_method ≡ err out_of_bounds
unfolding http_method_to_string
invalid_method-out_of_bounds = refl
