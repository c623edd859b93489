-- ===== src/Log/Changes.antt =====
-- The listener of the `logs` configuration of myhttp/log.cpp: definitions that did not change, and
-- those that are gone.
use http_practice.Prelude.{
  ℕ, zero, suc, ◌<◌, ◌≡◌, refl, ap, ◌∙◌, Bool, true, false, List, [], ◌∷◌, ◌++◌, Option, none, some,
  arith, leb, get_elem?, set, length, get_elem?-set_self, inl, inr, Option-cases,
}
use http_practice.Prelude.Results.{Result, ok, err, ◌>>=◌, After, After-at}
use http_practice.Log.Levels.{Level}
use http_practice.Log.Formatting.{LogEvent, System}
use http_practice.Log.Loggers.{Logging, set_level, clear_appenders, log, log_event}
use http_practice.Log.Defines.{
  LogDefine, eq_define, find_define, found_logger, configure_in, configure_all, silenced, on_change,
}

abbrev pub is_ok {ℓ} : {A : Type ℓ} → Result A → Bool
is_ok (ok a) = true
is_ok (err f) = false

is_ok-bind :
    {A B : Type 0} (r : Result A) (f : A → Result B)
    → ((a : A) → is_ok (f a) ≡ false)
    → is_ok (r >>= f) ≡ false
is_ok-bind (ok a) f h = h a
is_ok-bind (err e) f h = refl

in_range : {A : Type 0} (xs : List A) (i : ℕ) (a : A) → get_elem? xs i ≡ some a → i < length xs
in_range [] i a h = absurd (ground (arith, h))
in_range (x ∷ xs) zero a h = omega arith
in_range (x ∷ xs) (suc i) a h = omega (arith, in_range xs i a h)

is_ok-err :
    {A B : Type 0} (r : Result A) (f : A → Result B) → is_ok r ≡ false → is_ok (r >>= f) ≡ false
is_ok-err (ok a) f h = absurd (ground (arith, h))
is_ok-err (err e) f h = refl

module _ (sys : System) (now : ℕ) where
  found_unchanged :
      (o : Option LogDefine) (d e : LogDefine) (s : Logging)
      → o ≡ some e
      → eq_define d e ≡ true
      → found_logger sys now o d s ≡ (s, none)
  found_unchanged none d e s h k = absurd (ground (arith, h))
  found_unchanged (some f) d e s h k =
      let same : eq_define d f ≡ true =
        ap (λ o. elim o [ none ↦ true | some g ↦ eq_define d g ]) h ∙ k in
      rw same refl

  configure_all-unchanged :
      (old_value before behind : List LogDefine) (d e : LogDefine) (s : Logging)
      → find_define d old_value ≡ some e
      → eq_define d e ≡ true
      → is_ok (configure_all sys now old_value (before ++ d ∷ behind) s) ≡ false
  unfolding configure_all
  configure_all-unchanged old_value [] behind d e s h k =
      ap (λ r. is_ok (configure_in sys now d r >>= λ t. configure_all sys now old_value behind t))
        (found_unchanged (find_define d old_value) d e s h k)
  configure_all-unchanged old_value (b ∷ before) behind d e s h k =
      is_ok-bind _ _ (λ t. configure_all-unchanged old_value before behind d e t h k)

  -- The listener of the logs configuration never ends normally where the new value holds a
  -- definition equal to the one of its name in the old value.
  pub on_change-unchanged :
      (notice : LogEvent) (old_value before behind : List LogDefine) (d e : LogDefine) (s : Logging)
      → find_define d old_value ≡ some e
      → eq_define d e ≡ true
      → is_ok (on_change sys now notice old_value (before ++ d ∷ behind) s) ≡ false
  unfolding on_change
  on_change-unchanged notice old_value before behind d e s h k =
      is_ok-bind (log_event sys now notice s) _
        (λ t. is_ok-err _ _ (configure_all-unchanged old_value before behind d e t h k))

  silenced-After :
      (h k : ℕ) (level : Level) (e : LogEvent) (s : Logging)
      → level < 100
      → After (λ t. log sys now (suc k) h level e t ≡ ok t) (silenced sys now (s, h))
  unfolding log set_level clear_appenders
  silenced-After h k level e s y = elim (Option-cases (get_elem? s.loggers h)) [
    | inl x ↦ rw x tt
    | inr (l, x) ↦
        let first =
          get_elem?-set_self s.loggers h (record l { level = 100 }) (in_range s.loggers h l x) in
        rw (x, first)
          (rw
            (get_elem?-set_self (set s.loggers h (record l { level = 100 })) h
              (record l { level = 100; appenders = [] }) (in_range _ h _ first))
            (let low : leb 100 level ≡ false = ground (arith, y) in rw low refl))
  ]

  -- A logger that the listener silences drops every event of a level below 100.
  silenced-log :
      (h k : ℕ) (level : Level) (e : LogEvent) (s t : Logging)
      → silenced sys now (s, h) ≡ ok t
      → level < 100
      → log sys now (suc k) h level e t ≡ ok t
  silenced-log h k level e s t x y = After-at _ _ t (silenced-After h k level e s y) x
