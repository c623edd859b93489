-- ===== src/Log/Failing.antt =====
-- A file appender of myhttp/log.cpp whose stream has failed with its file open.
use mathlib.Core.Path.{transport}
use http_practice.Prelude.{
  ℕ, ◌≡◌, refl, sym, ap, ◌∙◌, true, false, not, ◌&&◌, List, [], ◌∷◌, ◌++◌, arith, leb, ◌==◌, inl,
  inr, Bool-cases,
}
use http_practice.Prelude.Results.{Result, ok, ◌>>=◌, After, After-bind, After-at}
use http_practice.Prelude.Text.{Bytes}
use http_practice.Log.Levels.{Level}
use http_practice.Log.Formatting.{LogEvent, System}
use http_practice.Log.Appenders.{
  Stream, LogSink, stdout_sink, file_sink, Appender, Written, formatted, reopen, takes, current,
  write_file, log_sink, append,
}

-- A stream that has failed with its file open.
abbrev pub Stuck : LogSink → Type 0
Stuck (file_sink filename st last_time) = (st.is_open && not st.is_good) ≡ true
Stuck stdout_sink = ⊥

module _ (sys : System) (name_of : ℕ → Result Bytes) where
  -- Opening it again does not mend it.
  current-Stuck :
      (now : ℕ) (filename : Bytes) (st : Stream) (last_time : ℕ)
      → (st.is_open && not st.is_good) ≡ true
      → current sys now filename st last_time ≡ st
  unfolding reopen
  current-Stuck now filename st last_time h = elim (Bool-cases (now == last_time)) [
    | inl x ↦ rw x refl
    | inr x ↦ rw (x, h) refl
  ]

  write-Stuck :
      (now : ℕ) (filename : Bytes) (st : Stream) (out : Bytes) (a : Appender)
      → (st.is_open && not st.is_good) ≡ true
      → (let r = write_file sys now filename st out a in Stuck (r.0).sink × (r.1 ≡ []))
  write-Stuck now filename st out a h =
      let shut : takes sys now filename st ≡ false = ground (arith, h) in
      rw shut ((ground (arith, h), refl))

  log_sink-Stuck :
      (now : ℕ) (s : LogSink) (level : Level) (e : LogEvent) (a : Appender)
      → Stuck s
      → After
          (λ (r : Appender × List Written). Stuck (r.0).sink × (r.1 ≡ []))
          (log_sink sys name_of now s level e a)
  log_sink-Stuck now stdout_sink level e a h = absurd h
  log_sink-Stuck now (file_sink filename st last_time) level e a h =
      After-bind _ (formatted sys name_of a.own_formatter level e) _ (λ out x.
        rw (current-Stuck now filename st last_time h) (write-Stuck now filename st out a h))

  append-Stuck :
      (now : ℕ) (level : Level) (e : LogEvent) (a : Appender)
      → Stuck a.sink
      → After
          (λ (r : Appender × List Written). Stuck (r.0).sink × (r.1 ≡ []))
          (append sys name_of now level e a)
  unfolding append
  append-Stuck now level e a h = elim (Bool-cases (leb a.min_level level)) [
    | inl x ↦ rw x (log_sink-Stuck now a.sink level e a h)
    | inr x ↦ rw x ((h, refl))
  ]

  abbrev joined :
      Appender × List Written → Appender × List Written → Result (Appender × List Written)
  joined r q = ok (q.0, r.1 ++ q.1)

  -- Calls of `log` one after another, each at its time.
  unfoldable pub append_all :
      List (ℕ × Level × LogEvent) → Appender → Result (Appender × List Written)
  append_all [] a = ok (a, [])
  append_all (c ∷ calls) a = do
    r ← append sys name_of c.0 c.1 c.2 a
    q ← append_all calls r.0
    joined r q

  append_all-Stuck :
      (calls : List (ℕ × Level × LogEvent)) (a : Appender)
      → Stuck a.sink
      → After (λ (r : Appender × List Written). r.1 ≡ []) (append_all calls a)
  unfolding append_all
  append_all-Stuck [] a h = refl
  append_all-Stuck (c ∷ calls) a h =
      let Q : (Appender × List Written → Type 0) = λ r. r.1 ≡ [] in
      After-bind Q (append sys name_of c.0 c.1 c.2 a) _ (λ r x.
        let k = After-at _ _ r (append-Stuck c.0 c.1 c.2 a h) x in
        After-bind Q (append_all calls r.0) (joined r)
          (λ q y. ap (λ u. u ++ q.1) k.1 ∙ After-at Q _ q (append_all-Stuck calls r.0 k.0) y))

  current-opened :
      (now : ℕ) (filename : Bytes) (st : Stream) (last_time : ℕ)
      → st.is_open ≡ true
      → sys.opens now filename ≡ true
      → (current sys now filename st last_time).is_open ≡ true
  unfolding reopen
  current-opened now filename st last_time h k = ground (arith, h, k)

  write-refused :
      (now : ℕ) (filename : Bytes) (st : Stream) (out : Bytes) (a : Appender)
      → st.is_open ≡ true
      → sys.accepts now filename ≡ false
      → Stuck ((write_file sys now filename st out a).0).sink
  write-refused now filename st out a h k =
      let shut : takes sys now filename st ≡ false = ground (arith, h, k) in
      rw shut (ground (arith, h))

  append-refused :
      (now : ℕ) (level : Level) (e : LogEvent) (a : Appender) (filename : Bytes) (st : Stream)
      (last_time : ℕ)
      → a.sink ≡ file_sink filename st last_time
      → st.is_open ≡ true
      → sys.opens now filename ≡ true
      → sys.accepts now filename ≡ false
      → leb a.min_level level ≡ true
      → After (λ (r : Appender × List Written). Stuck (r.0).sink) (append sys name_of now level e a)
  unfolding append
  append-refused now level e a filename st last_time s o p q l =
      let P : (Appender × List Written → Type 0) = λ r. Stuck (r.0).sink in
      rw l (
        transport (λ i. After P (log_sink sys name_of now (sym s i) level e a))
          (After-bind P (formatted sys name_of a.own_formatter level e) _ (λ out x.
            write-refused now filename (current sys now filename st last_time) out a
              (current-opened now filename st last_time o p) q)))

  -- Where a file appender whose file is open logs an event of its level in a second in which the
  -- file opens and the stream refuses what is written, no later call of log puts anything out,
  -- whatever the time and the level.
  pub append_all-refused :
      (now : ℕ) (level : Level) (e : LogEvent) (a b : Appender) (filename : Bytes) (st : Stream)
      (last_time : ℕ) (out : List Written) (calls : List (ℕ × Level × LogEvent))
      → a.sink ≡ file_sink filename st last_time
      → st.is_open ≡ true
      → sys.opens now filename ≡ true
      → sys.accepts now filename ≡ false
      → leb a.min_level level ≡ true
      → append sys name_of now level e a ≡ ok (b, out)
      → After (λ (r : Appender × List Written). r.1 ≡ []) (append_all calls b)
  append_all-refused now level e a b filename st last_time out calls s o p q l x =
      append_all-Stuck calls b
        (After-at _ _ (b, out) (append-refused now level e a filename st last_time s o p q l) x)
