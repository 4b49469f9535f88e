-- ===== src/Tap/Serving.antt =====
-- The loop of a connection: it ends, and it answers one request with one response.
use virtlet.Prelude.{
  ℕ, zero, suc, ◌≤◌, ◌<◌, ◌≡◌, refl, sym, ◌∙◌, Str, true, Bool-cases, inl, inr, Option, none, some,
  List, [], ◌∷◌, ◌++◌, ◌==◌, length, append-nil, append_assoc, arith,
}
use virtlet.Result.{Result, ok, err, fault}
use virtlet.Prog.{Prog, attempt, ◌>>=◌, ◌>>◌}
use virtlet.Prog.Laws.{ok->>=}
use virtlet.Prog.Steady.{Course, Arrives, IsSteady, >>=-Arrives}
use virtlet.Tap.Ending.{IsEnding, quiet, dispatch-IsSteady}
use virtlet.Tap.Header.{FdHeader, Read, eof, short, got, encode_header, read_header, fd_magic}
use virtlet.Tap.RoundTrip.{read_header-length, IsWellSized, read_header-encode_header}
use virtlet.Tap.Source.{FdSource, Platform}
use virtlet.Tap.Server.{
  Server, Response, Answer, response, write, error_answer, dispatch, respond, serve_rounds,
}

module _ (src : FdSource) (os : Platform) where
  open src use {S}

  pub round-got :
      (n : ℕ) (h : FdHeader) (bytes : Str) (s : Server S)
      → read_header s.input ≡ got h bytes
      → (h.magic == fd_magic) ≡ true
      → serve_rounds src os (suc n) s
        ≡ (respond src os h >> serve_rounds src os n) (record s { input = bytes })
  unfolding serve_rounds
  round-got n h bytes s found same = rw (serve_rounds, found, same)

  round-end : (n : ℕ) (s : Server S) → s.input ≡ [] → serve_rounds src os (suc n) s ≡ (ok tt, s)
  unfolding serve_rounds read_header
  round-end n s done =
      let ends : read_header s.input ≡ eof = rw (done, read_header) in rw (serve_rounds, ends)

  pub served_rounds :
      (n : ℕ) (h : FdHeader) (bytes : Str) (s t : Server S)
      → IsWellSized h
      → h.magic ≡ fd_magic
      → s.input ≡ encode_header h ++ bytes
      → respond src os h (record s { input = bytes }) ≡ (ok tt, t)
      → t.input ≡ []
      → serve_rounds src os (suc (suc n)) s ≡ (ok tt, t)
  served_rounds n h bytes s t fits magic given answered done =
      let found : read_header s.input ≡ got h bytes =
        rw given (read_header-encode_header h bytes fits) in
      round-got (suc n) h bytes s found (rw magic)
      ∙ ok->>= (respond src os h) _ _ t tt answered
      ∙ round-end n t done

  -- The answer that a handler's outcome makes.
  abbrev pub answer_of : Result Answer → Option Answer
  answer_of (ok a) = some a
  answer_of (err e) = some (error_answer src os e)
  answer_of (fault f) = none

-- Input is consumed, and output is added to.
abbrev pub forward : (S : Type 0) → Course (Server S)
forward S = record {
  leads =
      λ s t. (length t.input ≤ length s.input) × ((w : List Response) × (t.output ≡ s.output ++ w));
  stay = λ s. (omega arith, ([], sym (append-nil s.output)));
  go_on = λ {s} {t} {u} h k. (
    omega (arith, h.0, k.0),
    (h.1.0 ++ k.1.0, k.1.1 ∙ rw (h.1.1) (append_assoc s.output h.1.0 k.1.0)),
  );
}

module _ (src : FdSource) (os : Platform) (fair : IsEnding src) where
  open src use {S}

  abbrev pub finish : Result Answer → Prog (Server S) (Unit {0})
  finish (ok a) t = write src os a t
  finish (err e) t = write src os (error_answer src os e) t
  finish (fault f) t = (fault f, t)

  pub respond-finish :
      (h : FdHeader) (s : Server S)
      → respond src os h s ≡ finish (dispatch src os h s).0 (dispatch src os h s).1
  unfolding respond ◌>>=◌ attempt
  respond-finish h s = ground arith

  finish-Arrives :
      (s : Server S) (r : Result Answer) (t : Server S)
      → Arrives (quiet S) s (r, t)
      → Arrives (forward S) s (finish r t)
  finish-Arrives s (ok a) t ((less, same), over) = ((less, (response src os a ∷ [], rw same)), refl)
  finish-Arrives s (err e) t ((less, same), over) =
      ((less, (response src os (error_answer src os e) ∷ [], rw same)), refl)
  finish-Arrives s (fault f) t ((less, same), over) =
      ((less, ([], same ∙ sym (append-nil s.output))), ground (arith, over))

  respond-IsSteady : (h : FdHeader) → IsSteady (forward S) (respond src os h)
  respond-IsSteady h s =
      rw (respond-finish h s) (finish-Arrives s _ _ (dispatch-IsSteady src os fair h s))

  round-Arrives :
      (n : ℕ) (s : Server S) (r : Read)
      → read_header s.input ≡ r
      → ((t : Server S)
          → length t.input < length s.input
          → Arrives (forward S) t (serve_rounds src os n t))
      → Arrives (forward S) s (serve_rounds src os (suc n) s)
  unfolding serve_rounds
  round-Arrives n s eof e rest = rw (serve_rounds, e) ((forward S).stay s, refl)
  round-Arrives n s short e rest =
      rw (serve_rounds, e) ((omega arith, ([], sym (append-nil s.output))), refl)
  round-Arrives n s (got h bytes) e rest =
      let shorter : length bytes < length s.input = omega (arith, read_header-length s.input e) in
      elim (Bool-cases (h.magic == fd_magic)) [
        | inl same ↦ rw (round-got src os n h bytes s e same) (request-Arrives shorter)
        | inr differs ↦
            rw (serve_rounds, e, differs)
              ((omega (arith, shorter), ([], sym (append-nil s.output))), refl)
      ]
    where
      request-Arrives :
          length bytes < length s.input
          → Arrives
              (forward S)
              s
              ((respond src os h >> serve_rounds src os n) (record s { input = bytes }))
      request-Arrives shorter =
          let ((less, more), over) =
            >>=-Arrives (forward S) (respond src os h) _ (record s { input = bytes })
              (respond-IsSteady h (record s { input = bytes }))
              λ u t moved. rest t (omega (arith, shorter, moved.0)) in
          ((omega (arith, less, shorter), more), over)

  -- With more rounds than bytes the loop ends.
  pub serve_rounds-IsSteady :
      (n : ℕ) (s : Server S) → length s.input < n → Arrives (forward S) s (serve_rounds src os n s)
  serve_rounds-IsSteady zero s h = absurd (omega (arith, h))
  serve_rounds-IsSteady (suc n) s h =
      round-Arrives n s (read_header s.input) refl
        λ t less. serve_rounds-IsSteady n t (omega (arith, h, less))
