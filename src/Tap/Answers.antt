-- ===== src/Tap/Answers.antt =====
-- A connection is served to its end, and each request on it is answered.
use virtlet.Prelude.{
  ℕ, suc, ◌<◌, ◌≡◌, ap, ◌∙◌, Str, true, some, List, ◌∷◌, ◌++◌, length, append_assoc, [], arith,
}
use virtlet.Result.{Result, ok, err, fault}
use virtlet.Prog.Laws.{ok->>=}
use virtlet.Prog.Steady.{ends}
use virtlet.Tap.Header.{FdHeader, got, read_header, fd_magic}
use virtlet.Tap.RoundTrip.{read_header-length}
use virtlet.Tap.Source.{FdSource, Platform}
use virtlet.Tap.Server.{
  Server, Response, Answer, response, write, dispatch, respond, serve_rounds, serve_conn,
}
use virtlet.Tap.Ending.{IsEnding, dispatch-IsSteady}
use virtlet.Tap.Serving.{answer_of, finish, round-got, respond-finish, serve_rounds-IsSteady}

module _ (src : FdSource) (os : Platform) (fair : IsEnding src) where
  open src use {S}

  -- Where the calls of the source return, serving a connection comes to an end, whatever the client
  -- has sent.
  pub serve_conn-ends : (s : Server S) → ends (serve_conn src os s).0 ≡ true
  unfolding serve_conn
  serve_conn-ends s = (serve_rounds-IsSteady src os fair _ s (omega arith)).1

  finish-answer :
      (r : Result Answer) (t : Server S) (a : Answer)
      → answer_of src os r ≡ some a
      → finish src os fair r t ≡ write src os a t
  finish-answer (ok a) t b h = ground (arith, h)
  finish-answer (err e) t b h = ground (arith, h)
  finish-answer (fault f) t b h = absurd (cc)

  -- A request whose header arrives is answered where its handler does not panic: what the handler
  -- returned, or its error, is the next response that is written, ahead of those to later requests.
  pub serve_conn-answers :
      (s : Server S) (h : FdHeader) (bytes : Str) (a : Answer)
      → read_header s.input ≡ got h bytes
      → h.magic ≡ fd_magic
      → answer_of src os (dispatch src os h (record s { input = bytes })).0 ≡ some a
      → (later : List Response) × ((serve_conn src os s).1.output
          ≡ s.output ++ (response src os a ∷ later))
  unfolding serve_conn
  serve_conn-answers s h bytes a found magic answered =
      let n : ℕ = length s.input in
      let s0 : Server S = record s { input = bytes } in
      let t : Server S = (dispatch src os h s0).1 in
      let u : Server S = (write src os a t).1 in
      let ((less, silent), over) = dispatch-IsSteady src os fair h s0 in
      let shorter : length bytes < n = omega (arith, read_header-length s.input found) in
      let answer : respond src os h s0 ≡ (ok tt, u) =
        respond-finish src os fair h s0 ∙ finish-answer _ t a answered in
      let next : serve_rounds src os (suc n) s ≡ serve_rounds src os n u =
        round-got src os n h bytes s found (rw magic)
        ∙ ok->>= (respond src os h) _ s0 u tt answer in
      let ((shrunk, (later, more)), ended) =
        serve_rounds-IsSteady src os fair n u (omega (arith, less, shorter)) in
      (
        later,
        (λ i. (next i).1.output)
            ∙ more
            ∙ ap (λ (out : List Response). (out ++ (response src os a ∷ [])) ++ later) silent
            ∙ append_assoc s.output (response src os a ∷ []) later,
      )
