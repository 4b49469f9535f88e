-- ===== src/Tap/Requests.antt =====
-- A request over a connection of its own: what the handler answers is what the client gets.
use virtlet.Prelude.{
  ℕ, ◌<◌, ◌^◌, ◌≡◌, refl, sym, ap, ◌∙◌, Str, true, List, [], ◌∷◌, ◌++◌, ◌==◌, length, append-nil,
  arith,
}
use virtlet.Result.{Error, Result, ok, err, errorf}
use virtlet.Prog.{◌>>=◌, attempt}
use virtlet.Prog.Laws.{ok->>=}
use virtlet.Tap.Header.{FdHeader, got, be32, encode_header, read_header, fd_magic, response_to}
use virtlet.Tap.RoundTrip.{IsWellSized, read_header-encode_header}
use virtlet.Tap.Source.{FdSource, Platform}
use virtlet.Tap.Server.{
  Server, Response, Answer, response, error_answer, dispatch, respond, serve_conn,
}
use virtlet.Tap.Serving.{served_rounds}
use virtlet.Tap.Effects.{take-all}
use virtlet.Tap.Client.{read_message, check_command, received, request, connect, outcome}

length-zero : (s : Str) → length s ≡ 0 → s ≡ []
length-zero [] h = refl
length-zero (c ∷ s) h = absurd (omega (arith, h))

-- The answer to a command is announced as it is.
pub record IsAnswer (c : ℕ) (a : Answer) : Type 0 where
  pub fits : IsWellSized a.0
  pub magic : a.0.magic ≡ fd_magic
  pub command : a.0.command ≡ response_to c
  pub regular : c < 127
  pub data_size : a.0.data_size ≡ length a.1
  pub oob_size : a.0.oob_size ≡ length a.2

read_message-whole :
    (h : FdHeader) (r : Response)
    → h.data_size ≡ length r.body
    → h.oob_size ≡ length r.oob
    → read_message h r ≡ ok (h, r.body, r.oob)
unfolding read_message
read_message-whole h r body oob =
    ground
      (arith, body, oob, take-all r.body, take-all r.oob, length-zero r.body, length-zero r.oob)

module _ (src : FdSource) (os : Platform) where
  open src use {S}

  received-response :
      (command : ℕ) (a : Answer)
      → IsAnswer command a
      → received command (response src os a ∷ []) ≡ ok a
  unfolding received check_command
  received-response command a good =
      let found : read_header (encode_header a.0) ≡ got a.0 [] =
        ap read_header (sym (append-nil _)) ∙ read_header-encode_header a.0 [] good.fits in
      let same : (a.0.magic == fd_magic) ≡ true = rw (good.magic) in
      let whole : read_message a.0 (response src os a) ≡ ok a =
        read_message-whole a.0 (response src os a) good.data_size good.oob_size in
      rw (received, found, same, whole) (ground (arith, good.command, good.regular))

  responded :
      (h : FdHeader) (s t : Server S) (a : Answer)
      → dispatch src os h s ≡ (ok a, t)
      → t.output ≡ []
      → respond src os h s ≡ (ok tt, record t { output = response src os a ∷ [] })
  unfolding respond ◌>>=◌ attempt
  responded h s t a served silent = rw served (
      ap (λ (out : List Response). (ok tt, record t { output = out ++ (response src os a ∷ []) }))
        silent)

  refused :
      (h : FdHeader) (s t : Server S) (e : Error)
      → dispatch src os h s ≡ (err e, t)
      → t.output ≡ []
      → respond src os h s
        ≡ (ok tt, record t { output = response src os (error_answer src os e) ∷ [] })
  unfolding respond ◌>>=◌ attempt
  refused h s t e served silent = rw served (
      ap
        (λ (out : List Response).
          (ok tt, record t { output = out ++ (response src os (error_answer src os e) ∷ []) }))
        silent)

  connected :
      (h : FdHeader) (bytes : Str) (s t : Server S)
      → IsWellSized h
      → h.magic ≡ fd_magic
      → respond src os h (record s { input = bytes; output = [] }) ≡ (ok tt, t)
      → t.input ≡ []
      → connect src os (encode_header h ++ bytes) s ≡ (ok t.output, t)
  unfolding connect serve_conn encode_header be32
  connected h bytes s t fits magic answered done =
      ap (λ (p : Result (Unit {0}) × Server S). outcome src os p.0 p.1)
        (served_rounds src os _ h bytes (record s { input = encode_header h ++ bytes; output = [] })
          t fits magic refl answered done)

  -- The client gets the answer that the server gave, and the connection is read to its end.
  pub request-answered :
      (h : FdHeader) (bytes : Str) (s t : Server S) (a : Answer)
      → IsWellSized h
      → h.magic ≡ fd_magic
      → IsAnswer h.command a
      → dispatch src os h (record s { input = bytes; output = [] }) ≡ (ok a, t)
      → t.input ≡ []
      → t.output ≡ []
      → request os (connect src os) h bytes s ≡ (ok a, record t { output = response src os a ∷ [] })
  unfolding request
  request-answered h bytes s t a fits magic good served done silent =
      ok->>= (connect src os (encode_header h ++ bytes)) _ s _ _
        (connected h bytes s _ fits magic (responded h _ t a served silent) done)
      ∙ rw (received-response h.command a good)

  error_answer-IsWellSized : (e : Error) → IsWellSized (error_answer src os e).0
  error_answer-IsWellSized e = record {
    magic = omega arith;
    command = omega arith;
    data_size = ground arith;
    oob_size = omega arith;
    key = refl;
  }

  received-error :
      (command : ℕ) (e : Error)
      → length (os.text e) < 2 ^ 32
      → received command (response src os (error_answer src os e) ∷ [])
        ≡ err (errorf "server returned error")
  unfolding received check_command
  received-error command e small =
      let a : Answer = error_answer src os e in
      let found : read_header (encode_header a.0) ≡ got a.0 [] =
        ap read_header (sym (append-nil _))
        ∙ read_header-encode_header a.0 [] (error_answer-IsWellSized e) in
      let size : a.0.data_size ≡ length a.1 = ground (arith, small) in
      let whole : read_message a.0 (response src os a) ≡ ok a =
        read_message-whole a.0 (response src os a) size refl in
      rw (received, found, whole)

  -- An error of the handler comes to the client as an error.
  pub request-refused :
      (h : FdHeader) (bytes : Str) (s t : Server S) (e : Error)
      → IsWellSized h
      → h.magic ≡ fd_magic
      → dispatch src os h (record s { input = bytes; output = [] }) ≡ (err e, t)
      → length (os.text e) < 2 ^ 32
      → t.input ≡ []
      → t.output ≡ []
      → request os (connect src os) h bytes s ≡ (
        err (errorf "server returned error"),
        record t { output = response src os (error_answer src os e) ∷ [] },
      )
  unfolding request
  request-refused h bytes s t e fits magic served small done silent =
      ok->>= (connect src os (encode_header h ++ bytes)) _ s _ _
        (connected h bytes s _ fits magic (refused h _ t e served silent) done)
      ∙ rw (received-error h.command e small)
