-- ===== src/Tap/Effects.antt =====
-- What the handlers do where nothing fails.
use virtlet.Prelude.{
  ℕ, ◌≡◌, refl, ◌∙◌, Str, true, none, some, List, [], ◌∷◌, leb, length, take, drop, arith,
}
use virtlet.Prelude.Dict.{lookup, insert, erase}
use virtlet.Result.{ok, err, errorf}
use virtlet.Prog.{◌>>=◌, annotate}
use virtlet.Prog.Laws.{ok->>=}
use virtlet.Tap.Header.{FdHeader, get_key, fd_add, fd_release, fd_get, fd_recover, response_to}
use virtlet.Tap.Source.{FdSource, Platform, Fds}
use virtlet.Tap.Server.{
  Server, on_source, add_fds, remove_fds, get_fds, mark_as_recovered, read_payload, reply,
  serve_add, serve_release, serve_get, serve_recover,
}

pub take-all : (s : Str) → take (length s) s ≡ s
take-all [] = refl
take-all (c ∷ s) = rw (take-all s)

drop-all : (s : Str) → drop (length s) s ≡ []
drop-all [] = refl
drop-all (c ∷ s) = drop-all s

module _ (src : FdSource) (os : Platform) (h : FdHeader) (s : Server src.S) where
  open src use {S}

  read_payload-whole :
      h.data_size ≡ length s.input
      → read_payload src os h.data_size s ≡ (ok s.input, record s { input = [] })
  unfolding read_payload
  read_payload-whole size =
      let within : leb h.data_size (length s.input) ≡ true = ground (arith, size) in
      rw within (rw size (λ i. (ok (take-all s.input i), record s { input = drop-all s.input i })))

  pub serve_add-adds :
      {fds : Fds} {body : Str} {t : S}
      → h.data_size ≡ length s.input
      → src.get_fds (get_key h) s.input s.source ≡ (ok (fds, body), t)
      → lookup (get_key h) s.fds ≡ none
      → serve_add src os h s ≡ (
        ok (reply src os h (response_to fd_add) (length body) 0, body, []),
        record s { source = t; fds = insert (get_key h) fds s.fds; input = [] },
      )
  unfolding serve_add annotate on_source add_fds ◌>>=◌
  serve_add-adds size given free = rw (read_payload-whole size, given, add_fds, free)

  pub serve_add-held :
      {old fds : Fds} {body : Str} {t : S}
      → h.data_size ≡ length s.input
      → src.get_fds (get_key h) s.input s.source ≡ (ok (fds, body), t)
      → lookup (get_key h) s.fds ≡ some old
      → serve_add src os h s
        ≡ (err (errorf "fd key already exists"), record s { source = t; input = [] })
  unfolding serve_add annotate on_source add_fds ◌>>=◌
  serve_add-held size given held = rw (read_payload-whole size, given, add_fds, held)

  pub serve_release-erases :
      {t : S}
      → src.release (get_key h) s.source ≡ (ok tt, t)
      → serve_release src os h s ≡ (
        ok (reply src os h (response_to fd_release) 0 0, [], []),
        record s { source = t; fds = erase (get_key h) s.fds },
      )
  unfolding serve_release annotate on_source remove_fds ◌>>=◌
  serve_release-erases given = rw given

  pub get_fds-unknown :
      lookup (get_key h) s.fds ≡ none
      → get_fds src os (get_key h) s ≡ (err (errorf "bad fd key"), s)
  unfolding get_fds ◌>>=◌
  get_fds-unknown missing = ground arith

  get_fds-held :
      {l : List ℕ}
      → lookup (get_key h) s.fds ≡ some (some l)
      → get_fds src os (get_key h) s ≡ (ok (some l), s)
  unfolding get_fds ◌>>=◌
  get_fds-held held = ground arith

  get_fds-retrieved :
      {l : List ℕ} {t : S}
      → lookup (get_key h) s.fds ≡ some none
      → src.retrieve_fds (get_key h) s.source ≡ (ok (some l), t)
      → get_fds src os (get_key h) s
        ≡ (ok (some l), record s { source = t; fds = insert (get_key h) (some l) s.fds })
  unfolding get_fds on_source ◌>>=◌
  get_fds-retrieved held retrieved = ground (arith, held, retrieved)

  pub serve_get-held :
      {l : List ℕ} {info : Str} {t : S}
      → lookup (get_key h) s.fds ≡ some (some l)
      → src.get_info (get_key h) s.source ≡ (ok info, t)
      → serve_get src os h s ≡ (
        ok (
          reply src os h (response_to fd_get) (length info) (length (os.unix_rights l)),
          info,
          os.unix_rights l,
        ),
        record s { source = t },
      )
  unfolding serve_get annotate on_source ◌>>=◌
  serve_get-held held given =
      ok->>= (get_fds src os (get_key h)) _ s s _ (get_fds-held held) ∙ rw given

  pub serve_get-retrieved :
      {l : List ℕ} {info : Str} {t u : S}
      → lookup (get_key h) s.fds ≡ some none
      → src.retrieve_fds (get_key h) s.source ≡ (ok (some l), t)
      → src.get_info (get_key h) t ≡ (ok info, u)
      → serve_get src os h s ≡ (
        ok (
          reply src os h (response_to fd_get) (length info) (length (os.unix_rights l)),
          info,
          os.unix_rights l,
        ),
        record s { source = u; fds = insert (get_key h) (some l) s.fds },
      )
  unfolding serve_get annotate on_source ◌>>=◌
  serve_get-retrieved held retrieved given =
      ok->>= (get_fds src os (get_key h)) _ s _ _ (get_fds-retrieved held retrieved) ∙ rw given

  pub serve_recover-marks :
      {t : S}
      → h.data_size ≡ length s.input
      → src.recover (get_key h) s.input s.source ≡ (ok tt, t)
      → lookup (get_key h) s.fds ≡ none
      → serve_recover src os h s ≡ (
        ok (reply src os h (response_to fd_recover) 0 0, [], []),
        record s { source = t; fds = insert (get_key h) none s.fds; input = [] },
      )
  unfolding serve_recover annotate on_source mark_as_recovered ◌>>=◌
  serve_recover-marks size given free = rw (read_payload-whole size, given, mark_as_recovered, free)
