-- ===== src/Tap/Sessions.antt =====
-- Calls one after the other: what was added is found, what is held is not replaced, what was
-- released is gone.
use virtlet.Prelude.{
  ℕ, ◌<◌, ◌^◌, ◌≡◌, refl, ap, ◌∙◌, Str, str_eq_refl, none, some, List, [], length, arith,
}
use virtlet.Prelude.Dict.{lookup, lookup-insert, lookup-erase}
use virtlet.Result.{ok, err, errorf}
use virtlet.Prog.{◌>>=◌, annotate}
use virtlet.Prog.Laws.{err->>=}
use virtlet.Tap.Header.{FdHeader, get_key, fd_add, fd_get}
use virtlet.Tap.Source.{FdSource, Platform, Fds}
use virtlet.Tap.Server.{Server, dispatch, get_fds, serve_get}
use virtlet.Tap.Effects.{get_fds-unknown, serve_add-held}
use virtlet.Tap.Requests.{request-refused}
use virtlet.Tap.Fitting.{IsFitting, u32-small, key-kept, request_header-IsWellSized}
use virtlet.Tap.Calls.{left, client_add_fds-adds, client_release_fds-erases, client_get_fds-gets}
use virtlet.Tap.Client.{
  request_header, request, connect, client_add_fds, client_release_fds, client_get_fds,
}

module _ (src : FdSource) (os : Platform) where
  open src use {S}

  module _ (key : Str) (s : Server S) (good : IsFitting key) where
    -- Asking for a key that the server does not hold is refused, and nothing changes.
    pub client_get_fds-unknown :
        lookup key s.fds ≡ none
        → length (os.text (errorf "bad fd key")) < 2 ^ 32
        → left (client_get_fds os (connect src os) key s)
          ≡ (err (errorf "server returned error"), s.source, s.fds)
    unfolding client_get_fds dispatch serve_get
    client_get_fds-unknown missing small =
        let h : FdHeader = request_header fd_get 0 key in
        let s0 : Server S = record s { input = []; output = [] } in
        let named : get_key h ≡ key = key-kept h good refl in
        let refusal : get_fds src os (get_key h) s0 ≡ (err (errorf "bad fd key"), s0) =
          get_fds-unknown src os h s0 (rw named missing) in
        let asked =
          request-refused src os h [] s s0 (errorf "bad fd key")
            (request_header-IsWellSized fd_get 0 key (omega arith)) refl
            (err->>= (get_fds src os (get_key h)) _ s0 s0 _ refusal) small refl refl in
        ap (left {S = S} {A = List ℕ × Str})
          (err->>= (request os (connect src os) h []) _ s _ _ asked)

    -- Adding a key that the server holds is refused after the source was called: its descriptors
    -- stay with the source, and the table is as before.
    pub client_add_fds-held :
        (bytes : Str) {old fds : Fds} {body : Str} {t : S}
        → length bytes < 2 ^ 32
        → src.get_fds key bytes s.source ≡ (ok (fds, body), t)
        → length (os.text (errorf "fd key already exists")) < 2 ^ 32
        → lookup key s.fds ≡ some old
        → left (client_add_fds os (connect src os) key (ok bytes) s)
          ≡ (err (errorf "server returned error"), t, s.fds)
    unfolding client_add_fds annotate dispatch ◌>>=◌
    client_add_fds-held bytes {old = old} {fds = fds} {body = body} {t = t} small given little
          held =
        let h : FdHeader = request_header fd_add (length bytes) key in
        let named : get_key h ≡ key = key-kept h good refl in
        let served =
          serve_add-held src os h (record s { input = bytes; output = [] }) {old = old} {fds = fds}
            {body = body} {t = t} (u32-small (length bytes) small) (rw named given)
            (rw named held) in
        let asked =
          request-refused src os h bytes s _ _
            (request_header-IsWellSized fd_add (length bytes) key (omega arith)) refl served little
            refl refl in
        ap (left {S = S} {A = Str}) (err->>= (request os (connect src os) h bytes) _ s _ _ asked)

module _ (src : FdSource) (os : Platform) where
  open src use {S}

  module _ (key : Str) (s : Server S) (good : IsFitting key) where
    -- What was added is what is got: the descriptors come back as the source made them.
    pub client_get_fds-client_add_fds :
        (bytes : Str) {l : List ℕ} {body info : Str} {t u : S}
        → length bytes < 2 ^ 32
        → src.get_fds key bytes s.source ≡ (ok (some l, body), t)
        → length body < 2 ^ 32
        → lookup key s.fds ≡ none
        → src.get_info key t ≡ (ok info, u)
        → length info < 2 ^ 32
        → length (os.unix_rights l) < 2 ^ 32
        → (client_get_fds os
            (connect src os)
            key
            (client_add_fds os (connect src os) key (ok bytes) s).1).0
          ≡ ok (l, info)
    client_get_fds-client_add_fds bytes {l} {body} {info} {t} {u} small given little free known
          slight brief =
        let added = client_add_fds-adds src os key s good bytes small given little free in
        let held : lookup key (client_add_fds os (connect src os) key (ok bytes) s).1.fds
            ≡ some (some l) =
          (λ i. lookup key ((added i).2))
          ∙ lookup-insert key key (some l) s.fds
          ∙ rw (str_eq_refl key) in
        let told : src.get_info key (client_add_fds os (connect src os) key (ok bytes) s).1.source
            ≡ (ok info, u) =
          (λ i. src.get_info key ((added i).1)) ∙ known in
        λ i.
          (client_get_fds-gets src os key (client_add_fds os (connect src os) key (ok bytes) s).1
            good held told slight brief i).0

    -- A key that was released cannot be got any more.
    pub client_get_fds-client_release_fds :
        {t : S}
        → src.release key s.source ≡ (ok tt, t)
        → length (os.text (errorf "bad fd key")) < 2 ^ 32
        → (client_get_fds os
            (connect src os)
            key
            (client_release_fds os (connect src os) key s).1).0
          ≡ err (errorf "server returned error")
    client_get_fds-client_release_fds given small =
        let released = client_release_fds-erases src os key s good given in
        let gone : lookup key (client_release_fds os (connect src os) key s).1.fds ≡ none =
          (λ i. lookup key ((released i).2)) ∙ lookup-erase key key s.fds ∙ rw (str_eq_refl key) in
        λ i.
          (client_get_fds-unknown src os key (client_release_fds os (connect src os) key s).1 good
            gone small i).0
