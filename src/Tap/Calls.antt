-- ===== src/Tap/Calls.antt =====
-- The calls of FDClient against the server: their results, and the table they leave.
use virtlet.Prelude.{ℕ, ◌<◌, ◌^◌, ◌≡◌, refl, ap, ◌∙◌, Str, none, some, List, [], length, arith}
use virtlet.Prelude.Dict.{Dict, lookup, insert, erase}
use virtlet.Result.{Result, ok}
use virtlet.Prog.{◌>>=◌, annotate}
use virtlet.Prog.Laws.{ok->>=}
use virtlet.Tap.Header.{FdHeader, get_key, fd_add, fd_release, fd_get, fd_recover, response_to}
use virtlet.Tap.Source.{FdSource, Platform, Fds}
use virtlet.Tap.Server.{Server, Response, reply, dispatch}
use virtlet.Tap.Effects.{serve_add-adds, serve_release-erases, serve_get-held, serve_recover-marks}
use virtlet.Tap.Requests.{request-answered}
use virtlet.Tap.Fitting.{
  IsFitting, u32-small, key-kept, length-fd_key, request_header-IsWellSized, reply-IsAnswer,
  same_key-passes,
}
use virtlet.Tap.Client.{
  request_header, request, same_key, connect, client_add_fds, client_release_fds, client_get_fds,
  client_recover,
}

-- The result of a call, and what it leaves of the server: the state of the source and the table.
abbrev pub left : {S A : Type 0} → Result A × Server S → Result A × S × Dict Fds
left (r, t) = (r, t.source, t.fds)

module _ (src : FdSource) (os : Platform) where
  open src use {S}

  module _ (key : Str) (s : Server S) (good : IsFitting key) where
    asked :
        (command size : ℕ) (bytes body oob : Str) (t : Server S)
        → command < 127
        → length body < 2 ^ 32
        → length oob < 2 ^ 32
        → dispatch src os
            (request_header command size key)
            (record s { input = bytes; output = [] })
          ≡ (
            ok (
              reply src os
                  (request_header command size key)
                  (response_to command)
                  (length body)
                  (length oob),
              body,
              oob,
            ),
            t,
          )
        → t.input ≡ []
        → t.output ≡ []
        → (out : List Response) × (request os
              (connect src os)
              (request_header command size key)
              bytes
              s
            ≡ (
              ok (
                reply src os
                    (request_header command size key)
                    (response_to command)
                    (length body)
                    (length oob),
                body,
                oob,
              ),
              record t { output = out },
            ))
    asked command size bytes body oob t regular small little served done silent =
        let h : FdHeader = request_header command size key in
        (
          _,
          request-answered src os h bytes s t _
              (request_header-IsWellSized command size key (omega (arith, regular))) refl
              (reply-IsAnswer src os h command body oob regular (length-fd_key key) small little)
              served done silent,
        )

    pub client_add_fds-adds :
        (bytes : Str) {fds : Fds} {body : Str} {t : S}
        → length bytes < 2 ^ 32
        → src.get_fds key bytes s.source ≡ (ok (fds, body), t)
        → length body < 2 ^ 32
        → lookup key s.fds ≡ none
        → left (client_add_fds os (connect src os) key (ok bytes) s)
          ≡ (ok body, t, insert key fds s.fds)
    unfolding client_add_fds annotate dispatch ◌>>=◌
    client_add_fds-adds bytes {fds} {body} {t} small given little free =
        let h : FdHeader = request_header fd_add (length bytes) key in
        let named : get_key h ≡ key = key-kept h good refl in
        let served =
          serve_add-adds src os h (record s { input = bytes; output = [] }) {fds = fds}
            {body = body} {t = t} (u32-small (length bytes) small) (rw named given)
            (rw named free) in
        let (out, answered) =
          asked fd_add (length bytes) bytes body [] _ (omega arith) little (omega arith) served refl
            refl in
        let sent : client_add_fds os (connect src os) key (ok bytes) s ≡ (ok body, _) =
          ok->>= (request os (connect src os) h bytes) _ s _ _ answered
          ∙ ok->>= (same_key os (connect src os) _ key) _ _ _ tt
              (same_key-passes src os _ _ good refl) in
        ap (left {S = S} {A = Str}) sent ∙ ap (λ k. (ok body, t, insert k fds s.fds)) named

    pub client_release_fds-erases :
        {t : S}
        → src.release key s.source ≡ (ok tt, t)
        → left (client_release_fds os (connect src os) key s) ≡ (ok tt, t, erase key s.fds)
    unfolding client_release_fds dispatch
    client_release_fds-erases {t} given =
        let h : FdHeader = request_header fd_release 0 key in
        let named : get_key h ≡ key = key-kept h good refl in
        let served =
          serve_release-erases src os h (record s { input = []; output = [] }) {t = t}
            (rw named given) in
        let (out, answered) =
          asked fd_release 0 [] [] [] _ (omega arith) (omega arith) (omega arith) served refl
            refl in
        let sent : client_release_fds os (connect src os) key s ≡ (ok tt, _) =
          ok->>= (request os (connect src os) h []) _ s _ _ answered
          ∙ same_key-passes src os _ _ good refl in
        ap (left {S = S} {A = Unit {0}}) sent ∙ ap (λ k. (ok tt, t, erase k s.fds)) named

    pub client_get_fds-gets :
        {l : List ℕ} {info : Str} {t : S}
        → lookup key s.fds ≡ some (some l)
        → src.get_info key s.source ≡ (ok info, t)
        → length info < 2 ^ 32
        → length (os.unix_rights l) < 2 ^ 32
        → left (client_get_fds os (connect src os) key s) ≡ (ok (l, info), t, s.fds)
    unfolding client_get_fds dispatch ◌>>=◌
    client_get_fds-gets {l} {info} {t} held given small little =
        let h : FdHeader = request_header fd_get 0 key in
        let named : get_key h ≡ key = key-kept h good refl in
        let served =
          serve_get-held src os h (record s { input = []; output = [] }) {l = l} {info = info}
            {t = t} (rw named held) (rw named given) in
        let (out, answered) =
          asked fd_get 0 [] info (os.unix_rights l) _ (omega arith) small little served refl refl in
        let sent : client_get_fds os (connect src os) key s
            ≡ (ok (l, info), record s { source = t; input = []; output = out }) =
          ok->>= (request os (connect src os) h []) _ s _ _ answered ∙ rw (os.parse-rights l) in
        ap (left {S = S} {A = List ℕ × Str}) sent

    pub client_recover-marks :
        (bytes : Str) {t : S}
        → length bytes < 2 ^ 32
        → src.recover key bytes s.source ≡ (ok tt, t)
        → lookup key s.fds ≡ none
        → left (client_recover os (connect src os) key (ok bytes) s)
          ≡ (ok tt, t, insert key none s.fds)
    unfolding client_recover annotate dispatch ◌>>=◌
    client_recover-marks bytes {t} small given free =
        let h : FdHeader = request_header fd_recover (length bytes) key in
        let named : get_key h ≡ key = key-kept h good refl in
        let served =
          serve_recover-marks src os h (record s { input = bytes; output = [] }) {t = t}
            (u32-small (length bytes) small) (rw named given) (rw named free) in
        let (out, answered) =
          asked fd_recover (length bytes) bytes [] [] _ (omega arith) (omega arith) (omega arith)
            served refl refl in
        let sent : client_recover os (connect src os) key (ok bytes) s ≡ (ok tt, _) =
          ok->>= (request os (connect src os) h bytes) _ s _ _ answered
          ∙ same_key-passes src os _ _ good refl in
        ap (left {S = S} {A = Unit {0}}) sent ∙ ap (λ k. (ok tt, t, insert k none s.fds)) named
