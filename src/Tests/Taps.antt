-- ===== src/Tests/Taps.antt =====
-- A source that numbers its descriptors, and requests to the server of it.
use virtlet.Prelude.{
  ℕ, suc, ◌≡◌, refl, Str, true, false, ◌&&◌, ◌||◌, not, str_eq, none, some, List, [], ◌∷◌, ◌++◌,
  if◌then◌else◌, arith,
}
use virtlet.Prelude.Dict.{lookup}
use virtlet.Result.{succeeded, ok, err, errorf}
use virtlet.Prog.{annotate, ◌>>=◌}
use virtlet.Prog.Steady.{ends}
use virtlet.Tap.Header.{
  got, trim_space, trim_left, trim_right, is_space, pad, get_key, fd_key, fd_add, encode_header,
  read_header,
}
use virtlet.Tap.RoundTrip.{IsWellSized, read_header-encode_header}
use virtlet.Tap.Source.{FdSource, Platform}
use virtlet.Tap.Server.{
  Server, Response, response, reply, on_source, add_fds, read_payload, serve_add, dispatch,
  serve_conn,
}
use virtlet.Tap.Table.{has, dispatch-refines}
use virtlet.Tap.Ending.{IsEnding}
use virtlet.Tap.Answers.{serve_conn-ends, serve_conn-answers}
use virtlet.Tap.Fitting.{IsFitting}
use virtlet.Tap.Calls.{left}
use virtlet.Tap.Sessions.{client_add_fds-held, client_get_fds-client_add_fds}
use virtlet.Tap.Client.{request_header, connect, client_add_fds, client_get_fds}

abbrev counter : FdSource
counter = record {
  S = ℕ;
  get_fds = λ key bytes n. (ok (some (n ∷ []), bytes), suc n);
  release = λ key n. (ok tt, suc n);
  get_info = λ key n. (ok key, n);
  recover = λ key bytes n. (ok tt, n);
  retrieve_fds = λ key n. (ok (some (n ∷ [])), suc n);
}

abbrev plain : Platform
plain = record {
  unix_rights = λ l. l;
  parse_unix_rights = ok;
  parse-rights = λ l. refl;
  text = λ e. 69 ∷ [];
}

counter-IsEnding : IsEnding counter
counter-IsEnding = record {
  get_fds = λ key bytes s. refl;
  release = λ key s. refl;
  get_info = λ key s. refl;
  recover = λ key bytes s. refl;
  retrieve_fds = λ key s. refl;
}

abbrev pod : Str
pod = 112 ∷ 111 ∷ 100 ∷ []

abbrev idle : Server ℕ
idle = record { source = 7; fds = []; input = []; output = [] }

abbrev asking : Server ℕ
asking = record {
  source = 7;
  fds = [];
  input = encode_header (request_header fd_add 2 pod) ++ (1 ∷ 2 ∷ []);
  output = [];
}

pod-IsFitting : IsFitting pod
unfolding trim_space trim_left trim_right is_space
pod-IsFitting = record { trimmed = refl; short = omega arith }

header-IsWellSized : IsWellSized (request_header fd_add 2 pod)
unfolding fd_key pad
header-IsWellSized = record {
  magic = omega arith;
  command = omega arith;
  data_size = omega arith;
  oob_size = omega arith;
  key = refl;
}

read_header-encode_header_example :
    read_header (encode_header (request_header fd_add 2 pod) ++ (1 ∷ 2 ∷ []))
    ≡ got (request_header fd_add 2 pod) (1 ∷ 2 ∷ [])
read_header-encode_header_example =
    read_header-encode_header (request_header fd_add 2 pod) (1 ∷ 2 ∷ []) header-IsWellSized

serve_conn-ends_example : ends (serve_conn counter plain asking).0 ≡ true
serve_conn-ends_example = serve_conn-ends counter plain counter-IsEnding asking

dispatch-refines_example :
    (has pod (dispatch counter plain (request_header fd_add 0 pod) idle).1.fds ≡ (
      if succeeded (dispatch counter plain (request_header fd_add 0 pod) idle).0
        && str_eq (get_key (request_header fd_add 0 pod)) pod
      then true
      else false))
    × ((not (succeeded (dispatch counter plain (request_header fd_add 0 pod) idle).0)
          || not (has (get_key (request_header fd_add 0 pod)) []))
        ≡ true)
unfolding lookup
dispatch-refines_example = dispatch-refines counter plain (request_header fd_add 0 pod) pod idle

client_add_fds-held_example :
    left (
      client_add_fds plain
        (connect counter plain)
        pod
        (ok (1 ∷ []))
        (record idle { fds = (pod, none) ∷ [] }))
    ≡ (err (errorf "server returned error"), 8, (pod, none) ∷ [])
unfolding lookup str_eq
client_add_fds-held_example =
    client_add_fds-held counter plain pod (record idle { fds = (pod, none) ∷ [] }) pod-IsFitting
      (1 ∷ []) (omega arith) refl (omega arith) refl

client_get_fds-client_add_fds_example :
    (client_get_fds plain
      (connect counter plain)
      pod
      (client_add_fds plain (connect counter plain) pod (ok (1 ∷ [])) idle).1).0
    ≡ ok (7 ∷ [], pod)
unfolding lookup
client_get_fds-client_add_fds_example =
    client_get_fds-client_add_fds counter plain pod idle pod-IsFitting (1 ∷ []) (omega arith) refl
      (omega arith) refl refl (omega arith) (omega arith)

serve_conn-answers_example :
    (later : List Response) × ((serve_conn counter plain asking).1.output
      ≡ []
        ++ (response counter plain
              (reply counter plain (request_header fd_add 2 pod) 0x80 2 0, 1 ∷ 2 ∷ [], [])
            ∷ later))
unfolding dispatch serve_add read_payload annotate on_source add_fds lookup ◌>>=◌
serve_conn-answers_example =
    serve_conn-answers counter plain counter-IsEnding asking (request_header fd_add 2 pod)
      (1 ∷ 2 ∷ []) _ read_header-encode_header_example refl refl
