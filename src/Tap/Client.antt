-- ===== src/Tap/Client.antt =====
-- FDClient: a request on a connection of its own, and the calls that are made of it.
use virtlet.Prelude.{
  ℕ, Str, str_eq, true, false, not, ◌&&◌, List, [], ◌∷◌, ◌++◌, leb, ◌==◌, if◌then◌else◌, length,
  take,
}
use virtlet.Result.{Result, ok, err, fault, errorf}
use virtlet.Prog.{Prog, pure, raise, lift, annotate, ◌>>=◌, ◌>>◌}
use virtlet.Tap.Header.{
  FdHeader, eof, short, got, get_key, fd_key, encode_header, read_header, fd_magic, fd_add,
  fd_release, fd_get, fd_recover, fd_error, response_to,
}
use virtlet.Tap.Source.{FdSource, Platform}
use virtlet.Tap.Server.{Server, Response, Answer, u32, serve_conn}

abbrev pub request_header : ℕ → ℕ → Str → FdHeader
request_header command size key = record {
  magic = fd_magic;
  command = command;
  data_size = u32 size;
  oob_size = 0;
  key = fd_key key;
}

-- ReadMsgUnix into buffers of the announced sizes: an empty buffer takes the one byte that is sent
-- with out-of-band data, and a short message is refused.
unfoldable pub read_message : FdHeader → Response → Result Answer
read_message h r =
    if h.data_size == 0 && h.oob_size == 0
    then ok (h, [], [])
    else if not (h.data_size == 0) && not (leb h.data_size (length r.body))
    then err (errorf "bad data size")
    else if not (leb h.oob_size (length r.oob))
    then err (errorf "bad oob data size")
    else ok (h, take h.data_size r.body, take h.oob_size r.oob)

-- The tests of the command of a response.
unfoldable pub check_command : ℕ → Answer → Result Answer
check_command command (h, body, oob) =
    if h.command == fd_error
    then err (errorf "server returned error")
    else if not (h.command == response_to command)
    then err (errorf "unexpected command")
    else ok (h, body, oob)

-- What a request makes of what came back.
unfoldable pub received : ℕ → List Response → Result Answer
received command [] = err (errorf "error reading response header")
received command (r ∷ later) = elim (read_header r.header) [
  | eof ↦ err (errorf "error reading response header")
  | short ↦ err (errorf "error reading response header")
  | got h rest ↦ elim (h.magic == fd_magic) [
    | false ↦ err (errorf "bad magic")
    | true ↦ elim (read_message h r) [
      | ok a ↦ check_command command a
      | err e ↦ err e
      | fault f ↦ fault f
    ]
  ]
]

-- `send` connects, writes the bytes and gives what the server writes until the connection ends.
module _ {X : Type 0} (os : Platform) (send : Str → Prog X (List Response)) where
  unfoldable pub request : FdHeader → Str → Prog X Answer
  request h bytes = do out ← send (encode_header h ++ bytes); lift (received h.command out)

  abbrev pub same_key : FdHeader → Str → Prog X (Unit {0})
  same_key h key =
      if str_eq (get_key h) key
      then pure tt
      else raise (errorf "fd key mismatch in the server response")

  -- `bytes` is the argument itself, where it is a byte slice, or else what json.Marshal gives.
  unfoldable pub client_add_fds : Str → Result Str → Prog X Str
  client_add_fds key bytes = do
    bs ← annotate "error marshalling json" (lift bytes)
    answer ← request (request_header fd_add (length bs) key) bs
    same_key answer.0 key
    pure answer.1

  unfoldable pub client_release_fds : Str → Prog X (Unit {0})
  client_release_fds key = do
    answer ← request (request_header fd_release 0 key) []
    same_key answer.0 key

  unfoldable pub client_get_fds : Str → Prog X (List ℕ × Str)
  client_get_fds key = do
    answer ← request (request_header fd_get 0 key) []
    fds ← lift (os.parse_unix_rights answer.2)
    pure (fds, answer.1)

  unfoldable pub client_recover : Str → Result Str → Prog X (Unit {0})
  client_recover key bytes = do
    bs ← annotate "error marshalling json" (lift bytes)
    answer ← request (request_header fd_recover (length bs) key) bs
    same_key answer.0 key

-- A connection to the server: it serves what the client sends and then sees the end of the input.
-- serveConn's own error is logged.
module _ (src : FdSource) (os : Platform) where
  abbrev pub outcome : Result (Unit {0}) → Server src.S → Result (List Response) × Server src.S
  outcome (ok u) s = (ok s.output, s)
  outcome (err e) s = (ok s.output, s)
  outcome (fault f) s = (fault f, s)

  unfoldable pub connect : Str → Prog (Server src.S) (List Response)
  connect bytes s =
      let (r, t) = serve_conn src os (record s { input = bytes; output = [] }) in outcome r t
