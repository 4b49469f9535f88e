-- ===== src/Tap/Table.antt =====
-- The keys of the server's table, as a set.
use virtlet.Prelude.{
  ℕ, ◌≡◌, refl, Str, str_eq, str_eq→eq, Bool, true, false, not, ◌&&◌, ◌||◌, none, some, ◌==◌,
  if◌then◌else◌, arith,
}
use virtlet.Prelude.Dict.{Dict, lookup, insert, erase, lookup-insert, lookup-erase}
use virtlet.Result.{Result, ok, err, fault, errorf, succeeded}
use virtlet.Prog.{Prog, pure, raise, continue, ◌>>=◌, ◌>>◌, annotate}
use virtlet.Tap.Header.{FdHeader, get_key, fd_add, fd_release, fd_get, fd_recover}
use virtlet.Tap.Source.{FdSource, Platform, Fds}
use virtlet.Tap.Server.{
  Server, Answer, on_source, add_fds, remove_fds, get_fds, mark_as_recovered, read_payload,
  serve_add, serve_release, serve_get, serve_recover, dispatch,
}

abbrev pub has : Str → Dict Fds → Bool
has key m = elim (lookup key m) [ none ↦ false | some fds ↦ true ]

has-insert :
    (k j : Str) (fds : Fds) (m : Dict Fds)
    → has j (insert k fds m) ≡ (if str_eq k j then true else has j m)
has-insert k j fds m = ground (arith, lookup-insert k j fds m)

has-erase : (k j : Str) (m : Dict Fds) → has j (erase k m) ≡ (if str_eq k j then false else has j m)
has-erase k j m = ground (arith, lookup-erase k j m)

-- A call that ends at `p`, begun at the table `m`: it makes `key` held or not, as `v` says, where
-- it succeeds and `same` says that it is its key; and it succeeds only where `allowed`.
module _ {S : Type 0} (key : Str) (m : Dict Fds) (same v allowed : Bool) where
  abbrev pub Sets : {A : Type 0} → Result A × Server S → Type 0
  Sets p =
      (has key p.1.fds ≡ (if succeeded p.0 && same then v else has key m))
      × ((not (succeeded p.0) || allowed) ≡ true)

  continue-Sets :
      {A B : Type 0} (f : A → Prog (Server S) B) (r : Result A) (t : Server S)
      → has key t.fds ≡ has key m
      → ((a : A) → r ≡ ok a → Sets (f a t))
      → Sets (continue f r t)
  continue-Sets f (ok a) t h rest = rest a refl
  continue-Sets f (err e) t h rest = (h, refl)
  continue-Sets f (fault x) t h rest = (h, refl)

  >>=-Sets :
      {A B : Type 0} (c : Prog (Server S) A) (f : A → Prog (Server S) B) (s : Server S)
      → has key (c s).1.fds ≡ has key m
      → ((a : A) → (c s).0 ≡ ok a → Sets (f a (c s).1))
      → Sets ((c >>= f) s)
  unfolding ◌>>=◌
  >>=-Sets c f s h rest = continue-Sets f (c s).0 (c s).1 h rest

module _ (src : FdSource) (os : Platform) (h : FdHeader) (key : Str) (s : Server src.S) where
  open src use {S}

  abbrev value : Result Fds → Fds
  value (ok fds) = fds
  value (err e) = none
  value (fault f) = none

  abbrev own : Bool
  own = str_eq (get_key h) key

  read_payload-fds : (n : ℕ) → (read_payload src os n s).1.fds ≡ s.fds
  unfolding read_payload
  read_payload-fds n = ground arith

  add_fds-Sets :
      (fds : Fds) (a : Answer) (t : Server S)
      → t.fds ≡ s.fds
      → Sets key s.fds own true (not (has (get_key h) s.fds)) (
          (add_fds src os (get_key h) fds >>= λ added.
          if added then pure a else raise (errorf "fd key already exists"))
            t)
  unfolding add_fds ◌>>=◌
  add_fds-Sets fds a t same =
      ground (arith, same, has-insert (get_key h) key fds s.fds, str_eq→eq (get_key h) key)

  serve_add-Sets : Sets key s.fds own true (not (has (get_key h) s.fds)) (serve_add src os h s)
  unfolding serve_add annotate on_source
  serve_add-Sets =
      >>=-Sets key s.fds own true _ (read_payload src os h.data_size) _ s
        (rw (read_payload-fds h.data_size))
        λ bytes _.
          >>=-Sets key s.fds own true _
            (annotate "error getting fd" (on_source src os (src.get_fds (get_key h) bytes))) _ _
            (rw (read_payload-fds h.data_size))
            λ (fds, body) _. add_fds-Sets fds _ _ (read_payload-fds h.data_size)

  mark_as_recovered-Sets :
      (a : Answer) (t : Server S)
      → t.fds ≡ s.fds
      → Sets key s.fds own true
          (not (has (get_key h) s.fds))
          ((mark_as_recovered src os (get_key h) >> pure a) t)
  unfolding mark_as_recovered ◌>>=◌
  mark_as_recovered-Sets a t same =
      ground (arith, same, has-insert (get_key h) key none s.fds, str_eq→eq (get_key h) key)

  serve_recover-Sets :
      Sets key s.fds own true (not (has (get_key h) s.fds)) (serve_recover src os h s)
  unfolding serve_recover annotate on_source
  serve_recover-Sets =
      >>=-Sets key s.fds own true _ (read_payload src os h.data_size) _ s
        (rw (read_payload-fds h.data_size))
        λ bytes _.
          >>=-Sets key s.fds own true _
            (annotate "error recovering" (on_source src os (src.recover (get_key h) bytes))) _ _
            (rw (read_payload-fds h.data_size))
            λ u _. mark_as_recovered-Sets _ _ (read_payload-fds h.data_size)

  serve_release-Sets : Sets key s.fds own false true (serve_release src os h s)
  unfolding serve_release remove_fds annotate on_source ◌>>=◌
  serve_release-Sets = ground (arith, has-erase (get_key h) key s.fds)

  get_fds-has :
      (has key (get_fds src os (get_key h) s).1.fds ≡ has key s.fds)
      × ((not (succeeded (get_fds src os (get_key h) s).0) || has (get_key h) s.fds) ≡ true)
  unfolding get_fds on_source ◌>>=◌
  get_fds-has = ground (
    arith,
    has-insert (get_key h) key (value (src.retrieve_fds (get_key h) s.source).0) s.fds,
    str_eq→eq (get_key h) key,
  )

  serve_get-Sets : Sets key s.fds own true (has (get_key h) s.fds) (serve_get src os h s)
  unfolding serve_get annotate on_source ◌>>=◌
  serve_get-Sets = ground (arith, get_fds-has, str_eq→eq (get_key h) key)

  -- What a command asks of whether its key is held, and what it makes of it.
  abbrev pub allowed : ℕ → Bool → Bool
  allowed command held =
      if command == fd_release
      then true
      else if command == fd_get
      then held
      else (command == fd_add || command == fd_recover) && not held

  -- The table is a set of keys. Each request adds its own key or takes it away, as its command says,
  -- if it succeeds, and leaves the set as it is if it fails; it succeeds only where an added or
  -- recovered key was not held, and where a key that is asked for was. Commands that the protocol
  -- does not have always fail.
  pub dispatch-refines :
      (has key (dispatch src os h s).1.fds ≡ (
        if succeeded (dispatch src os h s).0 && str_eq (get_key h) key
        then not (h.command == fd_release)
        else has key s.fds))
      × ((not (succeeded (dispatch src os h s).0) || allowed h.command (has (get_key h) s.fds))
          ≡ true)
  unfolding dispatch
  dispatch-refines =
      ground (arith, serve_add-Sets, serve_recover-Sets, serve_release-Sets, serve_get-Sets)
