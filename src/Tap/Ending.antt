-- ===== src/Tap/Ending.antt =====
-- Every handler comes to an end where the source's calls do, reads forward and writes nothing.
use virtlet.Prelude.{ℕ, ◌≤◌, ◌≡◌, refl, ◌∙◌, Str, true, length, length-drop, arith}
use virtlet.Prog.{Prog, ◌>>=◌}
use virtlet.Prog.Steady.{Course, ends, IsSteady, >>=-IsSteady, annotate-IsSteady}
use virtlet.Tap.Header.{FdHeader, get_key}
use virtlet.Tap.Source.{FdSource, Platform, Fds}
use virtlet.Tap.Server.{
  Server, on_source, add_fds, remove_fds, get_fds, mark_as_recovered, read_payload, serve_add,
  serve_release, serve_get, serve_recover, dispatch,
}

-- The calls of the source end.
pub record IsEnding (src : FdSource) : Type 0 where
  pub get_fds : (key bytes : Str) (s : src.S) → ends (src.get_fds key bytes s).0 ≡ true
  pub release : (key : Str) (s : src.S) → ends (src.release key s).0 ≡ true
  pub get_info : (key : Str) (s : src.S) → ends (src.get_info key s).0 ≡ true
  pub recover : (key bytes : Str) (s : src.S) → ends (src.recover key bytes s).0 ≡ true
  pub retrieve_fds : (key : Str) (s : src.S) → ends (src.retrieve_fds key s).0 ≡ true

abbrev pub quiet : (S : Type 0) → Course (Server S)
quiet S = record {
  leads = λ s t. (length t.input ≤ length s.input) × (t.output ≡ s.output);
  stay = λ s. (omega arith, refl);
  go_on = λ h k. (omega (arith, h.0, k.0), k.1 ∙ h.1);
}

module _ (src : FdSource) (os : Platform) (fair : IsEnding src) where
  open src use {S}

  on_source-IsSteady :
      {A : Type 0} (m : Prog S A)
      → ((s : S) → ends (m s).0 ≡ true)
      → IsSteady (quiet S) (on_source src os m)
  unfolding on_source
  on_source-IsSteady m h s = (((omega arith), refl), h s.source)

  add_fds-IsSteady : (key : Str) (fds : Fds) → IsSteady (quiet S) (add_fds src os key fds)
  unfolding add_fds
  add_fds-IsSteady key fds s = ground arith

  remove_fds-IsSteady : (key : Str) → IsSteady (quiet S) (remove_fds src os key)
  unfolding remove_fds
  remove_fds-IsSteady key s = ground arith

  get_fds-IsSteady : (key : Str) → IsSteady (quiet S) (get_fds src os key)
  unfolding get_fds ◌>>=◌ on_source
  get_fds-IsSteady key s = ground (arith, fair.retrieve_fds key s.source)

  mark_as_recovered-IsSteady : (key : Str) → IsSteady (quiet S) (mark_as_recovered src os key)
  unfolding mark_as_recovered
  mark_as_recovered-IsSteady key s = ground arith

  read_payload-IsSteady : (n : ℕ) → IsSteady (quiet S) (read_payload src os n)
  unfolding read_payload
  read_payload-IsSteady n s = ground (arith, length-drop n s.input)

  serve_add-IsSteady : (h : FdHeader) → IsSteady (quiet S) (serve_add src os h)
  unfolding serve_add
  serve_add-IsSteady h = >>=-IsSteady (quiet S) _ _ (read_payload-IsSteady h.data_size) λ bytes.
      >>=-IsSteady (quiet S) _ _
        (annotate-IsSteady (quiet S) _ _ (on_source-IsSteady _ (fair.get_fds (get_key h) bytes)))
        λ (fds, body).
          >>=-IsSteady (quiet S) _ _ (add_fds-IsSteady (get_key h) fds) λ added s. ground arith

  serve_release-IsSteady : (h : FdHeader) → IsSteady (quiet S) (serve_release src os h)
  unfolding serve_release
  serve_release-IsSteady h =
      >>=-IsSteady (quiet S) _ _
        (annotate-IsSteady (quiet S) _ _ (on_source-IsSteady _ (fair.release (get_key h))))
        λ u. >>=-IsSteady (quiet S) _ _ (remove_fds-IsSteady (get_key h)) λ v s. ground arith

  serve_get-IsSteady : (h : FdHeader) → IsSteady (quiet S) (serve_get src os h)
  unfolding serve_get
  serve_get-IsSteady h = >>=-IsSteady (quiet S) _ _ (get_fds-IsSteady (get_key h)) λ fds.
      >>=-IsSteady (quiet S) _ _
        (annotate-IsSteady (quiet S) _ _ (on_source-IsSteady _ (fair.get_info (get_key h))))
        λ info s. ground arith

  serve_recover-IsSteady : (h : FdHeader) → IsSteady (quiet S) (serve_recover src os h)
  unfolding serve_recover
  serve_recover-IsSteady h = >>=-IsSteady (quiet S) _ _ (read_payload-IsSteady h.data_size) λ bytes.
      >>=-IsSteady (quiet S) _ _
        (annotate-IsSteady (quiet S) _ _ (on_source-IsSteady _ (fair.recover (get_key h) bytes)))
        λ u. >>=-IsSteady (quiet S) _ _ (mark_as_recovered-IsSteady (get_key h)) λ v s. ground arith

  pub dispatch-IsSteady : (h : FdHeader) → IsSteady (quiet S) (dispatch src os h)
  unfolding dispatch
  dispatch-IsSteady h s = grind (
    arith,
    serve_add-IsSteady h s,
    serve_release-IsSteady h s,
    serve_get-IsSteady h s,
    serve_recover-IsSteady h s,
  )
