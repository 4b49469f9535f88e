-- ===== src/Tool/State/Defs.antt =====
-- The state that the tool acts on, and its two halves.
use virtlet.Prog.{Prog}

-- The outside world and the metadata store.
pub record Sys (W St : Type 0) : Type 0 where
  pub world : W
  pub meta : St

module _ {W St : Type 0} where
  unfoldable pub on_world : {A : Type 0} → Prog W A → Prog (Sys W St) A
  on_world m s = let (r, w) = m s.world in (r, record s { world = w })

  unfoldable pub on_meta : {A : Type 0} → Prog St A → Prog (Sys W St) A
  on_meta m s = let (r, t) = m s.meta in (r, record s { meta = t })
