-- ===== src/Tool/Start.antt =====
-- What a successful StartContainer has done.
use virtlet.Prelude.{ℕ, Str, ◌≡◌, ◌≢◌, true, Option, arith}
use virtlet.Result.{ok}
use virtlet.Types.{ContainerInfo}
use virtlet.Types.Domain.{DomainState}
use virtlet.World.{World}
use virtlet.MetaStore.{MetaStore, with_id}
use virtlet.Tool.State.{Sys}
use virtlet.Tool.Wait.Loop.{wait_loop}
use virtlet.Tool.Lifecycle.{
  domain_start_check_interval, domain_start_timeout, is_shutoff, mark_running, start_test,
}

pub is_shutoff→eq : (st : DomainState) → is_shutoff st ≡ true → st ≡ DomainState.shutoff
is_shutoff→eq st h = ground arith

module _ (x : World) (m : MetaStore) where
  open x use {W, Domain}
  open m use {St, retrieve}

  abbrev meta : Sys W St → St
  meta s = s.meta

  abbrev world : Sys W St → W
  world s = s.world

  -- The container's record before and after: it is marked as running since `at`.
  pub record Started (id : Str) (at : ℕ) (before after : St) : Type 0 where
    pub old : Option ContainerInfo
    pub new : Option ContainerInfo
    pub was : (retrieve id before).0 ≡ ok old
    pub marked : mark_running at old ≡ ok new
    pub is : (retrieve id after).0 ≡ ok (with_id id new)
    pub others : (j : Str) → id ≢ j → (retrieve j after).0 ≡ (retrieve j before).0

  -- What StartContainer has done with the domain, one call after another: it was found, it was shut
  -- off, it was booted, and it was running when the wait that followed was over.
  pub record Booted (id : Str) (before after : W) : Type 0 where
    pub domain : Domain
    pub found_in : W
    pub found : x.lookup_domain_by_uuid_string id before ≡ (ok domain, found_in)
    pub seen_in : W
    pub was_shutoff : x.state domain found_in ≡ (ok DomainState.shutoff, seen_in)
    pub booted_in : W
    pub booted : x.create domain seen_in ≡ (ok tt, booted_in)
    pub waiting : Sys W St
    pub waited : Sys W St
    pub begun : waiting.world ≡ booted_in
    pub ended : waited.world ≡ after
    pub wait :
        wait_loop x (start_test x m domain) domain_start_check_interval domain_start_timeout waiting
        ≡ (ok tt, waited)
    pub last_seen : W
    pub is_running : x.state domain last_seen ≡ (ok DomainState.running, after)
