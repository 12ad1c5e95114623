-- ===== src/Server/Faults/Handlers.antt =====
-- The handlers behind the command tables of ipmi_proto.go, and exactly the requests that they panic on.
use ipmigod.Base.{
  Exactly, All, Bool, false, ◌==◌, if◌then◌else◌, ℕ, ◌≡◌, refl, ok, Outcome, Returns, returns,
  Returns-and, Returns-map, Allows, Allows-map, Safe-Allows, Safe,
}
use ipmigod.Message.{Msg}
use ipmigod.Protodefs.{app_netfn, storage_netfn}
use ipmigod.Protodefs.App.{close_session_cmd}
use ipmigod.Protodefs.Storage.{
  get_sel_entry_cmd, get_sdr_cmd, add_sdr_cmd, clear_sdr_repository_cmd,
}
use ipmigod.World.{World, Env, Handler}
use ipmigod.App.Control.{close_session}
use ipmigod.Storage.Sel.{get_sel_entry}
use ipmigod.Storage.Sdr.{get_sdr, add_sdr, clear_sdr_repository}
use ipmigod.App.Untouched.{SameStorage, close_session-SameStorage}
use ipmigod.Storage.Validity.{ServerIsValid}
use ipmigod.Storage.Sdr.Keeps.{clear_sdr_repository-keeps}
use ipmigod.App.Faults.{close_session_faults, close_session-Exactly}
use ipmigod.Storage.Faults.{
  get_sel_entry_faults, get_sdr_faults, get_sel_entry-Exactly, get_sdr-Exactly,
}
use ipmigod.Storage.Sdr.Full.{add_sdr_faults, add_sdr-Exactly}
use ipmigod.Wire.{IsByte}
use ipmigod.Storage.Sdr.Stock.{
  Registered, Stocked, SameList, Stocked-SameList, clear_sdr_repository-Stocked,
}
use ipmigod.Storage.Untouched.{KeepsList, get_sel_entry-KeepsList, get_sdr-KeepsList}

-- A well-formed server with a record of each registered sensor.
pub record ServerIsReady (registered : Registered) (w : World) : Type 0 where
  pub server : ServerIsValid w
  pub stocked : Stocked registered w

-- A command and a test of the requests for it that its handler panics on.
abbrev pub Faults : Type 0
Faults = ℕ → Msg → World → Bool

abbrev pub no_faults : Faults
no_faults cmd msg w = false

abbrev pub app_faults : Faults
app_faults cmd msg w = if cmd == close_session_cmd then close_session_faults msg w else false

abbrev pub storage_faults : Faults
storage_faults cmd msg w =
    if cmd == get_sel_entry_cmd
    then get_sel_entry_faults msg w
    else if cmd == get_sdr_cmd
    then get_sdr_faults msg w
    else if cmd == add_sdr_cmd
    then add_sdr_faults msg w
    else false

-- The command does not clear the repository, unless no sensor is registered.
abbrev pub Spares : Registered → ℕ → ℕ → Type 0
Spares registered netfn cmd =
    netfn ≡ storage_netfn → cmd ≡ clear_sdr_repository_cmd → (lun num : ℕ) → registered lun num → ⊥

module _ (registered : Registered) where
  -- A handler registered under a command of a network function panics exactly where the test says so, and
  -- elsewhere leaves the server ready.
  abbrev pub FaultsBy : ℕ → Faults → ℕ → Handler → Type 0
  FaultsBy netfn faults cmd h =
      (env : Env) (msg : Msg) (w : World)
      → ServerIsReady registered w
      → Spares registered netfn cmd
      → Exactly (All IsByte msg.bytes) (faults cmd msg w) (ServerIsReady registered) (h env msg w)

  quiet :
      {m : Outcome World} {G : Type 0}
      → Returns (ServerIsReady registered) m
      → Exactly G false (ServerIsReady registered) m
  quiet r = ((λ g e. cc), λ e. r)

  pub idle :
      {netfn : ℕ} {cmd : ℕ} (env : Env) (msg : Msg) (w : World)
      → ServerIsReady registered w
      → Spares registered netfn cmd
      → Exactly (All IsByte msg.bytes) false (ServerIsReady registered) (ok w)
  idle env msg w r k = quiet (returns r)

  stocked :
      (w : World) {m : Outcome World}
      → Returns ServerIsValid m
      → Allows (Stocked registered) m
      → Returns (ServerIsReady registered) m
  stocked w v s = Returns-map (λ u p. record { server = p.0; stocked = p.1 }) (Returns-and v s)

  -- A handler that leaves the list alone.
  alone :
      (w : World) {m : Outcome World}
      → ServerIsReady registered w
      → Returns ServerIsValid m
      → Allows (SameList w) m
      → Returns (ServerIsReady registered) m
  alone w r v s = stocked w v (Allows-map (λ u. Stocked-SameList registered w u r.stocked) s)

  same_list : (w u : World) → SameStorage w u → SameList w u
  same_list w u (sel, sdrs) = rw sdrs (refl, refl, refl)

  app_alone :
      (w : World) {m : Outcome World}
      → ServerIsReady registered w
      → Returns ServerIsValid m
      → Safe (SameStorage w) m
      → Returns (ServerIsReady registered) m
  app_alone w r v s = alone w r v (Allows-map (same_list w) (Safe-Allows s))

  -- A handler that never panics and leaves the list alone.
  pub never :
      {netfn cmd : ℕ} (h : Handler)
      → ((env : Env) (msg : Msg) (w : World)
          → ServerIsValid w
          → Returns ServerIsValid (h env msg w))
      → KeepsList h
      → FaultsBy netfn no_faults cmd h
  never h keeps list env msg w r k = quiet (alone w r (keeps env msg w r.server) (list env msg w))

  -- One of the session commands.
  pub app_never :
      {netfn cmd : ℕ} (h : Handler)
      → ((env : Env) (msg : Msg) (w : World)
          → ServerIsValid w
          → Returns ServerIsValid (h env msg w))
      → ((env : Env) (msg : Msg) (w : World) → Safe (SameStorage w) (h env msg w))
      → FaultsBy netfn no_faults cmd h
  app_never h keeps same env msg w r k =
      quiet (app_alone w r (keeps env msg w r.server) (same env msg w))

  pub faults_close_session : FaultsBy app_netfn app_faults close_session_cmd close_session
  faults_close_session env msg w r k =
      let (panics, returns_valid) = close_session-Exactly env msg w r.server in
      (panics, λ q. app_alone w r (returns_valid q) (close_session-SameStorage env msg w))

  pub faults_get_sel_entry : FaultsBy storage_netfn storage_faults get_sel_entry_cmd get_sel_entry
  faults_get_sel_entry env msg w r k =
      let (panics, returns_valid) = get_sel_entry-Exactly env msg w r.server in
      (panics, λ q. alone w r (returns_valid q) (get_sel_entry-KeepsList env msg w))

  pub faults_get_sdr : FaultsBy storage_netfn storage_faults get_sdr_cmd get_sdr
  faults_get_sdr env msg w r k =
      let (panics, returns_valid) = get_sdr-Exactly env msg w r.server in
      (panics, λ q. alone w r (returns_valid q) (get_sdr-KeepsList env msg w))

  pub faults_add_sdr : FaultsBy storage_netfn storage_faults add_sdr_cmd add_sdr
  faults_add_sdr env msg w r k =
      let (panics, returns_both) = add_sdr-Exactly registered env msg w r.server r.stocked in
      (panics, λ q. Returns-map (λ u p. record { server = p.0; stocked = p.1 }) (returns_both q))

  pub faults_clear_sdr_repository :
      FaultsBy storage_netfn storage_faults clear_sdr_repository_cmd clear_sdr_repository
  faults_clear_sdr_repository env msg w r k = quiet (
      stocked w (clear_sdr_repository-keeps env msg w r.server)
        (clear_sdr_repository-Stocked registered env msg w (k refl refl) r.stocked))
