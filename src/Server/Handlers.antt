-- ===== src/Server/Handlers.antt =====
-- The handlers in the command tables of ipmi_proto.go, as they treat a well-formed server.
use ipmigod.Base.{
  ℕ, ◌≡◌, refl, Bool, true, false, ◌==◌, Option, some, if◌then◌else◌, List, [], ◌∷◌, ok, Safe,
  panicked, Returns, returns, Returns-Safe, ◌||◌, arith,
}
use ipmigod.Message.{Msg}
use ipmigod.Bmc.{is_some}
use ipmigod.Protodefs.App.{close_session_cmd}
use ipmigod.Protodefs.Storage.{get_sel_entry_cmd, get_sdr_cmd, add_sdr_cmd}
use ipmigod.World.{World, Env, Handler}
use ipmigod.App.Untouched.{
  get_channel_auth_capabilities-ServerIsValid, get_session_challenge-ServerIsValid,
  activate_session-ServerIsValid, set_session_privilege-ServerIsValid, close_session-Safe,
}
use ipmigod.Storage.Validity.{ServerIsValid}
use ipmigod.Storage.Sel.Keeps.{
  get_sel_info-keeps, reserve_sel-keeps, get_sel_entry-keeps, add_sel_entry-keeps, clear_sel-keeps,
}
use ipmigod.Storage.Sdr.Keeps.{
  get_sdr_repository_info-keeps, reserve_sdr_repository-keeps, get_sdr-keeps, add_sdr-keeps,
  clear_sdr_repository-keeps, get_sensor_reading-keeps,
}
use ipmigod.Server.Tables.{
  chassis_processors, sensor_processors, app_processors, storage_processors,
}
use ipmigod.Server.{map_get, call}

-- A handler that ends on a well-formed server, and leaves it well-formed unless it panics.
abbrev pub IsSafe : Handler → Type 0
IsSafe h = (env : Env) (msg : Msg) (w : World) → ServerIsValid w → Safe ServerIsValid (h env msg w)

-- A handler that does not even panic.
abbrev pub IsTotal : Handler → Type 0
IsTotal h =
    (env : Env) (msg : Msg) (w : World) → ServerIsValid w → Returns ServerIsValid (h env msg w)

pub idle : IsTotal (λ env msg w. ok w)
idle env msg w v = returns v

-- Every handler of a table is safe, and total unless its command is among `exempt`.
pub data AllSafe (exempt : ℕ → Bool) : List (ℕ × Handler) → Type 0 where
  end : AllSafe exempt []
  ◌▸◌ :
      {k : ℕ} {h : Handler} {m : List (ℕ × Handler)}
      → IsTotal h
      → AllSafe exempt m
      → AllSafe exempt ((k, h) ∷ m)
  ◌▹◌ :
      {k : ℕ} {h : Handler} {m : List (ℕ × Handler)}
      → (exempt k ≡ true) × IsSafe h
      → AllSafe exempt m
      → AllSafe exempt ((k, h) ∷ m)

infixr 5 ◌▸◌
infixr 5 ◌▹◌
pub total-Safe : (h : Handler) → IsTotal h → IsSafe h
total-Safe h t env msg w v = Returns-Safe (t env msg w v)

choose_handler :
    (b : Bool) (h : Handler) (rest : Option Handler)
    → IsSafe h
    → IsSafe (call rest)
    → IsSafe (call (if b then some h else rest))
choose_handler true h rest s ss env msg w v = s env msg w v
choose_handler false h rest s ss env msg w v = ss env msg w v

pub call-IsSafe :
    (exempt : ℕ → Bool) (key : ℕ) (m : List (ℕ × Handler))
    → AllSafe exempt m
    → IsSafe (call (map_get key m))
unfolding map_get
call-IsSafe exempt key [] end = λ env msg w v. panicked
call-IsSafe exempt key ((k, h) ∷ m) (s ▸ ss) =
    choose_handler (k == key) h (map_get key m) (total-Safe h s) (call-IsSafe exempt key m ss)
call-IsSafe exempt key ((k, h) ∷ m) (s ▹ ss) =
    choose_handler (k == key) h (map_get key m) s.1 (call-IsSafe exempt key m ss)

choose_answer :
    (b : Bool) (h : Handler) (rest : Option Handler)
    → (b ≡ true → IsTotal h)
    → (b ≡ false → IsTotal (call rest))
    → IsTotal (call (if b then some h else rest))
choose_answer true h rest s ss = s refl
choose_answer false h rest s ss = ss refl

-- The command has a handler, which is not among those exempt.
abbrev pub IsAnswered : (ℕ → Bool) → ℕ → List (ℕ × Handler) → Type 0
IsAnswered exempt key m = (is_some (map_get key m) ≡ true) × (exempt key ≡ false)

pub call-IsTotal :
    (exempt : ℕ → Bool) (key : ℕ) (m : List (ℕ × Handler))
    → AllSafe exempt m
    → IsAnswered exempt key m
    → IsTotal (call (map_get key m))
unfolding map_get
call-IsTotal exempt key [] end a = absurd (ground (arith, a.0))
call-IsTotal exempt key ((k, h) ∷ m) (s ▸ ss) a =
    choose_answer (k == key) h (map_get key m) (λ _. s)
      (λ p. call-IsTotal exempt key m ss (ground (arith, a.0, p), a.1))
call-IsTotal exempt key ((k, h) ∷ m) (s ▹ ss) a =
    choose_answer (k == key) h (map_get key m) (λ p. absurd (ground (arith, a.1, s.0, p)))
      (λ p. call-IsTotal exempt key m ss (ground (arith, a.0, p), a.1))

-- The commands whose handlers can panic.
abbrev pub app_exempt : ℕ → Bool
app_exempt cmd = cmd == close_session_cmd

abbrev pub storage_exempt : ℕ → Bool
storage_exempt cmd = cmd == get_sel_entry_cmd || (cmd == get_sdr_cmd || cmd == add_sdr_cmd)

abbrev pub no_exempt : ℕ → Bool
no_exempt cmd = false

pub chassis_AllSafe : AllSafe no_exempt chassis_processors
chassis_AllSafe = idle ▸ idle ▸ idle ▸ idle ▸ idle ▸ idle ▸ idle ▸ idle ▸ idle ▸ end

pub sensor_AllSafe : AllSafe no_exempt sensor_processors
sensor_AllSafe =
    idle ▸ idle ▸ idle ▸ idle ▸ idle ▸ idle ▸ idle ▸ idle ▸ idle ▸ idle ▸ idle ▸ idle ▸ idle ▸ idle
    ▸ idle ▸ idle ▸ idle ▸ idle ▸ idle ▸ idle ▸ idle ▸ idle ▸ idle ▸ get_sensor_reading-keeps ▸ idle
    ▸ idle ▸ end

pub app_AllSafe : AllSafe app_exempt app_processors
app_AllSafe =
    idle
    ▸ idle
    ▸ idle
    ▸ idle
    ▸ idle
    ▸ idle
    ▸ idle
    ▸ idle
    ▸ idle
    ▸ idle
    ▸ idle
    ▸ idle
    ▸ idle
    ▸ idle
    ▸ idle
    ▸ idle
    ▸ idle
    ▸ idle
    ▸ idle
    ▸ idle
    ▸ idle
    ▸ get_channel_auth_capabilities-ServerIsValid
    ▸ get_session_challenge-ServerIsValid
    ▸ activate_session-ServerIsValid
    ▸ set_session_privilege-ServerIsValid
    ▸ (refl, close_session-Safe)
    ▹ idle
    ▸ idle
    ▸ idle
    ▸ idle
    ▸ idle
    ▸ idle
    ▸ idle
    ▸ idle
    ▸ idle
    ▸ idle
    ▸ idle
    ▸ idle
    ▸ idle
    ▸ idle
    ▸ idle
    ▸ idle
    ▸ idle
    ▸ idle
    ▸ idle
    ▸ idle
    ▸ idle
    ▸ idle
    ▸ idle
    ▸ idle
    ▸ end

pub storage_AllSafe : AllSafe storage_exempt storage_processors
storage_AllSafe =
    idle
    ▸ idle
    ▸ idle
    ▸ get_sdr_repository_info-keeps
    ▸ idle
    ▸ reserve_sdr_repository-keeps
    ▸ (refl, get_sdr-keeps)
    ▹ (refl, add_sdr-keeps)
    ▹ idle
    ▸ idle
    ▸ clear_sdr_repository-keeps
    ▸ idle
    ▸ idle
    ▸ idle
    ▸ idle
    ▸ idle
    ▸ get_sel_info-keeps
    ▸ idle
    ▸ reserve_sel-keeps
    ▸ (refl, get_sel_entry-keeps)
    ▹ add_sel_entry-keeps
    ▸ idle
    ▸ idle
    ▸ clear_sel-keeps
    ▸ idle
    ▸ idle
    ▸ idle
    ▸ idle
    ▸ end
