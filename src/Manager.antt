-- ===== src/Manager.antt =====
-- cmd/msb-manager/main.go: the start of the server, which seeds the volume lock from the sandboxes
-- that run before it listens.
pub mod Collecting
pub mod Seeding
pub mod Retrying
pub mod Safety
pub mod Run
pub mod Command
pub mod Machine
pub mod Scenario
pub mod Racing
mod Tests
use msb_manager.Prelude.{
  ℕ, zero, suc, ◌*◌, Text, codes, Bool, true, false, not, Option, none, some, List, [], ◌∷◌, Map,
  insert, Result, ok, err, text_eq, if◌then◌else◌, ltb,
}
use msb_manager.Lock.{Held, reconcile}
use msb_manager.Msb.Errors.{Error}
use msb_manager.Msb.Types
use msb_manager.Msb.Types.{volume_names}
use msb_manager.Server.{MsbClient}

-- for _, v := range detail.VolumeNames() { state[v] = sb.Name }
unfoldable pub set_all : List Text → Text → Map Text → Map Text
set_all [] s state = state
set_all (v ∷ vs) s state = set_all vs s (insert v s state)

abbrev pub is_running : Types.Sandbox → Bool
is_running sb = text_eq sb.status (codes "Running")

-- reconcileInitialBackoff and reconcileMaxBackoff, in nanoseconds
abbrev pub initial_backoff : ℕ
initial_backoff = 1000000000

abbrev pub max_backoff : ℕ
max_backoff = 30000000000

-- the backoff after a failed attempt
unfoldable pub next_backoff : ℕ → ℕ → ℕ
next_backoff limit backoff = if ltb limit (backoff * 2) then limit else backoff * 2

-- how the startup ends: the lock is seeded, or the context was canceled while it waited
pub data Startup (W : Type 0) : Type 0 where
  ready : Held → W → Startup W
  abandoned : Error → W → Startup W

module _ {W F : Type 0} (client : MsbClient W F) where
  -- the loop of reconcileVolumes
  unfoldable pub collect : List Types.Sandbox → Map Text → W → Result Error (Map Text) × W
  collect [] state w = (ok state, w)
  collect (sb ∷ sbs) state w =
      let (r, w') = client.inspect sb.name w in
      if not (is_running sb) then collect sbs state w else (elim r [
        | err e ↦ (err e, w')
        | ok d ↦ collect sbs (set_all (volume_names d) sb.name state) w'
      ])

  abbrev seeded : Result Error (Map Text) × W → Held → Option Error × (Held × W)
  seeded (ok state, w) held = (none, (reconcile state held, w))
  seeded (err e, w) held = (some e, (held, w))

  -- reconcileVolumes: the error, the lock and the machine
  unfoldable pub reconcile_volumes : Held → W → Option Error × (Held × W)
  reconcile_volumes held w =
      let (r, w') = client.list w in
      elim r [ err e ↦ (some e, (held, w')) | ok sbs ↦ seeded (collect sbs [] w') held ]

  -- reconcileVolumesWithRetry. The argument `stops` says of each wait, by its number and length,
  -- whether the context is done before the timer fires; none when the attempts given are used up.
  unfoldable pub reconcile_with_retry :
      (ℕ → ℕ → Bool) → ℕ → ℕ → ℕ → ℕ → Held → W → Option (Startup W)
  unfolding next_backoff
  reconcile_with_retry stops limit zero i backoff held w = none
  reconcile_with_retry stops limit (suc n) i backoff held w =
      let (failure, (held', w')) = reconcile_volumes held w in
      let again =
        reconcile_with_retry stops limit n (suc i) (next_backoff limit backoff) held' w' in
      elim failure [
        | none ↦ some (ready held' w')
        | some e ↦ if stops i backoff then some (abandoned e w') else again
      ]
