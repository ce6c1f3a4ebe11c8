-- ===== src/Server/Safety.antt =====
-- internal/server with internal/lock: no volume is mounted by two running sandboxes. What msb does
-- is a parameter: which sandboxes run, and which volumes each of them has, as functions of the state
-- of the machine, with what the server relies on as the laws below.
pub mod Reads
pub mod Volumes
pub mod Claims
pub mod Mutations
pub mod Serving
use msb_manager.Prelude.{
  Text, Bool, true, false, Option, none, some, List, [], ◌∷◌, Result, ok, err, lookup, Map, ◌≡◌,
  ◌≢◌, Distinct,
}
use msb_manager.Lock.{Held, has_name}
use msb_manager.Msb.Errors.{Error, sandbox_not_found, is_error}
use msb_manager.Msb.Types
use msb_manager.Msb.Types.{volume_names}
use msb_manager.Server.{MsbClient, Response, State, or_respond}

-- the machine as the server's promise speaks of it
pub record View (W : Type 0) : Type 0 where
  pub running : W → Text → Bool
  pub volumes_of : W → Text → List Text

-- the volumes that a create mounts
abbrev pub mounted : Option Types.VolumeMount → List Text
mounted none = []
mounted (some v) = v.name ∷ []

module _ {W : Type 0} (view : View W) where
  -- nothing started: sandboxes may have ended by themselves, and those that run have their volumes
  pub record Same (w w' : W) : Type 0 where
    pub running : (n : Text) → view.running w' n ≡ true → view.running w n ≡ true
    pub volumes : (n : Text) → view.running w' n ≡ true → view.volumes_of w' n ≡ view.volumes_of w n

  -- at most this sandbox has started
  pub record Booted (name : Text) (w w' : W) : Type 0 where
    pub running : (n : Text) → n ≢ name → view.running w' n ≡ true → view.running w n ≡ true
    pub volumes :
        (n : Text)
        → n ≢ name
        → view.running w' n ≡ true
        → view.volumes_of w' n ≡ view.volumes_of w n

  -- nothing started, and this sandbox does not run
  pub record Ended (name : Text) (w w' : W) : Type 0 where
    pub down : view.running w' name ≡ false
    pub running : (n : Text) → view.running w' n ≡ true → view.running w n ≡ true
    pub volumes : (n : Text) → view.running w' n ≡ true → view.volumes_of w' n ≡ view.volumes_of w n

  -- every volume of a running sandbox is claimed for it
  pub record Covers (st : State W) : Type 0 where
    pub distinct : Distinct st.held
    pub claimed :
        (n v : Text)
        → view.running st.world n ≡ true
        → has_name v (view.volumes_of st.world n) ≡ true
        → lookup v st.held ≡ some n

  pub Covers-Same :
      (st : State W) (w : W) → Same st.world w → Covers st → Covers (record st { world = w })
  Covers-Same st w same c = record {
    distinct = c.distinct;
    claimed = λ n v up on. c.claimed n v (same.running n up) (rw (same.volumes n up) at on);
  }

-- what the server relies on: a call that fails starts nothing, a call that succeeds has the effect
-- of its name, the reads change nothing, and inspect tells the volumes
pub record MsbLaws {W F : Type 0} (view : View W) (client : MsbClient W F) : Type 0 where
  pub list : (w : W) → Same view w (client.list w).1
  pub inspect : (name : Text) (w : W) → Same view w (client.inspect name w).1
  pub inspect_volumes :
      (name : Text) (w : W) (d : Types.SandboxDetail)
      → (client.inspect name w).0 ≡ ok d
      → view.volumes_of (client.inspect name w).1 name ≡ volume_names d
  pub create_fails :
      (o : Types.CreateOpts) (w : W) (e : Error)
      → (client.create o w).0 ≡ err e
      → Same view w (client.create o w).1
  pub create_boots :
      (o : Types.CreateOpts) (w : W)
      → (client.create o w).0 ≡ ok tt
      → Booted view o.name w (client.create o w).1
  pub create_mounts :
      (o : Types.CreateOpts) (w : W)
      → (client.create o w).0 ≡ ok tt
      → view.running (client.create o w).1 o.name ≡ true
      → view.volumes_of (client.create o w).1 o.name ≡ mounted o.volume
  pub start_fails :
      (name : Text) (w : W) (e : Error)
      → (client.start name w).0 ≡ err e
      → Same view w (client.start name w).1
  pub start_boots :
      (name : Text) (w : W)
      → (client.start name w).0 ≡ ok tt
      → Booted view name w (client.start name w).1
  pub start_keeps :
      (name : Text) (w : W)
      → view.running (client.start name w).1 name ≡ true
      → view.volumes_of (client.start name w).1 name ≡ view.volumes_of w name
  pub stop_fails :
      (name : Text) (w : W) (e : Error)
      → (client.stop name w).0 ≡ err e
      → is_error e sandbox_not_found ≡ false
      → Same view w (client.stop name w).1
  pub stop_not_found :
      (name : Text) (w : W) (e : Error)
      → (client.stop name w).0 ≡ err e
      → is_error e sandbox_not_found ≡ true
      → Ended view name w (client.stop name w).1
  pub stop_ends :
      (name : Text) (w : W)
      → (client.stop name w).0 ≡ ok tt
      → Ended view name w (client.stop name w).1
  pub rm_fails :
      (name : Text) (w : W) (e : Error)
      → (client.rm name w).0 ≡ err e
      → is_error e sandbox_not_found ≡ false
      → Same view w (client.rm name w).1
  pub rm_not_found :
      (name : Text) (w : W) (e : Error)
      → (client.rm name w).0 ≡ err e
      → is_error e sandbox_not_found ≡ true
      → Ended view name w (client.rm name w).1
  pub rm_ends :
      (name : Text) (w : W) → (client.rm name w).0 ≡ ok tt → Ended view name w (client.rm name w).1
  pub exec : (name : Text) (argv : List Text) (w : W) → Same view w (client.exec name argv w).1
  pub logs : (name : Text) (o : Types.LogsOpts) (w : W) → Same view w (client.logs name o w).1
  pub metrics : (name : Text) (w : W) → Same view w (client.metrics name w).1
  pub volume_list : (w : W) → Same view w (client.volume_list w).1
  pub volume_create : (name size : Text) (w : W) → Same view w (client.volume_create name size w).1
  pub volume_rm : (name : Text) (w : W) → Same view w (client.volume_rm name w).1
  pub snapshot_list : (w : W) → Same view w (client.snapshot_list w).1
  pub snapshot_create :
      (from dest : Text) (labels : Map Text) (force : Bool) (w : W)
      → Same view w (client.snapshot_create from dest labels force w).1
  pub snapshot_rm : (name : Text) (w : W) → Same view w (client.snapshot_rm name w).1

-- an early return keeps what holds
pub or_respond-keeps {ℓ} :
    {W F : Type 0} {A : Type ℓ} (P : State W → Type 0) (r : Result (Response F) A) (st : State W)
    (k : A → State W → Response F × State W)
    → P st
    → ((a : A) → P (k a st).1)
    → P (or_respond r st k).1
or_respond-keeps P (ok a) st k h f = f a
or_respond-keeps P (err e) st k h f = h
