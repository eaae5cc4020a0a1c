-- ===== src/Runtime/Engine.antt =====
-- What the plane's control loops ask of the world outside: the container engine behind
-- internal/infra/runtime/runtime.go, the ingress behind internal/infra/ingress/ingress.go, and the
-- clock. These are not the plane's code, so they are a parameter; each call is kept in a trace.
use tidefly_plane.Prelude.{ℕ, String, Bool, Option, none, some, List, ◌∷◌}
use tidefly_plane.Runtime.Types.{RuntimeType, Container, Spec}
use tidefly_plane.Models.Service.{Service}

pub record Route : Type 0 where
  pub service_name : String
  pub domain : String
  pub upstream : String
  pub tls : Bool
  pub www : Bool

pub data Severity : Type 0 where
  info warn error fatal : Severity

-- `none` for no error, or the error's text. `wait` lets a number of milliseconds pass: in it the
-- world may change in any way.
pub record Engine (W : Type 0) : Type 0 where
  pub type : RuntimeType
  pub list : W → Option (List Container)
  pub create : Spec → W → Option String × W
  pub stop : String → W → W
  pub delete : String → W → Option String × W
  pub route : Route → W → Option String × W
  pub now : W → ℕ
  pub wait : ℕ → W → W
  pub canceled : W → Bool

pub data Call : Type 0 where
  listed : List Container → Call
  list_failed : Call
  created : Spec → Call
  create_failed : Spec → Call
  stopped : String → Call
  deleted : String → Call
  routed : Route → Call
  route_failed : Route → Call
  notified : Severity → Call

-- The trace has the latest call at its head. `svc` is the service that the loop works on.
pub record State (W : Type 0) : Type 0 where
  pub world : W
  pub svc : Service
  pub trace : List Call

abbrev pub created_as : Option String → Spec → Call
created_as none spec = created spec
created_as (some e) spec = create_failed spec

abbrev pub routed_as : Option String → Route → Call
routed_as none r = routed r
routed_as (some e) r = route_failed r

abbrev pub listed_as : Option (List Container) → Call
listed_as none = list_failed
listed_as (some cs) = listed cs

module _ {W : Type 0} (e : Engine W) where
  unfoldable pub list_containers : State W → Option (List Container) × State W
  list_containers s =
      let found = e.list s.world in (found, record s { trace = listed_as found ∷ s.trace })

  unfoldable pub create_container : Spec → State W → Option String × State W
  create_container spec s =
      let (failed, w) = e.create spec s.world in
      (failed, record s { world = w; trace = created_as failed spec ∷ s.trace })

  unfoldable pub stop_container : String → State W → State W
  stop_container id s = record s { world = e.stop id s.world; trace = stopped id ∷ s.trace }

  unfoldable pub delete_container : String → State W → State W
  delete_container id s = record s { world = (e.delete id s.world).1; trace = deleted id ∷ s.trace }

  -- Both errors are dropped, as the code drops them.
  unfoldable pub stop_and_delete : String → State W → State W
  unfolding stop_container delete_container
  stop_and_delete id s = delete_container id (stop_container id s)

  unfoldable pub update_route : Route → State W → Option String × State W
  update_route r s =
      let (failed, w) = e.route r s.world in
      (failed, record s { world = w; trace = routed_as failed r ∷ s.trace })

  unfoldable pub pause : ℕ → State W → State W
  pause ms s = record s { world = e.wait ms s.world }

abbrev pub notify : {W : Type 0} → Severity → State W → State W
notify severity s = record s { trace = notified severity ∷ s.trace }

-- A write to the service's row; GORM carries it over to the record in memory and stamps it.
abbrev pub save : {W : Type 0} → Engine W → Service → State W → State W
save e svc s = record s { svc = record svc { updated_at = e.now s.world } }
