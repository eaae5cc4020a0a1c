-- ===== src/Jobs/DeployTests.antt =====
-- Deployments and updates in the small world of Jobs/Tests.
use tidefly_plane.Prelude.{ℕ, ◌≡◌, refl, pos, true, false, none, some, [], ok}
use tidefly_plane.Manifest.Validate.{validate, validate_container, validate_scaling, validate_env}
use tidefly_plane.Manifest.Resolved.{known_ports}
use tidefly_plane.Manifest.Tests.{database}
use tidefly_plane.Manifest.Resolve.{resolve}
use tidefly_plane.Runtime.Engine.{create_container}
use tidefly_plane.Converter.Input.{ConvertInput}
use tidefly_plane.Converter.Convert.{Readers}
use tidefly_plane.Jobs.Tests.{world, begin, no_duration}
use tidefly_plane.Jobs.Stages.{DeployEngine}
use tidefly_plane.Jobs.Deployment.{deploy_work}
use tidefly_plane.Jobs.Changes.{UpdateArgs, with_changes}
use tidefly_plane.Jobs.Deployed.{IsDeployed, deploy_work-IsDeployed}
use tidefly_plane.Models.Service.{ServiceStatus}
use tidefly_plane.Runtime.Engine.{State}
use tidefly_plane.Jobs.Updates.{with_changes_settled}

abbrev readers : Readers
readers = record {
  read_kind = λ text. some "service";
  read_service = λ text. some database;
  read_stack = λ text. none;
  read_compose = λ text. none;
  clone = λ url branch token. none;
}

abbrev engine : DeployEngine ℕ
engine = record {
  job = world [];
  readers = readers;
  marshal = λ m. "{}";
  unmarshal = λ text. some database;
  error_text = λ why. "failed";
  name_taken = λ name w. false;
  project_network = λ id w. none;
  connect_network = λ container network w. w;
  create_volume = λ name w. (true, w);
  build_archive = λ tag path archive w. (true, w);
  build_text = λ tag dockerfile w. (true, w);
  add_route = λ r w. (true, w);
  update_route = λ r w. w;
  remove_route = λ name w. w;
  send_blue_green = λ svc w. none;
}

abbrev input : ConvertInput
input = record {
  type = "";
  manifest_json = "{}";
  image = "";
  compose_yaml = "";
  stack_name = "";
  dockerfile = "";
  build_tag = "";
  git_url = "";
  branch = "";
  git_token = "";
  name = "";
  project_id = "";
  domain = "";
  port = pos 0;
  expose = false;
  env = [];
  replicas = pos 0;
  strategy = "";
}

deploy_test : (deploy_work engine no_duration known_ports input begin).0 ≡ none
unfolding deploy_work resolve validate validate_container validate_scaling validate_env
    create_container
deploy_test = refl

deploy_work-IsDeployed_example :
    IsDeployed engine no_duration known_ports ServiceStatus.running
      (deploy_work engine no_duration known_ports input begin)
deploy_work-IsDeployed_example = deploy_work-IsDeployed engine no_duration known_ports input begin

-- Where another row has the name, the job reports no error and the row stays as it was.
abbrev crowded : DeployEngine ℕ
crowded = record engine { name_taken = λ name w. true }

abbrev waiting : State ℕ
waiting = record begin { svc = record begin.svc { status = ServiceStatus.deploying } }

crowded_test :
    ((deploy_work crowded no_duration known_ports input waiting).0 ≡ none)
    × ((deploy_work crowded no_duration known_ports input waiting).1.svc.status
        ≡ ServiceStatus.deploying)
unfolding deploy_work resolve validate validate_container validate_scaling validate_env
    create_container
crowded_test = (refl, refl)

abbrev update : UpdateArgs
update = record { image = "postgres:17"; domain = "db.example"; replicas = pos 2 }

with_changes_settled_example :
    (validate (with_changes update database).1 ≡ ok tt)
    × ((with_changes update (with_changes update database).1).0 ≡ false)
unfolding validate validate_container validate_scaling validate_env
with_changes_settled_example = with_changes_settled update database refl
