-- ===== src/Converter/Sources.antt =====
-- internal/converter/image.go, dockerfile.go and git.go. A repository is a record of functions on its files.
use Prim.Native.String.{◌++◌}
use tidefly_plane.Prelude.{
  String, Bool, true, not, ◌||◌, Option, none, some, List, [], ◌∷◌, Result, ok, err, guard, ◌>>=◌,
  ◌>>◌, Dict, put, ◌==◌, contains, before_first, strip_suffix, if◌then◌else◌, map,
}
use tidefly_plane.Prelude.Split.{split, last_part}
use tidefly_plane.Manifest.Schema.{ServiceManifest, ScalingSpec}
use tidefly_plane.Converter.Input.{
  ConvertInput, Conversion, ConvertError, image_required, dockerfile_required, name_required,
  git_url_required, no_build_found, clone_failed, tar_failed, api_version, kind_service,
  source_image, source_dockerfile, source_git, source_compose, unbuilt, input_expose, input_scaling,
}
use tidefly_plane.Converter.Compose.{ComposeService, decoded, convert_compose}

unfoldable pub image_to_name : String → String
unfolding before_first split last_part
image_to_name image = last_part (split b'/' (before_first b':' image))

-- The manifest of one service that the three sources build.
unfoldable pub single_manifest :
    (name image : String) (labels : Dict String)
    → Option ScalingSpec
    → ConvertInput
    → ServiceManifest
unfolding input_expose
single_manifest name image labels scaling input = record {
  api_version = api_version;
  kind = kind_service;
  metadata = record { name = name; namespace = ""; labels = labels };
  spec = record {
    container = record {
      image = image;
      build = none;
      env = input.env;
      volumes = [];
      resources = none;
    };
    expose = input_expose input;
    health = none;
    scaling = scaling;
    depends_on = [];
    alerts = none;
    maintenance = none;
  };
}

unfoldable pub convert_image : ConvertInput → Result ConvertError Conversion
unfolding image_to_name single_manifest input_scaling unbuilt
convert_image input =
    let name = if input.name == "" then image_to_name input.image else input.name in
    guard (not (input.image == "")) image_required
    >> ok (
        unbuilt (
          single_manifest name input.image (("tidefly.source", source_image) ∷ [])
            (input_scaling input) input
          ∷ []))

-- The tag under which the image of a service is built.
unfoldable pub local_tag : (name : String) → String
local_tag name = "localhost/tidefly/" ++ name ++ ":latest"

unfoldable pub qualify_local_tag : String → String
unfolding before_first contains
qualify_local_tag tag =
    let first = before_first b'/' tag in
    if contains b'.' first || first == "localhost" then tag else "localhost/" ++ tag

unfoldable pub convert_dockerfile : ConvertInput → Result ConvertError Conversion
unfolding local_tag qualify_local_tag single_manifest input_scaling unbuilt
convert_dockerfile input =
    let given = if input.build_tag == "" then local_tag input.name else input.build_tag in
    let tag = qualify_local_tag given in
    guard (not (input.dockerfile == "")) dockerfile_required
    >> guard (not (input.name == "")) name_required
    >> ok
        (record (unbuilt (
          single_manifest input.name tag
            (("tidefly.source", source_dockerfile) ∷ (("tidefly.build-tag", tag) ∷ []))
            (input_scaling input) input
          ∷ [])) { build_required = true; build_tag = tag; inline_dockerfile = input.dockerfile })

-- What the code reads of a clone: the content of a file, whether a path exists, and its archive.
pub record Repo : Type 0 where
  pub read_file : String → Option String
  pub exists : String → Bool
  pub archive : Option String

-- The first of some files that can be read.
unfoldable pub first_read : Repo → List String → Option String
first_read repo [] = none
first_read repo (name ∷ names) = elim (repo.read_file name) [
  | none ↦ first_read repo names
  | some text ↦ some text
]

unfoldable pub first_existing : Repo → List String → Option String
first_existing repo [] = none
first_existing repo (name ∷ names) =
    if repo.exists name then some name else first_existing repo names

-- `detectInRepo`: the text of the Compose file and the path of the Dockerfile.
unfoldable pub detect_in_repo : Repo → Option String × Option String
unfolding first_read first_existing
detect_in_repo repo = (
  first_read repo
      ("docker-compose.yml" ∷ ("docker-compose.yaml" ∷ ("compose.yml" ∷ ("compose.yaml" ∷ [])))),
  first_existing repo ("Dockerfile" ∷ ("dockerfile" ∷ ("Dockerfile.prod" ∷ []))),
)

abbrev pub name_or_service : String → String
name_or_service name = if name == "" then "service" else name

abbrev pub without_git : String → Option String → String
without_git url none = url
without_git url (some base) = base

unfoldable pub repo_to_name : String → String
unfolding strip_suffix split last_part
repo_to_name url =
    name_or_service (last_part (split b'/' (without_git url (strip_suffix ".git" url))))

abbrev pub branch_or_main : String → String
branch_or_main branch = if branch == "" then "main" else branch

unfoldable pub label_git : (url branch : String) → ServiceManifest → ServiceManifest
unfolding put
label_git url branch m = record m {
  metadata = record m.metadata {
    labels = put "tidefly.git-branch" branch (put "tidefly.git-url" url m.metadata.labels);
  };
}

unfoldable pub git_labels : (url branch path tag : String) → Dict String
git_labels url branch path tag =
    ("tidefly.source", source_git)
    ∷ (("tidefly.git-url", url)
        ∷ (("tidefly.git-branch", branch)
            ∷ (("tidefly.dockerfile-path", path) ∷ (("tidefly.build-tag", tag) ∷ []))))

-- The archive was made.
unfoldable pub built_from :
    (name branch path : String) → ConvertInput → (archive : String) → Conversion
unfolding local_tag git_labels single_manifest unbuilt
built_from name branch path input archive =
    record (unbuilt (
      single_manifest name (local_tag name) (git_labels input.git_url branch path (local_tag name))
        none input
      ∷ [])) {
        build_required = true;
        build_tag = local_tag name;
        build_context = some archive;
        dockerfile_path = path;
        git_url = input.git_url;
        branch = branch;
        git_token = input.git_token;
      }

unfoldable pub convert_detected :
    (String → Option (Dict ComposeService))
    → (name branch : String) → ConvertInput
    → Repo
    → Option String × Option String
    → Result ConvertError Conversion
unfolding convert_compose label_git built_from
convert_detected yaml name branch input repo (some text, path) =
    convert_compose yaml (record input { type = source_compose; compose_yaml = text; name = name })
    >>= λ (r : Conversion).
        ok (record r { manifests = map (label_git input.git_url branch) r.manifests })
convert_detected yaml name branch input repo (none, some path) =
    decoded tar_failed repo.archive >>= λ archive. ok (built_from name branch path input archive)
convert_detected yaml name branch input repo (none, none) = err no_build_found

-- The clone of a URL at a branch with a token is an argument, as is the decoder of Compose files. The
-- directories for it are taken to be made.
unfoldable pub convert_git :
    (clone : (url branch token : String) → Option Repo)
    → (String → Option (Dict ComposeService))
    → ConvertInput
    → Result ConvertError Conversion
unfolding repo_to_name detect_in_repo convert_detected
convert_git clone yaml input =
    let branch = branch_or_main input.branch in
    let name = if input.name == "" then repo_to_name input.git_url else input.name in
    guard (not (input.git_url == "")) git_url_required
    >> (decoded clone_failed (clone input.git_url branch input.git_token) >>= λ repo.
        convert_detected yaml name branch input repo (detect_in_repo repo))

-- `BuildGitContext`
unfoldable pub build_git_context :
    (clone : (url branch token : String) → Option Repo)
    → (url branch token : String) → Result ConvertError String
build_git_context clone url branch token =
    decoded clone_failed (clone url (branch_or_main branch) token) >>= λ repo.
    decoded tar_failed repo.archive
