-- ===== src/Camera/Examples.antt =====
-- The theorems on cameras, at a camera of GB28181 and one with credentials.
use iolink.Base.{
  is_empty, valid_utf8, rune_count, has_control, trim_space, trim_left, trim_left_reversed,
  ascii_space, ℕ, suc, ◌≡◌, refl, true, false, text, replicate, [], ◌∷◌, ℤ, pos, none, some, ok,
  arith,
}
use iolink.World.{M}
use iolink.Camera.Source.{
  rtsp_source, video_rtsp, video_gb28181, gb_source, VideoSource, Parsers, new_gb_video_source,
}
use iolink.Camera.Credentials.{CredentialBinding, camera_credential, is_valid, is_positive}
use iolink.Camera.Configuration.{
  SourceInput, Configuration, valid_label, valid_name, parse_source, parse_configuration,
}
use iolink.Camera.Parsed.{IsLabel, IsSource, parse_configuration-IsSource}
use iolink.Camera.Store.{Camera, Page, Store}
use iolink.Camera.Service.{Dependencies, list, get, create, replace, disable}
use iolink.Camera.Binding.{IsBinding, associated_data-injective}
use iolink.Camera.Configured.{Configured}
use iolink.Camera.Errors.{IsGuarded, calls-IsGuarded}

abbrev returns : {A : Type 0} → A → M ℕ A
returns a w = (suc w, ok a)

abbrev cam : Camera
cam = record {
  id = pos 7;
  pond_id = pos 3;
  name = text "cam";
  source_kind = video_rtsp;
  source_version = pos 1;
  gb_device_id = none;
  gb_channel_id = none;
  status = text "offline";
  error_code = none;
}

abbrev store : Store ℕ
store = record {
  begin = returns tt;
  commit = returns tt;
  rollback = λ w. w;
  is_no_rows = λ e. false;
  authorize = λ write. returns tt;
  license_snapshot = returns (record {
    deployment_id = text "d";
    payload = text "p";
    signature = text "s";
    sha256 = text "h";
    max_seen_at = 5;
    clock_error = false;
    now = 6;
  });
  list = λ page. returns (record { items = cam ∷ []; next_after_id = none });
  read = λ id. returns cam;
  check_target = λ target. returns tt;
  prepare = λ target.
      returns (record { id = pos 7; farm_id = pos 1; source_version = pos 1; enabled = true });
  write = λ mutation. returns cam;
  disable = λ binding. returns tt;
}

abbrev dependencies : Dependencies ℕ
dependencies = record {
  store = some store;
  require_video = some (λ snapshot. returns tt);
  seal = some (λ binding plain. returns (replicate 29 0));
  require_configuration = some (λ kind. returns tt);
  observe_license_clock = some (returns tt);
  tenant = pos 2;
}

abbrev cfg : Configuration
cfg = record {
  pond_id = pos 3;
  name = text "cam";
  source = some (rtsp_source (text "rtsp://cam/1"));
  credential = text "secret";
}

calls-IsGuarded_example :
    ((page : Page) → IsGuarded (list dependencies page))
    × ((id : ℤ) → IsGuarded (get dependencies id))
    × ((cfg : Configuration) → IsGuarded (create dependencies cfg))
    × ((id : ℤ) (cfg : Configuration) → IsGuarded (replace dependencies id cfg))
    × ((id : ℤ) → IsGuarded (disable dependencies id))
calls-IsGuarded_example = calls-IsGuarded dependencies

abbrev binding : CredentialBinding
binding = record {
  purpose = camera_credential;
  tenant_id = pos 2;
  entity_id = pos 7;
  version = pos 1;
}

binding-IsBinding : IsBinding binding
unfolding is_valid
binding-IsBinding = record {
  valid = refl;
  tenant = (2, refl, omega arith);
  entity = (7, refl, omega arith);
  version = (1, refl, omega arith);
}

associated_data-injective_example : binding ≡ binding
associated_data-injective_example =
    associated_data-injective binding binding binding-IsBinding binding-IsBinding refl

abbrev input : SourceInput
input = record {
  kind = video_gb28181;
  uri = [];
  credentials = none;
  device_id = pos 5;
  channel_id = text "34020000001310000001";
}

abbrev parsers : Parsers
parsers = record { parse_url = λ s. none; parse_addr = λ s. none }

abbrev parsed : Configuration
parsed = record {
  pond_id = pos 3;
  name = text "cam";
  source = some (gb_source (pos 5) (text "34020000001310000001"));
  credential = [];
}

parsing : parse_configuration parsers (λ c. none) (pos 3) (text "cam") input ≡ ok parsed
unfolding parse_configuration valid_name valid_label valid_utf8 rune_count has_control trim_space
    trim_left trim_left_reversed ascii_space parse_source new_gb_video_source
parsing = refl

parse_configuration-IsSource_example :
    (is_positive (pos 3) ≡ true)
    × (parsed.pond_id ≡ pos 3)
    × IsLabel (text "cam")
    × (is_empty (trim_space (text "cam")) ≡ false)
    × (parsed.name ≡ text "cam")
    × ((source : VideoSource) × (parsed.source ≡ some source)
        × IsSource parsers (λ c. none) input source parsed.credential)
parse_configuration-IsSource_example =
    parse_configuration-IsSource parsers (λ c. none) input (pos 3) (text "cam") parsing
