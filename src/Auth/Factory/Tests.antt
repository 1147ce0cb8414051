-- ===== src/Auth/Factory/Tests.antt =====
-- The space of the templates for a configuration of dlib.
use secure_eye.Prelude.{◌≡◌, refl, false}
use secure_eye.Auth.Factory.{Config, active_model_id}

abbrev plain_config : Config
plain_config = record {
  detector_backend = "dlib";
  use_cnn = false;
  pipeline = "legacy";
  model_id = "sface-2021dec";
}

space_of_dlib : active_model_id plain_config ≡ "dlib-resnet-v1"
unfolding active_model_id
space_of_dlib = refl
