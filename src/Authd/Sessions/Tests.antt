-- ===== src/Authd/Sessions/Tests.antt =====
-- An enrolment at the daemon whose first report cannot be sent.
use secure_eye.Prelude.{ℕ, ◌/◌, ◌≡◌, refl, ◌⊎◌, Bool, true, false, none, some, [], ◌∷◌}
use secure_eye.Prelude.Int.{pos}
use secure_eye.Python.{connection_error, ok, dyadic, null}
use secure_eye.Auth.Capture.{face}
use secure_eye.Auth.Enrollment.{enroll_user}
use secure_eye.Auth.Enrollment.Tests.{desk}
use secure_eye.Auth.Enrollment.Written.{IsStored}
use secure_eye.Auth.Pipeline.Tests.{one_face}
use secure_eye.Auth.TemplateStore.{absent}
use secure_eye.Authd.Messages.{Service}
use secure_eye.Authd.Requests.{enroll, ManageRequest}
use secure_eye.Authd.Sessions.{Studio, camera_session}
use secure_eye.Authd.Sessions.Filed.{camera_session-Written}
use secure_eye.Authd.Sessions.Runs.{EnrollScene, desk_of, enroll_run}

abbrev scene : EnrollScene ℕ ℕ
scene = record {
  bundle = one_face;
  desk = desk;
  average_darkness = dyadic (pos 5) (pos 0);
  watcher_starts = ok tt;
  reported = record { state = face; content = null; now = 200; frame = 0 } ∷ [];
  taken_away = false;
}

abbrev studio : Studio ℕ
studio = record {
  prepare = λ req. ok (enroll_run scene req);
  imaging = record {
    height = λ f. 480;
    width = λ f. 640;
    round_ratio = λ a b. a / b;
    resize = λ h w f. ok f;
    jpeg = λ f. ok none;
  };
  round = λ d n. d;
}

abbrev request : ManageRequest
request = record {
  id = "r1";
  kind = enroll;
  username = "ana";
  model = none;
  label = "new";
  replace = false;
  preview = false;
  duration_ms = pos 15000;
}

abbrev found : Service
found = record {
  file = absent;
  sent = [];
  write_faults = none ∷ some connection_error ∷ [];
  lock_free = true;
  lock_held = false;
  camera_free = true;
  camera_held = false;
}

camera_session-Written_example :
    ((camera_session studio request found).1.file ≡ absent)
    ⊎ ((count : ℕ) × (cut : Bool) × IsStored one_face
          (desk_of scene count cut)
          false
          absent
          (enroll_user one_face (desk_of scene count cut) "new" false absent)
        × ((camera_session studio request found).1.file
            ≡ (enroll_user one_face (desk_of scene count cut) "new" false absent).1))
camera_session-Written_example = camera_session-Written studio scene request found refl
