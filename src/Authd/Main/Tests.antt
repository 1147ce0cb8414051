-- ===== src/Authd/Main/Tests.antt =====
-- A daemon whose loop fails and whose old socket file is still there.
use secure_eye.Prelude.{◌≡◌, refl, subst, Bool, true, false, none, some}
use secure_eye.Python.{import_error, os_error, Result, err, ok, is_exception}
use secure_eye.Authd.Main.{
  Process, System, ignore_missing, unlink, prepare_socket, warm_detector, main,
}
use secure_eye.Authd.Main.Removed.{IsEnded, main-IsEnded}

abbrev os : System
os = record {
  create_pipeline = err import_error;
  makedirs = ok tt;
  may_unlink = ok tt;
  new_socket = ok tt;
  bind = ok 493;
  chmod = ok tt;
  listen = ok tt;
  serve = err os_error;
  file_after = λ file. file;
  close = err os_error;
}

abbrev left_over : Process
left_over = record { socket_file = some 438; listening = false; closed_socket = false }

abbrev bound : Process
bound = record { socket_file = some 438; listening = true; closed_socket = false }

failed_loop :
    main os left_over
    ≡ (err os_error, record bound { socket_file = none; listening = false; closed_socket = true })
unfolding main prepare_socket warm_detector unlink ignore_missing
failed_loop = refl

refused_bind :
    (prepare_socket (record os { bind = err os_error }) left_over)
    ≡ (err os_error, record left_over { socket_file = none })
unfolding prepare_socket unlink ignore_missing
refused_bind = refl

main-IsEnded_example : IsEnded os (main os left_over)
main-IsEnded_example =
    main-IsEnded os left_over bound (λ e at. subst (λ r. is_error r ≡ true) at refl)
      (unfold prepare_socket unlink ignore_missing in refl)
  where
    is_error : Result (Unit {0}) → Bool
    is_error (ok _) = true
    is_error (err e) = is_exception e
