-- ===== src/Auth/TemplateStore/Atomic/Tests.antt =====
-- Writing a payload over a garbled model file.
use secure_eye.Prelude.{◌≡◌, ◌⊎◌, true, none}
use secure_eye.Python.{null}
use secure_eye.Auth.TemplateStore.{garbled, json}
use secure_eye.Auth.TemplateStore.Atomic.{Folder, killed_after, killed_after-target}

abbrev before : Folder
before = record { target = garbled; temporary = none }

killed_after-target_example :
    ((killed_after 7 true null before).target ≡ garbled)
    ⊎ ((killed_after 7 true null before).target ≡ json null)
killed_after-target_example = killed_after-target true null before 7
