-- ===== src/Lib.antt =====
-- SecureEye: face login for Linux. This library models the Python core under secureEye/src: the
-- daemon that answers login and management requests, the store of face templates, and the sessions
-- that use the camera. JSON, sockets, NumPy, OpenCV, dlib, MediaPipe, ffmpeg and the user database are
-- parameters.
--
-- The parts, and where they are modelled:
-- - Prelude: lists, tests and integers over the native numbers. Python: exceptions as values
--   (`Result`), JSON values, floats as binary fractions, and the built-ins that the code applies.
-- - Authd.Framing: secureEye/src/authd/protocol.py, frames on a socket. `read_exact` is a loop over
--   the pieces that a feed delivers, with the clock; its fuel is the number of bytes still wanted,
--   which is enough since each round reads at least one byte or ends.
-- - Authd.Requests: the same file, validation of both versions of requests.
-- - Authd.Access: secureEye/src/authd/access.py, who may act for which user.
-- - Authd.Camera: secureEye/src/authd/camera.py, the arbiter between logins and management
--   sessions; any interleaving of its callers is a list of events.
-- - Authd.Messages, Authd.Sessions, Authd.Watch, Authd.Manage: secureEye/src/authd/manage.py, the
--   messages to a client, the camera sessions with their previews, the thread that cancels one for its
--   client, and the answers to management requests over the model file, the lock on it and the camera.
-- - Authd.Workers: secureEye/src/authd/main.py, the hand-over of a login to a worker and the bound on
--   the connections; any interleaving of the accept loop and its workers is a list of events.
-- - Authd.Server: the same file, the answer to one connection; the time to wait for bytes and for a
--   session is the clock of the connection, in milliseconds.
-- - Auth.Template, Auth.TemplateStore: secureEye/src/auth/template_store.py, the file format, and
--   the operations on a user's file; Auth.TemplateStore.Atomic is the write step by step, and
--   Auth.TemplateStore.Refinement the abstract list of templates that the file stands for.
-- - Auth.ModelStore: secureEye/src/auth/model_store.py, the deprecated view of the templates.
-- - Auth.Factory: secureEye/src/auth/detector_factory.py, the stages for a configuration.
-- - Auth.Pipeline: secureEye/src/auth/matching.py and pipeline.py, one face against the templates.
-- - Auth.Capture: secureEye/src/auth/capture.py and frame_ops.py, reading and judging a frame.
-- - Auth.Session: secureEye/src/auth/session.py, the loop of a login and its exit codes. The loop has
--   no bound of its own: it runs over a list of turns, and ends in a turn that is late or cancelled.
-- - Auth.Enrollment: secureEye/src/auth/enrollment.py, capturing a face and storing it; its loop
--   has the source's bound of 60 frames.
-- - Auth.Probe: secureEye/src/auth/recognition_probe.py, a trial of the recognition over a list of
--   turns.
-- - Rubberstamps, Rubberstamps.Nod, Rubberstamps.Hotkey: secureEye/src/rubberstamps, the extra checks
--   after a match, and the two stamps that come with the program.
-- - Cli: secureEye/src/cli.py and secureEye/src/cli, the choice of a command (Cli.Dispatch), the
--   commands on a user's models (Cli.Models) and on the configuration (Cli.Settings, Cli.Disable),
--   fetching dlib's files (Cli.FetchModels), and enrolling at the terminal (Cli.Enroll, Cli.Labels).
-- - Auth.Session.Camera: secureEye/src/auth/session.py with the release in capture.py, the camera of a
--   session that other threads cancel; any interleaving of the session and of the calls is a list of steps.
-- - Authd.Main: secureEye/src/authd/main.py, the warm-up, the socket file and the end of the daemon.
-- - Auth.Interfaces, Auth.Legacy: secureEye/src/auth/interfaces.py and secureEye/src/auth/legacy, faces,
--   embeddings, and the detectors and recognizers over dlib and MediaPipe.
-- - Detectors: secureEye/src/detectors, the boxes, crops and model files of MediaPipe and the check of
--   dlib's files.
-- - Recorders: secureEye/src/recorders, the camera through OpenCV, the batches that ffmpeg records and
--   the sizes that it lists, and the frames of pyv4l2.
-- - DlibModels: secureEye/src/dlib_models.py, the download of dlib's data files.
--
-- The daemon reads a request by Authd.Framing, validates it by Authd.Requests and asks Authd.Access;
-- Authd.Manage and the enrolment change the file by Auth.TemplateStore. A login loads its templates
-- there, takes frames of Auth.Capture to Auth.Pipeline, and ends by Rubberstamps. The command line
-- changes the same file as the daemon.
--
-- Definitions are translated clause by clause from the functions they are named after; a helper
-- carries the part of a function that its comment names. A record holds what an object keeps, and
-- code that changes it returns the new record with its result.
--
-- Not modelled: the commands that open an editor, the camera or a window, the copy of the v4l2 bindings,
-- the C++ clients, the build scripts, translations, most paths and pictures. What is only shown to a user
-- (texts, timings, reports) is left out.
pub mod Prelude
pub mod Python
pub mod Authd
pub mod Auth
pub mod Rubberstamps
pub mod Cli
pub mod DlibModels
pub mod Recorders
pub mod Detectors
