-- ===== src/Cli/Dispatch.antt =====
-- secureEye/src/cli.py: from the command line to the module of a command, and what it may not run as.
use secure_eye.Prelude.{
  ℕ, String, ◌≡◌, sym, ap, ◌∙◌, inl, inr, Bool, true, false, not, ◌&&◌, ◌||◌, Option, none, some,
  List, [], ◌∷◌, arith, str_eq, ◌==◌, if◌then◌else◌, Bool-cases, if_true, if_false,
}

-- What the command line and the process say: the number of arguments, the command that argparse
-- accepted, the user it is for, the flags, and the effective uid.
pub record Invocation : Type 0 where
  pub bare : Bool
  pub command : String
  pub user : String
  pub wants_json : Bool
  pub wants_yes : Bool
  pub euid : ℕ

-- The end of `cli.py`: the help or the version was shown, an error with its code, or a module that is
-- imported, with `-y` as it stands then.
pub data Dispatched : Type 0 where
  helped told_version : Dispatched
  refused_with : String → Dispatched
  runs : String → Bool → Dispatched

-- `json_commands`
abbrev pub json_commands : List String
json_commands = "clear" ∷ "disable" ∷ "fetch-models" ∷ "list" ∷ "remove" ∷ "set" ∷ "version" ∷ []

-- `command_modules`
abbrev command_modules : List (String × String)
command_modules =
    ("add", "cli.add")
    ∷ ("clear", "cli.clear")
    ∷ ("config", "cli.config")
    ∷ ("disable", "cli.disable")
    ∷ ("fetch-models", "cli.fetch_models")
    ∷ ("list", "cli.list")
    ∷ ("re-enroll", "cli.re_enroll")
    ∷ ("remove", "cli.remove")
    ∷ ("set", "cli.set")
    ∷ ("snapshot", "cli.snap")
    ∷ ("test", "cli.test")
    ∷ []

unfoldable pub is_listed : String → List String → Bool
is_listed c [] = false
is_listed c (x ∷ xs) = str_eq x c || is_listed c xs

module_of : String → List (String × String) → Option String
module_of c [] = none
module_of c ((name, path) ∷ rest) =
    let later = module_of c rest in if str_eq name c then some path else later

run_module : Bool → Option String → Dispatched
run_module quiet none = refused_with "unknown_command"
run_module quiet (some path) = runs path quiet

-- From the test for root.
as_root : Invocation → Dispatched
unfolding run_module
as_root i =
    if not (i.euid == 0)
    then refused_with "not_root"
    else if str_eq i.user "root"
    then refused_with "root_user"
    else run_module (i.wants_yes || i.wants_json) (module_of i.command command_modules)

-- The code of `cli.py` from the count of the arguments.
unfoldable pub dispatch : Invocation → Dispatched
unfolding as_root module_of
dispatch i =
    if i.bare
    then helped
    else if i.wants_json && not (is_listed i.command json_commands)
    then refused_with "json_unsupported"
    else if str_eq i.command "version"
    then told_version
    else as_root i

-- The root process runs the command for another user, and a caller who wants JSON gets a command that
-- prints it and asks nothing.
pub record IsAllowed (i : Invocation) (quiet : Bool) : Type 0 where
  pub by_root : i.euid ≡ 0
  pub for_another : str_eq i.user "root" ≡ false
  pub speaks_json :
      i.wants_json ≡ true → (is_listed i.command json_commands ≡ true) × (quiet ≡ true)

run_module-quiet :
    (quiet asks' : Bool) (m : Option String) (path : String)
    → run_module quiet m ≡ runs path asks'
    → quiet ≡ asks'
unfolding run_module
run_module-quiet quiet asks' none path h = absurd (cc)
run_module-quiet quiet asks' (some p) path h = ap flag h
  where
    flag : Dispatched → Bool
    flag (runs _ b) = b
    flag _ = quiet

as_root-IsAllowed :
    (i : Invocation) (path : String) (quiet : Bool)
    → as_root i ≡ runs path quiet
    → (i.euid ≡ 0) × (str_eq i.user "root" ≡ false) × ((i.wants_yes || i.wants_json) ≡ quiet)
unfolding as_root
as_root-IsAllowed i path quiet h = elim (Bool-cases (not (i.euid == 0))) [
  | inl other ↦ absurd (cc (sym (if_true _ other) ∙ h))
  | inr root ↦ elim (Bool-cases (str_eq i.user "root")) [
    | inl same ↦ absurd (cc (sym (if_false _ root ∙ if_true _ same) ∙ h))
    | inr another ↦ (
      ground arith,
      another,
      run_module-quiet _ quiet (module_of i.command command_modules) path
          (sym (if_false _ root ∙ if_false _ another) ∙ h),
    )
  ]
]

-- A command's module is run only by root and for a user that is not `root`; with `--json` only for the
-- commands that can print JSON, and without questions.
pub dispatch-IsAllowed :
    (i : Invocation) (path : String) (quiet : Bool)
    → dispatch i ≡ runs path quiet
    → IsAllowed i quiet
unfolding dispatch
dispatch-IsAllowed i path quiet h = elim (Bool-cases i.bare) [
  | inl bare ↦ absurd (cc (sym (if_true _ bare) ∙ h))
  | inr full ↦ elim (Bool-cases (i.wants_json && not (is_listed i.command json_commands))) [
    | inl silent ↦ absurd (cc (sym (if_false _ full ∙ if_true _ silent) ∙ h))
    | inr speaks ↦ elim (Bool-cases (str_eq i.command "version")) [
      | inl version ↦
          absurd (cc (sym (if_false _ full ∙ if_false _ speaks ∙ if_true _ version) ∙ h))
      | inr command ↦
          let (root, another, same) =
            as_root-IsAllowed i path quiet
              (sym (if_false _ full ∙ if_false _ speaks ∙ if_false _ command) ∙ h) in
          record {
            by_root = root;
            for_another = another;
            speaks_json = λ json. (ground arith, ground arith);
          }
    ]
  ]
]
