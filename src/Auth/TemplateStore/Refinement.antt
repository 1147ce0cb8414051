-- ===== src/Auth/TemplateStore/Refinement.antt =====
-- The store as a list of templates: what a sequence of calls does to the file, it does to that list.
pub mod Refused
pub mod Simulated
use secure_eye.Prelude.{◌≡◌, Bool, true, false, none, List, [], ◌∷◌, ◌++◌, keep, All}
use secure_eye.Prelude.Int.{ℤ}
use secure_eye.Python.{Exc, Result, err, ok}
use secure_eye.Auth.Template.{Template, Numpy, find}
use secure_eye.Auth.Template.RoundTrip.{IsStorable}
use secure_eye.Auth.TemplateStore.{
  FileState, stored_next_id, save, delete, load_or_empty, at_least_2d, Enrolled, build, append,
  other_space, replace_space,
}
use secure_eye.Auth.TemplateStore.Operations.{Storable}

-- The calls that change a user's templates.
pub data Command : Type 0 where
  put_in put_over : Enrolled → Command
  put_all : List Template → Command
  wipe : Command

-- Whether the call returned, and the file that it leaves.
abbrev pub returned : {A : Type 0} → Result A × FileState → Bool × FileState
returned (ok _, f) = (true, f)
returned (err _, f) = (false, f)

unfoldable pub obey : Numpy → Command → FileState → Bool × FileState
obey np (put_in e) f = returned (append np e f)
obey np (put_over e) f = returned (replace_space np e f)
obey np (put_all ts) f = returned (save ts f)
obey np wipe f = returned (delete f)

unfoldable pub obey_all : Numpy → List Command → FileState → List Bool × FileState
obey_all np [] f = ([], f)
obey_all np (c ∷ cs) f =
    let now = obey np c f in let later = obey_all np cs now.1 in (now.0 ∷ later.0, later.1)

-- What a call may do to the list: nothing when it raises; else it puts a template with a new id and the
-- given label, space, time and rows behind those that it keeps, or leaves the given list, or none.
pub record IsNew (e : Enrolled) (ts : List Template) (t : Template) : Type 0 where
  pub new_id : find ts t.id ≡ none
  pub given_label : t.label ≡ e.label
  pub given_space : t.model_id ≡ e.model_id
  pub given_time : t.created ≡ e.created
  pub given_rows : at_least_2d e.embeddings ≡ ok t.embeddings

-- Why a call may raise: no template can be built of what is given, or there is nothing to delete.
abbrev pub IsRefused : Command → List Template → Type 0
IsRefused (put_in e) ts = (id : ℤ) × (x : Exc) × (build id e ≡ err x)
IsRefused (put_over e) ts = (id : ℤ) × (x : Exc) × (build id e ≡ err x)
IsRefused (put_all l) ts = ⊥
IsRefused wipe ts = ts ≡ []

pub data Step : Command → Bool → List Template → List Template → Type 0 where
  raised : {c : Command} {ts : List Template} → IsRefused c ts → Step c false ts ts
  entered :
      {e : Enrolled} {ts : List Template} (t : Template)
      → IsNew e ts t
      → Step (put_in e) true ts (ts ++ (t ∷ []))
  swapped :
      {e : Enrolled} {ts : List Template} (t : Template)
      → IsNew e ts t
      → Step (put_over e) true ts (keep (other_space e.model_id) ts ++ (t ∷ []))
  replaced : {l ts : List Template} → Step (put_all l) true ts l
  wiped : {ts : List Template} → Step wipe true ts []

pub data Steps : List Command → List Bool → List Template → List Template → Type 0 where
  finished : {ts : List Template} → Steps [] [] ts ts
  step_then :
      {c : Command} {cs : List Command} {b : Bool} {bs : List Bool} {ts₁ ts₂ ts₃ : List Template}
      → Step c b ts₁ ts₂
      → Steps cs bs ts₂ ts₃
      → Steps (c ∷ cs) (b ∷ bs) ts₁ ts₃

-- The file holds these templates, which fit its format, and its mark can be read.
pub record Holds (np : Numpy) (f : FileState) (ts : List Template) : Type 0 where
  pub loaded : load_or_empty np f ≡ ok ts
  pub fitting : All (IsStorable np) ts
  pub mark : (m : ℤ) × (stored_next_id f ≡ ok m)

-- What `build` makes for the command, or the given list, fits the format.
unfoldable pub Fits : Numpy → Command → Type 0
Fits np (put_in e) = (id : ℤ) (t : Template) → build id e ≡ ok t → IsStorable np t
Fits np (put_over e) = (id : ℤ) (t : Template) → build id e ≡ ok t → IsStorable np t
Fits np (put_all ts) = Storable np ts
Fits np wipe = Unit
