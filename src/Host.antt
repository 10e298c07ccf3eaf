-- ===== src/Host.antt =====
-- What the tools use of their host: Python's exceptions, the files, standard output and standard
-- error. A file is its whole content under its path, and a write to a file does not fail.
pub mod Writes
use poly_firmware_build.Base.{
  append-nil, ap, ℕ, Bool, true, false, Option, none, some, List, [], ◌∷◌, ◌++◌, String, ◌≡◌, refl,
  fun_ext, arith, if◌then◌else◌, Bytes, Text, text_eq, text_eq_refl,
}

-- The exceptions. A place in a message with no value for it is a file's name, which is left out.
pub data Error : Type 0 where
  file_not_found : Text → Error
  struct_error unicode_encode_error unicode_decode_error index_error zero_division_error os_error :
      Error
  runtime_error : String → List Text → Error
  value_error assertion_error system_exit : String → List ℕ → Error

-- The value of a pure computation, or its exception.
pub data Result {ℓ} (A : Type ℓ) : Type ℓ where
  ok : A → Result A
  raise : Error → Result A

abbrev pub bind {ℓ κ} : {A : Type ℓ} {B : Type κ} → Result A → (A → Result B) → Result B
bind (ok a) f = f a
bind (raise e) f = raise e

abbrev pub from_option {ℓ} : {A : Type ℓ} → Error → Option A → Result A
from_option e none = raise e
from_option e (some a) = ok a

abbrev pub check : Bool → Error → Result (Unit {0})
check true e = ok tt
check false e = raise e

-- A line before it is formatted: the format string, and the numbers and texts put into it.
pub record Message : Type 0 where
  pub format : String
  pub numbers : List ℕ
  pub texts : List Text

pub record World : Type 0 where
  pub files : Text → Option Bytes
  pub stdout : List Message
  pub stderr : List Message

pub data Outcome {ℓ} (A : Type ℓ) : Type ℓ where
  done : A → World → Outcome A
  raised : Error → World → Outcome A

abbrev pub M : Type 0 → Type 0
M A = World → Outcome A

abbrev pub and_then : {A B : Type 0} → Outcome A → (A → M B) → Outcome B
and_then (done a w) f = f a w
and_then (raised e w) f = raised e w

infixl 5 ◌>>=◌ ◌>>◌
abbrev pub ◌>>=◌ : {A B : Type 0} → M A → (A → M B) → M B
◌>>=◌ m f w = and_then (m w) f

abbrev pub ◌>>◌ : {B : Type 0} → M (Unit {0}) → M B → M B
m >> k = m >>= λ _. k

abbrev pub pure : {A : Type 0} → A → M A
pure a w = done a w

abbrev pub lift : {A : Type 0} → Result A → M A
lift (ok a) w = done a w
lift (raise e) w = raised e w

abbrev pub update : (Text → Option Bytes) → Text → Bytes → Text → Option Bytes
update files path b p = if text_eq p path then some b else files p

-- `open(path, "rb").read()`
abbrev pub read_file : Text → M Bytes
read_file path w = lift (from_option (file_not_found path) (w.files path)) w

-- `open(path, "wb").write(b)`
abbrev pub write_file : Text → Bytes → M (Unit {0})
write_file path b w = done tt (record w { files = update w.files path b })

abbrev pub appended : Option Bytes → Bytes → Bytes
appended none b = b
appended (some a) b = a ++ b

-- `out.write(b)` on a file that is open for writing.
unfoldable pub append_file : Text → Bytes → M (Unit {0})
append_file path b w =
    done tt (record w { files = update w.files path (appended (w.files path) b) })

abbrev is_some {ℓ} : {A : Type ℓ} → Option A → Bool
is_some none = false
is_some (some a) = true

-- `os.path.exists(path)`
abbrev pub path_exists : Text → M Bool
path_exists path w = done (is_some (w.files path)) w

abbrev pub print : Message → M (Unit {0})
print m w = done tt (record w { stdout = w.stdout ++ m ∷ [] })

-- The world with more lines on standard error.
abbrev pub warned : List Message → World → World
warned ms w = record w { stderr = w.stderr ++ ms }

-- `sys.stderr.write`, of any number of lines.
abbrev pub print_errs : List Message → M (Unit {0})
print_errs ms w = done tt (warned ms w)

abbrev pub print_err : Message → M (Unit {0})
print_err m = print_errs (m ∷ [])

pub warned_none : (w : World) → warned [] w ≡ w
warned_none w = ap (λ ms. record w { stderr = ms }) (append-nil w.stderr)

abbrev pub message : String → List ℕ → List Text → Message
message f ns ts = record { format = f; numbers = ns; texts = ts }

pub bind-eq-ok {ℓ κ} :
    {A : Type ℓ} {B : Type κ} (m : Result A) (f : A → Result B) {b : B}
    → bind m f ≡ ok b
    → (a : A) × (m ≡ ok a) × (f a ≡ ok b)
bind-eq-ok (ok a) f h = (a, refl, h)
bind-eq-ok (raise e) f h = cc

pub update_self :
    (files : Text → Option Bytes) (path : Text) (b : Bytes) → update files path b path ≡ some b
update_self files path b = ground (arith, text_eq_refl path)

-- The world in which a file has the given content.
abbrev pub holding : Text → Bytes → World → World
holding path b w = record w { files = update w.files path b }

pub update-update :
    (files : Text → Option Bytes) (path : Text) (a b : Bytes)
    → update (update files path a) path b ≡ update files path b
update-update files path a b = fun_ext λ p. at p (text_eq p path)
  where
    at :
        (p : Text) (same : Bool)
        → (if same then some b else if same then some a else files p)
          ≡ (if same then some b else files p)
    at p true = refl
    at p false = refl

pub append_file-holding :
    (path : Text) (a b : Bytes) (w : World)
    → append_file path b (holding path a w) ≡ done tt (holding path (a ++ b) w)
unfolding append_file
append_file-holding path a b w =
    rw (update_self w.files path a, update-update w.files path a (a ++ b))

pub write_file-holding :
    (path : Text) (a b : Bytes) (w : World)
    → write_file path b (holding path a w) ≡ done tt (holding path b w)
write_file-holding path a b w = rw (update-update w.files path a b)
