-- ===== src/Host/Writes.antt =====
-- Computations that change one file at most, and no file where they raise.
use poly_firmware_build.Base.{
  ◌≡◌, refl, false, inl, inr, ◌⊎◌, Option, none, some, Bytes, Text, text_eq,
}
use poly_firmware_build.Host.{
  Error, file_not_found, Result, ok, raise, World, Outcome, done, raised, M, ◌>>=◌, ◌>>◌, lift,
  read_file, write_file, print, Message, from_option,
}

-- The files after a computation that began in `w` and may write to `path`.
abbrev pub Writes : Text → World → Outcome (Unit {0}) → Type 0
Writes path w (done a w') = (p : Text) → text_eq p path ≡ false → w'.files p ≡ w.files p
Writes path w (raised e w') = w'.files ≡ w.files

-- The computation leaves its world as it is.
abbrev pub IsReading : {A : Type 0} → M A → World → Type 0
IsReading {A} m w = ((a : A) × (m w ≡ done a w)) ⊎ ((e : Error) × (m w ≡ raised e w))

pub lift-IsReading : {A : Type 0} (r : Result A) (w : World) → IsReading (lift r) w
lift-IsReading (ok a) w = inl (a, refl)
lift-IsReading (raise e) w = inr (e, refl)

pub read_file-IsReading : (path : Text) (w : World) → IsReading (read_file path) w
read_file-IsReading path w = by_content (w.files path)
  where
    by_content :
        (o : Option Bytes)
        → ((a : Bytes) × (lift (from_option (file_not_found path) o) w ≡ done a w))
          ⊎ ((e : Error) × (lift (from_option (file_not_found path) o) w ≡ raised e w))
    by_content none = inr (file_not_found path, refl)
    by_content (some b) = inl (b, refl)

-- What is read first decides what is written.
pub Writes-bind :
    {A : Type 0} (path : Text) (w : World) (m : M A) (k : A → M (Unit {0}))
    → IsReading m w
    → ((a : A) → Writes path w (k a w))
    → Writes path w ((m >>= k) w)
Writes-bind path w m k (inl (a, e)) next = rw e (next a)
Writes-bind path w m k (inr (x, e)) next = rw e refl

-- The one write, and a line behind it.
pub Writes-write_file :
    (path : Text) (b : Bytes) (m : Message) (w : World)
    → Writes path w ((write_file path b >> print m) w)
Writes-write_file path b m w p apart = rw apart refl

pub IsReading-bind :
    {A B : Type 0} (w : World) (m : M A) (k : A → M B)
    → IsReading m w
    → ((a : A) → IsReading (k a) w)
    → IsReading (m >>= k) w
IsReading-bind w m k (inl (a, e)) next = rw e (next a)
IsReading-bind w m k (inr (x, e)) next = rw e (inr (x, refl))
