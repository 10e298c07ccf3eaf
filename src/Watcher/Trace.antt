-- ===== src/Watcher/Trace.antt =====
-- What a list of actions does to the file of the state and to the serial line.
use poly_firmware_build.Base.{◌≡◌, refl, ap, List, [], ◌∷◌, ◌++◌, Bytes, String}
use poly_firmware_build.Watcher.{Action, log, write, drain, sleep, state}

-- The lines of the file of its state, and the writes on the serial line.
abbrev pub states : List Action → List String
states [] = []
states (state line ∷ acts) = line ∷ states acts
states (log b ∷ acts) = states acts
states (write b ∷ acts) = states acts
states (drain ∷ acts) = states acts
states (sleep t ∷ acts) = states acts

abbrev pub writes : List Action → List Bytes
writes [] = []
writes (write b ∷ acts) = b ∷ writes acts
writes (log b ∷ acts) = writes acts
writes (state line ∷ acts) = writes acts
writes (drain ∷ acts) = writes acts
writes (sleep t ∷ acts) = writes acts

pub states-append : (xs ys : List Action) → states (xs ++ ys) ≡ states xs ++ states ys
states-append [] ys = refl
states-append (state line ∷ xs) ys = ap (λ l. line ∷ l) (states-append xs ys)
states-append (log b ∷ xs) ys = states-append xs ys
states-append (write b ∷ xs) ys = states-append xs ys
states-append (drain ∷ xs) ys = states-append xs ys
states-append (sleep t ∷ xs) ys = states-append xs ys

pub writes-append : (xs ys : List Action) → writes (xs ++ ys) ≡ writes xs ++ writes ys
writes-append [] ys = refl
writes-append (write b ∷ xs) ys = ap (λ l. b ∷ l) (writes-append xs ys)
writes-append (log b ∷ xs) ys = writes-append xs ys
writes-append (state line ∷ xs) ys = writes-append xs ys
writes-append (drain ∷ xs) ys = writes-append xs ys
writes-append (sleep t ∷ xs) ys = writes-append xs ys
