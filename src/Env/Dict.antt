-- ===== src/Env/Dict.antt =====
-- The environment as Python's `dict`: entries in the order of insertion, with distinct keys.
use mathlib.Core.Option
use poly_firmware_build.Base.{
  Bool, true, false, Option, none, some, List, [], ◌∷◌, ◌++◌, ◌≡◌, refl, arith, if◌then◌else◌, Text,
  text_eq, text_eq_iff, text_eq_refl,
}

abbrev pub Env : Type 0
Env = List (Text × Text)

-- `entries.get(k)`
unfoldable pub lookup : Text → Env → Option Text
unfolding text_eq
lookup k [] = none
lookup k ((j, v) ∷ d) = if text_eq k j then some v else lookup k d

-- `entries[k] = v`
unfoldable pub insert : Text → Text → Env → Env
unfolding text_eq
insert k v [] = (k, v) ∷ []
insert k v ((j, w) ∷ d) =
    let rest = insert k v d in if text_eq k j then (j, v) ∷ d else (j, w) ∷ rest

-- `entries.pop(k, None)`; the keys of a dict are distinct, so the search stops at the first.
unfoldable pub erase : Text → Env → Env
unfolding text_eq
erase k [] = []
erase k ((j, w) ∷ d) = let rest = erase k d in if text_eq k j then d else (j, w) ∷ rest

-- `k in entries`
unfoldable pub has_key : Text → Env → Bool
unfolding text_eq
has_key k [] = false
has_key k ((j, w) ∷ d) = let rest = has_key k d in if text_eq k j then true else rest

-- `entries.setdefault(k, v)`
unfoldable pub set_default : Text → Text → Env → Env
unfolding has_key insert
set_default k v d = if has_key k d then d else insert k v d

abbrev pub NodupKeys : Env → Type 0
NodupKeys [] = Unit
NodupKeys ((k, v) ∷ d) = (lookup k d ≡ none) × NodupKeys d

pub lookup-insert :
    (j k v : Text) (d : Env)
    → lookup j (insert k v d) ≡ (if text_eq j k then some v else lookup j d)
unfolding lookup insert
lookup-insert j k v [] = refl
lookup-insert j k v ((i, w) ∷ d) =
    ground (arith, text_eq_iff j k, text_eq_iff j i, text_eq_iff k i, lookup-insert j k v d)

pub lookup-insert_self : (k v : Text) (d : Env) → lookup k (insert k v d) ≡ some v
lookup-insert_self k v d = ground (arith, lookup-insert k k v d, text_eq_refl k)

pub lookup-erase :
    (j k : Text) (d : Env)
    → NodupKeys d
    → lookup j (erase k d) ≡ (if text_eq j k then none else lookup j d)
unfolding lookup erase
lookup-erase j k [] h = ground arith
lookup-erase j k ((i, w) ∷ d) (fresh, h) =
    ground (arith, text_eq_iff j k, text_eq_iff j i, text_eq_iff k i, lookup-erase j k d h)

pub has_key-lookup :
    (k : Text) (d : Env) → has_key k d ≡ (elim (lookup k d) [ none ↦ false | some _ ↦ true ])
unfolding has_key lookup
has_key-lookup k [] = refl
has_key-lookup k ((i, w) ∷ d) = ground (arith, has_key-lookup k d)

pub lookup-set_default :
    (j k v : Text) (d : Env)
    → lookup j (set_default k v d)
      ≡ (if text_eq j k then some (Option.get_or (lookup k d) v) else lookup j d)
unfolding set_default
lookup-set_default j k v d =
    ground (arith, has_key-lookup k d, lookup-insert j k v d, text_eq_iff j k)

pub insert-NodupKeys : (k v : Text) (d : Env) → NodupKeys d → NodupKeys (insert k v d)
unfolding insert
insert-NodupKeys k v [] h = (unfold lookup in refl, tt)
insert-NodupKeys k v ((j, w) ∷ d) (fresh, h) =
    ground
      (arith, insert-NodupKeys k v d h, lookup-insert j k v d, text_eq_iff j k, text_eq_iff k j)

pub erase-NodupKeys : (k : Text) (d : Env) → NodupKeys d → NodupKeys (erase k d)
unfolding erase
erase-NodupKeys k [] h = tt
erase-NodupKeys k ((j, w) ∷ d) (fresh, h) =
    ground (arith, erase-NodupKeys k d h, lookup-erase j k d h)

pub set_default-NodupKeys : (k v : Text) (d : Env) → NodupKeys d → NodupKeys (set_default k v d)
unfolding set_default
set_default-NodupKeys k v d h = ground (arith, insert-NodupKeys k v d h)

-- A fresh key goes behind all others.
pub insert-fresh : (k v : Text) (d : Env) → lookup k d ≡ none → insert k v d ≡ d ++ (k, v) ∷ []
unfolding insert lookup
insert-fresh k v [] h = refl
insert-fresh k v ((j, w) ∷ d) h = ground (arith, insert-fresh k v d)

pub lookup-append_fresh :
    (j k v : Text) (d : Env) → text_eq j k ≡ false → lookup j (d ++ (k, v) ∷ []) ≡ lookup j d
unfolding lookup
lookup-append_fresh j k v [] h = ground arith
lookup-append_fresh j k v ((i, w) ∷ d) h = ground (arith, lookup-append_fresh j k v d h)
