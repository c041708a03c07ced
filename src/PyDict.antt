-- ===== src/PyDict.antt =====
-- Python's `dict` with texts as keys.
pub mod Laws
use carqna_agent.Common.{Option, none, some, List, [], ◌∷◌, if◌then◌else◌}
use carqna_agent.PyText.{Text, text_eq}

-- A `dict[str, V]`, in the order of insertion.
abbrev pub Dict : Type 0 → Type 0
Dict V = List (Text × V)

-- d[key] = value
unfoldable pub dict_set : {V : Type 0} → Text → V → Dict V → Dict V
dict_set key value [] = (key, value) ∷ []
dict_set key value ((k, v) ∷ d) =
    if text_eq k key then (k, value) ∷ d else (k, v) ∷ dict_set key value d

-- d.get(key)
unfoldable pub dict_get : {V : Type 0} → Text → Dict V → Option V
dict_get key [] = none
dict_get key ((k, v) ∷ d) = if text_eq k key then some v else dict_get key d

-- d.get(key, default)
abbrev pub get_or {ℓ} : {V : Type ℓ} → V → Option V → V
get_or default none = default
get_or default (some v) = v
