-- ===== src/Dict.antt =====
-- Python's `dict`: it keeps the order in which its keys were first inserted.
pub mod Laws
pub mod Updates
use geo_device.Prelude.{Bool, true, false, List, [], ◌∷◌, Option, none, some, map, ite, Key, ◌≟◌}

abbrev pub Dict : Type 0 → Type 0 → Type 0
Dict K V = List (K × V)

module _ {K : Type 0} {V : Type 0} where
  -- `list(d)` and `list(d.values())`
  unfoldable pub keys : Dict K V → List K
  keys [] = []
  keys ((k, v) ∷ d) = k ∷ keys d

  unfoldable pub values : Dict K V → List V
  values [] = []
  values ((k, v) ∷ d) = v ∷ values d

module _ {K : Type 0} {V : Type 0} ⦃key : Key K⦄ where
  -- `d.get(k)`
  unfoldable pub get : Dict K V → K → Option V
  get [] j = none
  get ((k, v) ∷ d) j = ite (k ≟ j) (some v) (get d j)

  -- `d[k] = v`: a key that is there keeps its place
  unfoldable pub put : Dict K V → K → V → Dict K V
  put [] j w = (j, w) ∷ []
  put ((k, v) ∷ d) j w = ite (k ≟ j) ((k, w) ∷ d) ((k, v) ∷ put d j w)

  -- `del d[k]`, `d.pop(k, None)`
  unfoldable pub remove : Dict K V → K → Dict K V
  remove [] j = []
  remove ((k, v) ∷ d) j = ite (k ≟ j) d ((k, v) ∷ remove d j)

  -- `d.update(pairs)`, and a comprehension is `update []`
  unfoldable pub update : Dict K V → List (K × V) → Dict K V
  unfolding put
  update d [] = d
  update d ((k, v) ∷ pairs) = update (put d k v) pairs
