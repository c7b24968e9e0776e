-- ===== src/Prelude/Maps.antt =====
-- Plain objects and `Map`s keyed by texts, as association lists; `Set`s of texts, as lists.
use Prim.Native.String.{String}
use mathlib.Core.Path.{◌≡◌, refl}
use mathlib.Core.Bool.{◌&&◌, ◌||◌, not}
use mathlib.Core.Option.{Option, none, some}
use mathlib.Core.List.{List, [], ◌∷◌, ◌++◌}
use native.Mathlib.Omega.{arith}
use bu3li_comms.Prelude.Tests.{if◌then◌else◌, ◌==◌}
use bu3li_comms.Prelude.Lists.{filter, includes}

abbrev pub Dict {ℓ} : Type ℓ → Type ℓ
Dict V = List (String × V)

module _ {ℓ} {V : Type ℓ} where
  -- `d[k]`, `d.get(k)`
  unfoldable pub get : String → Dict V → Option V
  get k [] = none
  get k ((j, v) ∷ d) = if j == k then some v else get k d

  -- `{...d, [k]: v}`, `d.set(k, v)`: a key that is there keeps its place
  unfoldable pub put : String → V → Dict V → Dict V
  put k v [] = (k, v) ∷ []
  put k v ((j, w) ∷ d) = if j == k then (j, v) ∷ d else (j, w) ∷ put k v d

  -- `delete d[k]`, `d.delete(k)`
  unfoldable pub del : String → Dict V → Dict V
  del k [] = []
  del k ((j, w) ∷ d) = let rest = del k d in if j == k then rest else (j, w) ∷ rest

  pub get-put :
      (j k : String) (v : V) (d : Dict V) → get j (put k v d) ≡ (if k == j then some v else get j d)
  unfolding get put
  get-put j k v [] = refl
  get-put j k v ((i, w) ∷ d) = ground (arith, get-put j k v d)

  pub get-del : (j k : String) (d : Dict V) → get j (del k d) ≡ (if k == j then none else get j d)
  unfolding get del
  get-del j k [] = ground arith
  get-del j k ((i, w) ∷ d) = ground (arith, get-del j k d)

-- `new Set(s).add(x)`
unfoldable pub set_add : String → List String → List String
set_add x s = if includes x s then s else s ++ x ∷ []

-- `new Set(s).delete(x)`
unfoldable pub set_delete : String → List String → List String
set_delete x s = filter (λ y. not (y == x)) s

pub includes-append :
    (x : String) (s t : List String) → includes x (s ++ t) ≡ (includes x s || includes x t)
includes-append x [] t = refl
includes-append x (y ∷ s) t = ground (arith, includes-append x s t)

pub includes-set_add :
    (x y : String) (s : List String) → includes y (set_add x s) ≡ (x == y || includes y s)
unfolding set_add
includes-set_add x y s = ground (arith, includes-append y s (x ∷ []))

pub includes-set_delete :
    (x y : String) (s : List String) → includes y (set_delete x s) ≡ (not (x == y) && includes y s)
unfolding set_delete
includes-set_delete x y [] = ground arith
includes-set_delete x y (z ∷ s) = ground (arith, includes-set_delete x y s)
