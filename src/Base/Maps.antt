-- ===== src/Base/Maps.antt =====
-- Go maps with text keys, as lists of pairs in which a key stands once.
use Prim.Native.String.{String}
use text.Mathlib.Text.{◌==◌}
use text.Mathlib.TextEquality.{eq_iff}
use text.Mathlib.TextPositions.{eq_refl}
use mathlib.Core.Path.{◌≡◌, refl}
use mathlib.Core.Bool.{false}
use mathlib.Core.Option.{Option, none, some}
use mathlib.Core.List.{List, [], ◌∷◌}
use native.Mathlib.Omega.{arith}
use bangkusekolah_exam_node.Base.Tests.{if◌then◌else◌}

abbrev pub Dict {ℓ} : Type ℓ → Type ℓ
Dict V = List (String × V)

module _ {ℓ} {V : Type ℓ} where
  -- v, ok := m[k]
  unfoldable pub at_key : String → Dict V → Option V
  at_key k [] = none
  at_key k ((j, v) ∷ rest) = let later = at_key k rest in if j == k then some v else later

  -- m[k] = v
  unfoldable pub put : String → V → Dict V → Dict V
  put k v [] = (k, v) ∷ []
  put k v ((j, u) ∷ rest) =
      let later = put k v rest in if j == k then (k, v) ∷ rest else (j, u) ∷ later

  -- delete(m, k)
  unfoldable pub delete : String → Dict V → Dict V
  delete k [] = []
  delete k ((j, u) ∷ rest) = let later = delete k rest in if j == k then later else (j, u) ∷ later

  unfoldable pub keys : Dict V → List String
  keys [] = []
  keys ((k, v) ∷ rest) = k ∷ keys rest

  pub at_key-put : (k : String) (v : V) (m : Dict V) → at_key k (put k v m) ≡ some v
  unfolding at_key put
  at_key-put k v [] = ground (arith, eq_refl k)
  at_key-put k v ((j, u) ∷ rest) = ground (arith, eq_refl k, at_key-put k v rest)

  pub at_key-put_other :
      (k l : String) (v : V) (m : Dict V) → (k == l) ≡ false → at_key l (put k v m) ≡ at_key l m
  unfolding at_key put
  at_key-put_other k l v [] other = ground arith
  at_key-put_other k l v ((j, u) ∷ rest) other =
      ground (arith, eq_iff j k, at_key-put_other k l v rest other)

  pub at_key-delete : (k : String) (m : Dict V) → at_key k (delete k m) ≡ none
  unfolding at_key delete
  at_key-delete k [] = refl
  at_key-delete k ((j, u) ∷ rest) = ground (arith, at_key-delete k rest)

  pub at_key-delete_other :
      (k l : String) (m : Dict V) → (k == l) ≡ false → at_key l (delete k m) ≡ at_key l m
  unfolding at_key delete
  at_key-delete_other k l [] other = refl
  at_key-delete_other k l ((j, u) ∷ rest) other =
      ground (arith, eq_iff j k, at_key-delete_other k l rest other)
