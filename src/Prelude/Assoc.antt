-- ===== src/Prelude/Assoc.antt =====
-- Go's map with text keys, as an association list: a missing key reads `none`, a write replaces the
-- value or adds the key, and a deletion of a missing key changes nothing.
use Prim.Native.Nat.{suc}
use mathlib.Core.Bool.{Bool, true, false, ◌||◌}
use mathlib.Core.List.{List, [], ◌∷◌, ◌++◌, map}
use mathlib.Core.Option.{Option, none, some}
use mathlib.Core.Path.{◌≡◌, refl}
use native.Mathlib.Omega.{arith}
use activity_relay_directory.Prelude.Tests.{if◌then◌else◌, is_some}
use activity_relay_directory.Prelude.Lists.{length}
use activity_relay_directory.Prelude.Text.{Bytes, bytes_eq, bytes_eq_iff}

module _ {ℓ} {V : Type ℓ} where
  unfoldable pub lookup : Bytes → List (Bytes × V) → Option V
  lookup k [] = none
  lookup k ((j, v) ∷ m) = if bytes_eq j k then some v else lookup k m

  unfoldable pub insert : Bytes → V → List (Bytes × V) → List (Bytes × V)
  insert k v [] = (k, v) ∷ []
  insert k v ((j, w) ∷ m) = if bytes_eq j k then (k, v) ∷ m else (j, w) ∷ insert k v m

  unfoldable pub delete : Bytes → List (Bytes × V) → List (Bytes × V)
  delete k [] = []
  delete k ((j, w) ∷ m) = let rest = delete k m in if bytes_eq j k then rest else (j, w) ∷ rest

  abbrev pub keys : List (Bytes × V) → List Bytes
  keys = map (λ e. e.0)

  pub lookup-insert :
      (k j : Bytes) (v : V) (m : List (Bytes × V))
      → lookup j (insert k v m) ≡ (if bytes_eq k j then some v else lookup j m)
  unfolding lookup insert
  lookup-insert k j v [] = refl
  lookup-insert k j v ((i, w) ∷ m) =
      ground (arith, bytes_eq_iff k j, bytes_eq_iff i k, bytes_eq_iff i j, lookup-insert k j v m)

  pub lookup-delete :
      (k j : Bytes) (m : List (Bytes × V))
      → lookup j (delete k m) ≡ (if bytes_eq k j then none else lookup j m)
  unfolding lookup delete
  lookup-delete k j [] = ground arith
  lookup-delete k j ((i, w) ∷ m) =
      ground (arith, bytes_eq_iff k j, bytes_eq_iff i k, bytes_eq_iff i j, lookup-delete k j m)

  pub length-insert :
      (k : Bytes) (v : V) (m : List (Bytes × V))
      → length (insert k v m) ≡ (if is_some (lookup k m) then length m else suc (length m))
  unfolding lookup insert
  length-insert k v [] = refl
  length-insert k v ((i, w) ∷ m) = ground (arith, length-insert k v m)

-- Membership of a text in a list of texts, and lists that hold no text twice.
unfoldable pub has : Bytes → List Bytes → Bool
has k [] = false
has k (j ∷ l) = bytes_eq j k || has k l

abbrev pub Distinct : List Bytes → Type 0
Distinct [] = Unit {0}
Distinct (j ∷ l) = (has j l ≡ false) × Distinct l

-- `list.Remove` of the element that holds the text.
unfoldable pub remove_element : Bytes → List Bytes → List Bytes
remove_element k [] = []
remove_element k (j ∷ l) = if bytes_eq j k then l else j ∷ remove_element k l

pub has-append : (k : Bytes) (l m : List Bytes) → has k (l ++ m) ≡ (has k l || has k m)
unfolding has
has-append k [] m = refl
has-append k (j ∷ l) m = ground (arith, has-append k l m)

pub has-remove_element :
    (k j : Bytes) (l : List Bytes)
    → Distinct l
    → has j (remove_element k l) ≡ (if bytes_eq k j then false else has j l)
unfolding has remove_element
has-remove_element k j [] d = ground arith
has-remove_element k j (i ∷ l) d =
    ground
      (arith, bytes_eq_iff k j, bytes_eq_iff i k, bytes_eq_iff i j, has-remove_element k j l d.1)

pub Distinct-remove_element :
    (k : Bytes) (l : List Bytes) → Distinct l → Distinct (remove_element k l)
unfolding remove_element
Distinct-remove_element k [] d = tt
Distinct-remove_element k (i ∷ l) d =
    ground (arith, Distinct-remove_element k l d.1, has-remove_element k i l d.1)

pub length-remove_element :
    (k : Bytes) (l : List Bytes) → has k l ≡ true → suc (length (remove_element k l)) ≡ length l
unfolding has remove_element
length-remove_element k [] h = cc
length-remove_element k (i ∷ l) h = ground (arith, length-remove_element k l)

pub Distinct-push :
    (k : Bytes) (l : List Bytes) → Distinct l → has k l ≡ false → Distinct (l ++ k ∷ [])
unfolding has
Distinct-push k [] d h = (refl, tt)
Distinct-push k (i ∷ l) d h =
    ground
      (arith, Distinct-push k l d.1, has-append i l (k ∷ []), bytes_eq_iff i k, bytes_eq_iff k i)

module _ {ℓ} {V : Type ℓ} where
  pub has-keys : (k : Bytes) (m : List (Bytes × V)) → has k (keys m) ≡ is_some (lookup k m)
  unfolding has lookup
  has-keys k [] = refl
  has-keys k ((j, v) ∷ m) = ground (arith, has-keys k m)

  pub Distinct-insert :
      (k : Bytes) (v : V) (m : List (Bytes × V))
      → Distinct (keys m)
      → Distinct (keys (insert k v m))
  unfolding insert
  Distinct-insert k v [] d = unfold has in (refl, tt)
  Distinct-insert k v ((j, w) ∷ m) d = ground (
    arith,
    bytes_eq_iff j k,
    bytes_eq_iff k j,
    has-keys j m,
    has-keys j (insert k v m),
    lookup-insert k j v m,
    Distinct-insert k v m d.1,
  )

  pub Distinct-delete :
      (k : Bytes) (m : List (Bytes × V)) → Distinct (keys m) → Distinct (keys (delete k m))
  unfolding delete
  Distinct-delete k [] d = tt
  Distinct-delete k ((j, w) ∷ m) d = ground (
    arith,
    bytes_eq_iff j k,
    bytes_eq_iff k j,
    has-keys j m,
    has-keys j (delete k m),
    lookup-delete k j m,
    Distinct-delete k m d.1,
  )

  delete_absent : (k : Bytes) (m : List (Bytes × V)) → lookup k m ≡ none → delete k m ≡ m
  unfolding lookup delete
  delete_absent k [] h = refl
  delete_absent k ((j, w) ∷ m) h = ground (arith, delete_absent k m)

  pub length-delete :
      (k : Bytes) (m : List (Bytes × V))
      → Distinct (keys m)
      → (if is_some (lookup k m) then suc (length (delete k m)) else length (delete k m)) ≡ length m
  unfolding lookup delete
  length-delete k [] d = refl
  length-delete k ((j, w) ∷ m) d =
      ground (arith, bytes_eq_iff j k, has-keys j m, delete_absent k m, length-delete k m d.1)
