-- ===== src/Prelude/Keys.antt =====
-- A JavaScript `Set<string>` in insertion order, oldest first.
use Prim.Native.Nat.{◌≤◌}
use Prim.Native.String.{String}
use mathlib.Core.Path.{◌≡◌, refl}
use mathlib.Core.Bool.{Bool, true, false}
use mathlib.Core.List.{List, [], ◌∷◌, ◌++◌}
use native.Mathlib.Omega.{arith}
use text.Mathlib.Text.{◌==◌ as str_eq}
use text.Mathlib.TextEquality.{eq_iff}
use nuco_messenger.Prelude.Tests.{if◌then◌else◌}
use nuco_messenger.Prelude.Lists.{length}

-- `set.has(k)`.
unfoldable pub has : String → List String → Bool
has k [] = false
has k (j ∷ ks) = if str_eq j k then true else has k ks

-- `set.delete(k)`.
unfoldable pub delete : String → List String → List String
delete k [] = []
delete k (j ∷ ks) = if str_eq j k then delete k ks else j ∷ delete k ks

-- `set.add(k)`: a key that is there keeps its place.
unfoldable pub add : String → List String → List String
add k ks = if has k ks then ks else ks ++ k ∷ []

-- No key stands twice.
abbrev pub IsDistinct : List String → Type 0
IsDistinct [] = Unit {0}
IsDistinct (k ∷ ks) = (has k ks ≡ false) × IsDistinct ks

pub has-delete_self : (k : String) (ks : List String) → has k (delete k ks) ≡ false
unfolding has delete
has-delete_self k [] = refl
has-delete_self k (j ∷ ks) = ground (arith, has-delete_self k ks)

pub has-delete-false :
    (k j : String) (ks : List String) → has j ks ≡ false → has j (delete k ks) ≡ false
unfolding has delete
has-delete-false k j [] h = refl
has-delete-false k j (i ∷ ks) h = ground (arith, has-delete-false k j ks)

pub delete-IsDistinct : (k : String) (ks : List String) → IsDistinct ks → IsDistinct (delete k ks)
unfolding delete
delete-IsDistinct k [] h = tt
delete-IsDistinct k (j ∷ ks) h =
    ground (arith, delete-IsDistinct k ks h.1, has-delete-false k j ks h.0)

pub length-delete-le : (k : String) (ks : List String) → length (delete k ks) ≤ length ks
unfolding delete
length-delete-le k [] = omega arith
length-delete-le k (j ∷ ks) = ground (arith, length-delete-le k ks)

pub has-append_last :
    (k j : String) (ks : List String)
    → has j (ks ++ k ∷ []) ≡ (if str_eq k j then true else has j ks)
unfolding has
has-append_last k j [] = refl
has-append_last k j (i ∷ ks) = ground (arith, has-append_last k j ks)

pub append_last-IsDistinct :
    (k : String) (ks : List String) → has k ks ≡ false → IsDistinct ks → IsDistinct (ks ++ k ∷ [])
unfolding has
append_last-IsDistinct k [] n h = (refl, tt)
append_last-IsDistinct k (j ∷ ks) n h =
    ground (arith, append_last-IsDistinct k ks, has-append_last k j ks, eq_iff k j, eq_iff j k)

pub has-delete_ne :
    (k j : String) (ks : List String) → str_eq k j ≡ false → has j (delete k ks) ≡ has j ks
unfolding has delete
has-delete_ne k j [] n = refl
has-delete_ne k j (i ∷ ks) n =
    ground (arith, has-delete_ne k j ks, eq_iff i k, eq_iff i j, eq_iff k j)
